-- ===== src/Commands/Sign/Examples.antt =====
-- cmd/tillit/commands/sign.go with a toy key.
use tillit.Base.{
  Bytes, codes, ◌==◌, ==_iff, ℕ, Bool, true, false, Option, none, some, List, [], ◌∷◌, In, In-cons,
  ◌≡◌, ◌≢◌, refl, sym, ◌∙◌, inl, inr, arith,
}
use tillit.Models.Signature.{signature_id}
use tillit.Models.Payload.{type_decision, type_revocation}
use tillit.Localstore.{Store, CachedSignature, get_cached_signature}
use tillit.Localstore.Revocation.{is_cached_signature_revoked}
use tillit.Commands.Signing.{active_signer_and_id, signed_item}
use tillit.Commands.Signing.Examples.{
  alice, signer, tools, write, read_kind, read_kind-write, store,
}
use tillit.Commands.Sign.{parse_sign_flags, revoke}
use tillit.Commands.Sign.Revokes.{revocation_item, revoke-revokes}

abbrev row : CachedSignature
row = record {
  id = (signed_item tools signer (write type_decision []) (write type_decision [])).id;
  signer = alice;
  payload = write type_decision [];
  algorithm = [];
  sig = write type_decision [];
  uploaded_at = 0;
  revoked = false;
  revoked_at = none;
  fetched_at = 0;
}

abbrev signed : Store
signed = record store { signatures = row ∷ [] }

flags :
    parse_sign_flags (codes "--level" ∷ codes "vetted" ∷ codes "--skip-verify" ∷ [])
    ≡ some (codes "vetted", [], true)
unfolding tillit.Commands.Sign.parse_sign_flags_from tillit.Base.◌==◌
flags = refl

no_level : parse_sign_flags (codes "--reason" ∷ codes "vetted" ∷ []) ≡ none
unfolding tillit.Commands.Sign.parse_sign_flags_from tillit.Base.◌==◌
no_level = refl

active : active_signer_and_id tools signed ≡ some (signer, alice)
unfolding active_signer_and_id tillit.Localstore.Settings.get_active_key
    tillit.Localstore.Settings.get_key tillit.Base.first tillit.Base.◌==◌
    tillit.Commands.Signing.decode_private_key
active = refl

cached : get_cached_signature signed row.id ≡ some row
unfolding get_cached_signature tillit.Base.first ◌==◌ signature_id tillit.Models.Signature.frame
    tillit.Models.Signature.put_uint64
cached = refl

-- The row's id is the hash of its content, and that of the revocation is another.
abbrev text : Bytes
text = write type_revocation row.id

differ : ((revocation_item tools signer alice row.id text).id == row.id) ≡ false
unfolding ◌==◌ signature_id tillit.Models.Signature.frame tillit.Models.Signature.put_uint64
differ = refl

other_id : (revocation_item tools signer alice row.id text).id ≢ row.id
other_id e = absurd (never (sym differ ∙ (==_iff _ _).1 e))
  where
    never : false ≢ true
    never h = absurd (ground arith)

named : row.id ≢ []
unfolding signature_id
named e = absurd (ground arith)

addressed :
    (r : CachedSignature)
    → In r signed.signatures
    → r.id ≡ (revocation_item tools signer alice row.id text).id
    → (r.signer ≡ alice) × (r.payload ≡ (revocation_item tools signer alice row.id text).payload)
addressed r m e = elim (In-cons r row [] m) [
  | inl same ↦ absurd (other_id (sym e ∙ rw (same) refl))
  | inr rest ↦ elim rest [ ]
]

revoke-revokes_example :
    (s' : Store) × (revoke tools 0 0 signed row.id
      ≡ some ((revocation_item tools signer alice row.id text).id, s'))
    × ((t : ℕ) × (is_cached_signature_revoked read_kind s' row.id ≡ some (some t)))
revoke-revokes_example =
    revoke-revokes read_kind tools 0 0 signed signer row text row.id active refl
      (λ e. absurd (ground arith)) named cached (read_kind-write _ _) other_id addressed
