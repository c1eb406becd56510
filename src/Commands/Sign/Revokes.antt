-- ===== src/Commands/Sign/Revokes.antt =====
-- cmd/tillit/commands/sign.go, Revoke: the signature counts as revoked afterwards.
use tillit.Base.{
  Bytes, ◌==◌, ==_iff, ℕ, Option, none, some, [], ◌∷◌, any, In, here, In-append_right, any_iff, ◌≡◌,
  ◌≢◌, refl, sym, ◌∙◌, inl, inr, arith, Bool-cases,
}
use tillit.Models.Payload.{Payload, validate, type_revocation}
use tillit.Localstore.{Store, CachedSignature, save_cached_signature, get_cached_signature}
use tillit.Localstore.Revocation.{Kind, is_revocation_for, is_cached_signature_revoked}
use tillit.Localstore.Revocation.Derived.{
  get-save_cached_signature, is_cached_signature_revoked_iff,
}
use tillit.Commands.Signing.{
  Signer, SignTools, SignedItem, signed_item, active_signer_and_id, sign_payload,
}
use tillit.Commands.Sign.{revocation, signed_row, sign_and_cache, revoke}

-- The kind that is read back from a payload's JSON.
abbrev pub kind_of : Payload → Kind
kind_of p = record { type = p.type; target_id = some p.target_id }

-- After a save there is a row of its id.
row_of_saved :
    (s : Store) (n : CachedSignature)
    → (c : CachedSignature) × In c (save_cached_signature s n).signatures
      × (c.id ≡ n.id)
      × ((In c s.signatures → c.signer ≡ n.signer × (c.payload ≡ n.payload))
          → (c.signer ≡ n.signer) × (c.payload ≡ n.payload))
unfolding save_cached_signature
row_of_saved s n = elim (Bool-cases (any (λ (q : CachedSignature). q.id == n.id) s.signatures)) [
  | inl e ↦
      let (c, m, v) = (any_iff (λ (q : CachedSignature). q.id == n.id) s.signatures).0 e in
      rw (e) (c, m, (==_iff c.id n.id).0 v, λ h. h m)
  | inr e ↦ rw (e) (_, In-append_right s.signatures (here refl), refl, λ h. (refl, refl))
]

validate-revocation :
    (user_id target_id : Bytes)
    → user_id ≢ []
    → target_id ≢ []
    → validate (revocation user_id target_id) ≡ none
unfolding validate ◌==◌
validate-revocation [] target_id u t = absurd (u refl)
validate-revocation (a ∷ user_id) [] u t = absurd (t refl)
validate-revocation (a ∷ user_id) (b ∷ target_id) u t = refl

abbrev pub revocation_item : SignTools → Signer → Bytes → Bytes → Bytes → SignedItem
revocation_item tools signer user_id target_id sig =
    signed_item tools signer (tools.marshal (revocation user_id target_id)) sig

-- For an active key that signs, revoke of a cached signature of the same user returns, and the
-- signature counts as revoked in the store that it leaves, under conditions: neither id is empty,
-- the kind of the revocation is read back from its JSON, the id of the revocation is not that of
-- its target, and a row that is cached under it is the same revocation.
pub revoke-revokes :
    (read_kind : Bytes → Option Kind) (tools : SignTools) (now nonce : ℕ) (s : Store)
    (signer : Signer) (row : CachedSignature) (sig target_id : Bytes)
    → active_signer_and_id tools s ≡ some (signer, row.signer)
    → signer.sign nonce (tools.marshal (revocation row.signer target_id)) ≡ some sig
    → row.signer ≢ []
    → target_id ≢ []
    → get_cached_signature s target_id ≡ some row
    → read_kind (tools.marshal (revocation row.signer target_id))
      ≡ some (kind_of (revocation row.signer target_id))
    → (revocation_item tools signer row.signer target_id sig).id ≢ target_id
    → ((r : CachedSignature)
        → In r s.signatures
        → r.id ≡ (revocation_item tools signer row.signer target_id sig).id
        → (r.signer ≡ row.signer)
          × (r.payload ≡ (revocation_item tools signer row.signer target_id sig).payload))
    → (s' : Store) × (revoke tools now nonce s target_id
        ≡ some ((revocation_item tools signer row.signer target_id sig).id, s'))
      × ((t : ℕ) × (is_cached_signature_revoked read_kind s' target_id ≡ some (some t)))
unfolding revoke sign_and_cache sign_payload is_revocation_for
revoke-revokes read_kind tools now nonce s signer row sig target_id a signs u t cached reads other
      addressed =
    let p = revocation row.signer target_id in
    let n : CachedSignature =
      signed_row row.signer now (revocation_item tools signer row.signer target_id sig) in
    let (c, m, same, content) = row_of_saved s n in
    let (own, says) = content (λ i. addressed c i same) in
    (
      save_cached_signature s n,
      rw
          (
            revoke,
            a,
            sign_and_cache,
            sign_payload,
            validate-revocation row.signer target_id u t,
            signs,
          )
          refl,
      (is_cached_signature_revoked_iff read_kind (save_cached_signature s n) target_id row
            (get-save_cached_signature s n row target_id cached)).1
          (
            c,
            m,
            own,
            (λ e. other (sym same ∙ e)),
            rw (says, is_revocation_for, reads)
                (ground
                  (arith, ==_iff target_id target_id, ==_iff type_revocation type_revocation)),
          ),
    )
