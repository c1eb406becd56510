-- ===== src/Server/Signatures/Examples.antt =====
-- handlers/signaturehandler.go: one upload, with a key that signs by repeating the text.
use tillit.Base.{
  Bytes, codes, ◌==◌, ℕ, Bool, true, false, Option, none, some, List, [], ◌∷◌, In, here, In-cons,
  inl, inr, ◌≡◌, refl, ◌≢◌, ◌↔◌, ◌⊎◌, pos, if◌then◌else◌,
}
use tillit.Models.Payload.{Payload, Unmarshal, type_revocation}
use tillit.Models.Signature.{Signature, frame}
use tillit.Server.Database.{User, Database, at_or_after}
use tillit.Server.Database.Rows.{HasUniqueIds}
use tillit.Server.Signatures.{
  Crypto, SigInput, Response, error, created, is_user, create_signature_handler,
  get_user_signatures_handler,
}
use tillit.Server.Signatures.Authentic.{IsAuthentic, create_signature_handler-IsAuthentic}
use tillit.Server.Signatures.Ownership.{create_signature_handler-owner}
use tillit.Server.Signatures.Visible.{IsFrom, IsSince, get_user_signatures_handler_iff}

abbrev pub toy : Crypto
toy = record {
  decode_base64 = λ text. some text;
  verifier = λ user. some (λ text sig. text == sig);
  digest = λ text. text;
}

abbrev pub alice : User
alice = record {
  id = codes "alice";
  username = codes "Alice";
  pubkey = codes "key";
  algorithm = codes "toy";
  is_admin = false;
}

-- A revocation of the row "x".
abbrev withdrawal : Payload
withdrawal = record {
  type = type_revocation;
  signer = codes "alice";
  ecosystem = [];
  package_id = [];
  level = [];
  reason = [];
  target_id = codes "x";
  version = [];
  from_version = [];
  to_version = [];
  other_id = [];
  public = true;
  trust = false;
  trust_extends = pos 0;
}

abbrev parse : Unmarshal
parse text = if text == codes "undo" then some withdrawal else none

abbrev signature : Bytes → Bytes → Bytes → Signature
signature id signer text = record {
  id = id;
  signer = signer;
  payload = text;
  algorithm = [];
  sig = text;
  uploaded_at = 0;
  revoked = false;
  revoked_at = none;
  public = true;
}

abbrev before : List Signature → Database
before rows = record { users = alice ∷ []; signatures = rows; connections = [] }

abbrev upload : SigInput
upload = record {
  id = frame (codes "undo") (codes "undo");
  payload = codes "undo";
  algorithm = [];
  sig = codes "undo";
  public = none;
}

-- A row of Alice's that holds what the upload holds.
abbrev own : Signature
own = signature (frame (codes "undo") (codes "undo")) (codes "alice") (codes "undo")

-- Of the target "x", which is not stored, nothing can be revoked.
missing :
    create_signature_handler toy parse (before []) (codes "alice") none (some upload) 0
    ≡ (error 404, before [])
unfolding create_signature_handler tillit.Server.Database.get_user tillit.Base.first ◌==◌
    tillit.Server.Signatures.check_signature frame tillit.Models.Signature.signature_id
    tillit.Server.Signatures.read_payload tillit.Models.Payload.validate
    tillit.Server.Signatures.check_revocation tillit.Models.Payload.is_revocation
    tillit.Server.Signatures.authorize_signature_revocation tillit.Server.Database.get_signature
missing = refl

-- The target "x" is Bob's.
forbidden :
    create_signature_handler toy parse
      (before (signature (codes "x") (codes "bob") [] ∷ []))
      (codes "alice")
      none
      (some upload)
      0
    ≡ (error 403, before (signature (codes "x") (codes "bob") [] ∷ []))
unfolding create_signature_handler tillit.Server.Database.get_user tillit.Base.first ◌==◌
    tillit.Server.Signatures.check_signature frame tillit.Models.Signature.signature_id
    tillit.Server.Signatures.read_payload tillit.Models.Payload.validate
    tillit.Server.Signatures.check_revocation tillit.Models.Payload.is_revocation
    tillit.Server.Signatures.authorize_signature_revocation tillit.Server.Database.get_signature
forbidden = refl

own-IsAuthentic : IsAuthentic toy parse (before (own ∷ [])) own
unfolding tillit.Server.Database.get_user tillit.Base.first ◌==◌
    tillit.Models.Signature.signature_id frame tillit.Models.Payload.validate
own-IsAuthentic = (
  alice,
  withdrawal,
  refl,
  refl,
  (codes "undo", (λ text sig. text == sig), refl, refl, refl),
  (refl, refl),
)

all-IsAuthentic : (r : Signature) → In r (own ∷ []) → IsAuthentic toy parse (before (own ∷ [])) r
all-IsAuthentic r m = elim (In-cons r own [] m) [
  | inl same ↦ rw (same) own-IsAuthentic
  | inr rest ↦ elim rest [ ]
]

own_kept :
    In own
      (create_signature_handler toy parse
        (before (own ∷ []))
        (codes "alice")
        none
        (some upload)
        0).1.signatures
unfolding create_signature_handler tillit.Server.Database.get_user tillit.Base.first ◌==◌
    tillit.Server.Signatures.check_signature frame tillit.Models.Signature.signature_id
    tillit.Server.Signatures.read_payload tillit.Models.Payload.validate
    tillit.Server.Signatures.check_revocation tillit.Models.Payload.is_revocation
    tillit.Server.Signatures.authorize_signature_revocation tillit.Server.Database.get_signature
own_kept = here refl

create_signature_handler-IsAuthentic_example :
    IsAuthentic toy parse
      (create_signature_handler toy parse
        (before (own ∷ []))
        (codes "alice")
        none
        (some upload)
        0).1
      own
create_signature_handler-IsAuthentic_example =
    create_signature_handler-IsAuthentic toy parse (before (own ∷ [])) (codes "alice") none
      (some upload) 0 all-IsAuthentic own own_kept

abbrev two : Database
two =
    before (signature (codes "x") (codes "alice") [] ∷ signature (codes "y") (codes "bob") [] ∷ [])

two-HasUniqueIds : HasUniqueIds two.signatures
unfolding tillit.Base.any ◌==◌
two-HasUniqueIds = (refl, (refl, tt))

-- Alice revokes her row, and Bob's stays.
create_signature_handler-owner_example :
    HasUniqueIds
      (create_signature_handler toy parse two (codes "alice") none (some upload) 0).1.signatures
    × ((r : Signature)
        → In r two.signatures
        → r.signer ≢ codes "alice"
        → In r
            (create_signature_handler toy parse two
              (codes "alice")
              none
              (some upload)
              0).1.signatures)
create_signature_handler-owner_example =
    create_signature_handler-owner toy parse two (codes "alice") none (some upload) 0
      two-HasUniqueIds

get_user_signatures_handler_iff_example :
    In own (get_user_signatures_handler (before (own ∷ [])) (codes "alice") (some alice) (some 0))
    ↔ (In own (own ∷ [])
        × (own.signer ≡ codes "alice")
        × ((own.public ≡ true) ⊎ IsFrom (some alice) (codes "alice"))
        × IsSince (some 0) own.uploaded_at)
get_user_signatures_handler_iff_example =
    get_user_signatures_handler_iff (before (own ∷ [])) (codes "alice") (some alice) (some 0) own
