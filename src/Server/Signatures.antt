-- ===== src/Server/Signatures.antt =====
-- handlers/signaturehandler.go: uploading and listing signatures.
-- Decoding base64, building a verifier from a user's key, the hash and reading JSON are parameters.
pub mod Authentic
pub mod Ownership
pub mod Visible
mod Examples
use tillit.Base.{
  Bytes, ◌==◌, ℕ, Bool, true, false, not, ◌&&◌, ◌||◌, Option, none, some, List, [], if◌then◌else◌,
}
use tillit.Models.Payload.{Payload, PayloadError, Unmarshal, validate, is_revocation}
use tillit.Models.Signature.{Signature, signature_id}
use tillit.Server.Database.{
  User, Database, get_user, get_signature, create_signature, revoke_signature, get_user_signatures,
}

-- What the handlers use of code that is not theirs. `verifier` is `none` where the key or the
-- algorithm is not understood.
pub record Crypto : Type 0 where
  pub decode_base64 : Bytes → Option Bytes
  pub verifier : User → Option (Bytes → Bytes → Bool)
  pub digest : Bytes → Bytes

-- The request's body; `public` may be left out.
pub record SigInput : Type 0 where
  pub id : Bytes
  pub payload : Bytes
  pub algorithm : Bytes
  pub sig : Bytes
  pub public : Option Bool

-- An HTTP status with an error text, or 201 with the new signature.
pub data Response : Type 0 where
  error : ℕ → Response
  created : Signature → Response

-- authorizeSignatureRevocation: (notFound, forbidden).
pub authorize_signature_revocation : Database → Bytes → Bytes → Bool × Bool
authorize_signature_revocation d target_id revoker_id = elim (get_signature d target_id) [
  | none ↦ (true, false)
  | some target ↦ (false, not (target.signer == revoker_id))
]

-- The user of the request is the one of the URL.
abbrev pub is_user : Option User → Bytes → Bool
is_user none id = false
is_user (some u) id = u.id == id

abbrev pub public_or_default : Option Bool → Bool
public_or_default none = true
public_or_default (some b) = b

module _ (crypto : Crypto) (unmarshal : Unmarshal) where
  open crypto use {decode_base64, verifier, digest}

  -- The checks of identifier and signature: `none` is success.
  unfoldable pub check_signature : User → Bytes → Bytes → Bytes → Option ℕ
  check_signature user id payload sig =
      if id == []
      then some 400
      else if not (id == signature_id digest payload sig)
      then some 400
      else elim (decode_base64 sig) [
        | none ↦ some 400
        | some sig_bytes ↦ elim (verifier user) [
          | none ↦ some 500
          | some verify ↦ if not (verify payload sig_bytes) then some 401 else none
        ]
      ]

  -- The payload, if it parses and is valid.
  unfoldable pub read_payload : Bytes → Option Payload
  read_payload text = elim (unmarshal text) [
    | none ↦ none
    | some p ↦ elim (validate p) [ none ↦ some p | some e ↦ none ]
  ]

  -- May this user revoke, if the payload is a revocation? `none` is yes.
  pub check_revocation : Database → Bytes → Payload → Option ℕ
  check_revocation d user_id p =
      if not (is_revocation p)
      then none
      else let (not_found, forbidden) = authorize_signature_revocation d p.target_id user_id in
        if not_found then some 404 else if forbidden then some 403 else none

  -- Storing the signature, and marking the target of a revocation.
  pub store_signature : Database → Signature → Payload → ℕ → Database
  store_signature d sig p now =
      let d' = create_signature d sig in
      if is_revocation p then revoke_signature d' p.target_id now else d'

  pub new_signature : Bytes → SigInput → ℕ → Signature
  new_signature user_id input now = record {
    id = input.id;
    signer = user_id;
    payload = input.payload;
    algorithm = input.algorithm;
    sig = input.sig;
    uploaded_at = now;
    revoked = false;
    revoked_at = none;
    public = public_or_default input.public;
  }

  -- CreateSignatureHandler. `authed` is the authenticated user, `body` is `none` where the body does
  -- not decode, and `now` is the clock.
  pub create_signature_handler :
      Database → Bytes → Option User → Option SigInput → ℕ → Response × Database
  create_signature_handler d user_id authed body now = elim (get_user d user_id) [
    | none ↦ (error 404, d)
    | some user ↦ elim body [
      | none ↦ (error 400, d)
      | some input ↦ elim (check_signature user input.id input.payload input.sig) [
        | some code ↦ (error code, d)
        | none ↦ elim (read_payload input.payload) [
          | none ↦ (error 400, d)
          | some p ↦ elim (check_revocation d user_id p) [
            | some code ↦ (error code, d)
            | none ↦
                if not (public_or_default input.public) && not (is_user authed user_id)
                then (error 401, d)
                else (
                  created (new_signature user_id input now),
                  store_signature d (new_signature user_id input now) p now,
                )
          ]
        ]
      ]
    ]
  ]

-- GetUserSignaturesHandler, where the `since` parameter parses.
pub get_user_signatures_handler : Database → Bytes → Option User → Option ℕ → List Signature
get_user_signatures_handler d user_id authed since =
    get_user_signatures d user_id since (is_user authed user_id)
