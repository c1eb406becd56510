-- ===== src/Commands/Signing.antt =====
-- cmd/tillit/commands/signing.go and store.go: the active key as a signer, and a signed payload. JSON,
-- base64, SHA-256, the prompt for a password and the decryption and signatures of crypto/ are
-- parameters. A signature may depend on a nonce, the source of randomness at that call.
pub mod Examples
use tillit.Base.{Bytes, ◌==◌, ℕ, Bool, true, false, Option, none, some, if◌then◌else◌}
use tillit.Models.Payload.{Payload, validate}
use tillit.Models.Signature.{signature_id}
use tillit.Localstore.{Store, Key}
use tillit.Localstore.Settings.{get_active_key, get_key}

-- Signer: `none` is an error.
pub record Signer : Type 0 where
  pub algorithm : Bytes
  pub public_key : Bytes
  pub sign : ℕ → Bytes → Option Bytes

pub record SignTools : Type 0 where
  pub marshal : Payload → Bytes
  pub decode_base64 : Bytes → Option Bytes
  pub encode_base64 : Bytes → Bytes
  pub sha256 : Bytes → Bytes
  pub digest : Bytes → Bytes
  pub is_encrypted_key : Bytes → Bool
  pub prompt_password : Bytes → Option Bytes
  pub decrypt_key : Bytes → Bytes → Option Bytes
  pub load_signer : Bytes → Bytes → Option Signer

pub record SignedItem : Type 0 where
  pub id : Bytes
  pub payload : Bytes
  pub algorithm : Bytes
  pub sig : Bytes

module _ (tools : SignTools) where
  -- decodePrivateKey
  unfoldable pub decode_private_key : Key → Option Bytes
  decode_private_key k =
      if tools.is_encrypted_key k.privkey
      then elim (tools.prompt_password k.name) [
        | none ↦ none
        | some password ↦ tools.decrypt_key k.privkey password
      ]
      else tools.decode_base64 k.privkey

  -- activeSignerAndID
  unfoldable pub active_signer_and_id : Store → Option (Signer × Bytes)
  active_signer_and_id s = elim (get_active_key s) [
    | none ↦ none
    | some name ↦ elim (get_key s name) [
      | none ↦ none
      | some k ↦ elim (decode_private_key k) [
        | none ↦ none
        | some private_key ↦ elim (tools.load_signer k.algorithm private_key) [
          | none ↦ none
          | some signer ↦ some (signer, tools.encode_base64 (tools.sha256 signer.public_key))
        ]
      ]
    ]
  ]

  abbrev pub signed_item : Signer → Bytes → Bytes → SignedItem
  signed_item signer payload sig = record {
    id = signature_id tools.digest payload (tools.encode_base64 sig);
    payload = payload;
    algorithm = signer.algorithm;
    sig = tools.encode_base64 sig;
  }

  -- signPayload
  unfoldable pub sign_payload : Signer → ℕ → Payload → Option SignedItem
  sign_payload signer nonce p = elim (validate p) [
    | some e ↦ none
    | none ↦ elim (signer.sign nonce (tools.marshal p)) [
      | none ↦ none
      | some sig ↦ some (signed_item signer (tools.marshal p) sig)
    ]
  ]
