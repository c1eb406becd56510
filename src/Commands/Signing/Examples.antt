-- ===== src/Commands/Signing/Examples.antt =====
-- cmd/tillit/commands/signing.go with a toy key: texts sign to themselves, ids start with a zero, and
-- of a payload the type and the target are written.
use tillit.Base.{
  Bytes, codes, ℕ, zero, suc, false, Option, none, some, [], ◌∷◌, ◌≡◌, ◌≢◌, refl, arith,
}
use tillit.Models.Signature.{signature_id}
use tillit.Localstore.{Store}
use tillit.Localstore.Revocation.{Kind}
use tillit.Commands.Signing.{Signer, SignTools}

abbrev pub alice : Bytes
alice = codes "alice"

abbrev pub signer : Signer
signer = record { algorithm = []; public_key = alice; sign = λ nonce message. some message }

abbrev pub write : Bytes → Bytes → Bytes
write [] target = 0 ∷ target
write (c ∷ type) target = 1 ∷ c ∷ write type target

abbrev pub read : Bytes → Option (Bytes × Bytes)
read [] = none
read (zero ∷ text) = some ([], text)
read (suc n ∷ []) = none
read (suc n ∷ c ∷ text) = elim (read text) [
  | none ↦ none
  | some (type, target) ↦ some (c ∷ type, target)
]

abbrev pub read_kind : Bytes → Option Kind
read_kind text = elim (read text) [
  | none ↦ none
  | some (type, target) ↦ some (record { type = type; target_id = some target })
]

read-write : (type target : Bytes) → read (write type target) ≡ some (type, target)
read-write [] target = refl
read-write (c ∷ type) target = rw (read-write type target) refl

pub read_kind-write :
    (type target : Bytes)
    → read_kind (write type target) ≡ some (record { type = type; target_id = some target })
read_kind-write type target = rw (read_kind, read-write type target) refl

abbrev pub tools : SignTools
tools = record {
  marshal = λ p. write p.type p.target_id;
  decode_base64 = λ text. some text;
  encode_base64 = λ text. text;
  sha256 = λ text. text;
  digest = λ text. 0 ∷ text;
  is_encrypted_key = λ text. false;
  prompt_password = λ name. none;
  decrypt_key = λ key password. none;
  load_signer = λ algorithm key. some signer;
}

-- The store of a user with this key.
abbrev pub store : Store
store = record {
  keys = record { name = codes "k"; algorithm = []; pubkey = alice; privkey = [] } ∷ [];
  active_key = some (codes "k");
  servers = [];
  peers = [];
  signatures = [];
  connections = [];
  users = [];
  push_state = [];
}

-- An id is no text that starts otherwise.
pub signature_id-starts :
    (payload sig text : Bytes) (c : ℕ) → c ≢ 0 → signature_id tools.digest payload sig ≢ c ∷ text
unfolding signature_id
signature_id-starts payload sig text c d e = absurd (ground (arith, d))
