-- ===== src/Models/Signature.antt =====
-- models/signature.go: a row of signatures, and the identifier that its content determines.
-- SHA-256 with hexadecimal printing is the parameter `digest`.
pub mod Framing
mod Examples
use tillit.Base.{Bytes, ℕ, ◌/◌, ◌%◌, ◌^◌, List, [], ◌∷◌, ◌++◌, length, Bool, Option}

pub record Signature : Type 0 where
  pub id : Bytes
  pub signer : Bytes
  pub payload : Bytes
  pub algorithm : Bytes
  pub sig : Bytes
  pub uploaded_at : ℕ
  pub revoked : Bool
  pub revoked_at : Option ℕ
  pub public : Bool

-- binary.BigEndian.PutUint64
unfoldable pub put_uint64 : ℕ → Bytes
put_uint64 n =
    (n / 2 ^ 56 % 256)
    ∷ (n / 2 ^ 48 % 256)
    ∷ (n / 2 ^ 40 % 256)
    ∷ (n / 2 ^ 32 % 256)
    ∷ (n / 2 ^ 24 % 256)
    ∷ (n / 2 ^ 16 % 256)
    ∷ (n / 2 ^ 8 % 256)
    ∷ (n % 256)
    ∷ []

-- All that is written to the hash.
unfoldable pub frame : Bytes → Bytes → Bytes
unfolding put_uint64
frame payload sig = put_uint64 (length payload) ++ (payload ++ (put_uint64 (length sig) ++ sig))

unfoldable pub signature_id : (Bytes → Bytes) → Bytes → Bytes → Bytes
unfolding frame
signature_id digest payload sig = digest (frame payload sig)
