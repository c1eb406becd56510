-- ===== src/Models/Signature/Framing.antt =====
-- models/signature.go: the framing of an identifier leaves no ambiguity.
use tillit.Base.{Bytes, ℕ, ◌<◌, ◌^◌, ◌≡◌, refl, [], ◌∷◌, ◌++◌, length, arith}
use tillit.Models.Signature.{put_uint64, frame}

put_uint64-injective : (m n : ℕ) → m < 2 ^ 64 → n < 2 ^ 64 → put_uint64 m ≡ put_uint64 n → m ≡ n
unfolding put_uint64
put_uint64-injective m n hm hn e = ground arith

append-injective : (s t u v : Bytes) → length s ≡ length t → s ++ u ≡ t ++ v → (s ≡ t) × (u ≡ v)
append-injective [] [] u v h e = (refl, e)
append-injective [] (b ∷ t) u v h e = absurd (omega arith)
append-injective (a ∷ s) [] u v h e = absurd (omega arith)
append-injective (a ∷ s) (b ∷ t) u v h e =
    let (same, rest) = append-injective s t u v (omega arith) (cc) in (cc, rest)

-- Two pairs of a payload and a signature that are framed alike are the same pair: no byte moves
-- from the one to the other. The payloads are shorter than 2^64 bytes.
pub frame-injective :
    (p q s t : Bytes)
    → length p < 2 ^ 64
    → length q < 2 ^ 64
    → frame p s ≡ frame q t
    → (p ≡ q) × (s ≡ t)
unfolding frame
frame-injective p q s t hp hq e =
    let (lengths, rest) =
      append-injective (put_uint64 (length p)) (put_uint64 (length q)) _ _ refl e in
    let (payloads, sigs) = append-injective p q _ _ (put_uint64-injective _ _ hp hq lengths) rest in
    (payloads, (append-injective (put_uint64 (length s)) (put_uint64 (length t)) s t refl sigs).1)
