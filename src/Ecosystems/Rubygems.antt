-- ===== src/Ecosystems/Rubygems.antt =====
-- ecosystems/rubygems/version.go: the comparison of two versions of gems.
-- The result -1, 0 or 1 is `lt`, `eq` or `gt`.
pub mod Order
mod Examples
use Prim.Native.Nat.{Ordering}
use tillit.Base.{
  Bytes, codes, ◌==◌, ℕ, zero, suc, leb, ℤ, pos, negsuc, compare_ℤ, compare_bytes, nonneg, unsigned,
  trim_prefix, split, Bool, true, false, not, ◌&&◌, ◌||◌, Option, none, some, List, [], ◌∷◌, any,
  if◌then◌else◌,
}
use tillit.Base.Order.{swap, tie_break}

-- Digits within 64 bits; `none` for other texts.
unfoldable pub try_atoi : Bytes → Option ℤ
try_atoi s = nonneg (unsigned s)

-- The loop, with `seen` whether there was a text so far.
unfoldable pub classify_from : Bool → List Bytes → Ordering
classify_from seen [] = if seen then Ordering.lt else Ordering.eq
classify_from seen (s ∷ segs) = elim (try_atoi s) [
  | none ↦ classify_from true segs
  | some (pos zero) ↦ classify_from seen segs
  | some (pos (suc n)) ↦ Ordering.gt
  | some (negsuc n) ↦ Ordering.gt
]

unfoldable pub classify_gem_trailing : List Bytes → Ordering
classify_gem_trailing segs = classify_from false segs

-- One round: numbers come last.
abbrev pub number_last : Option ℤ → Option ℤ → Ordering → Ordering
number_last (some m) (some n) o = compare_ℤ m n
number_last (some m) none o = Ordering.gt
number_last none (some n) o = Ordering.lt
number_last none none o = o

unfoldable pub compare_gem_segment : Bytes → Bytes → Ordering
compare_gem_segment a b = number_last (try_atoi a) (try_atoi b) (compare_bytes a b)

-- The loop over both versions.
unfoldable pub compare_gem_segments : List Bytes → List Bytes → Ordering
compare_gem_segments [] [] = Ordering.eq
compare_gem_segments [] (b ∷ t) = swap (classify_gem_trailing (b ∷ t))
compare_gem_segments (a ∷ s) [] = classify_gem_trailing (a ∷ s)
compare_gem_segments (a ∷ s) (b ∷ t) =
    tie_break (compare_gem_segment a b) (compare_gem_segments s t)

unfoldable pub split_gem_segments : Bytes → List Bytes
split_gem_segments v = split b'.' (trim_prefix (codes "v") v)

unfoldable pub compare_gem_version : Bytes → Bytes → Ordering
compare_gem_version a b = compare_gem_segments (split_gem_segments a) (split_gem_segments b)

-- The bytes of a segment; those of other characters are not.
unfoldable pub is_gem_byte : ℕ → Bool
is_gem_byte c =
    (leb b'0' c && leb c b'9') || ((leb b'a' c && leb c b'z') || (leb b'A' c && leb c b'Z'))

-- `true` is no error.
unfoldable pub validate_gem_version : Bytes → Bool
validate_gem_version v =
    if v == []
    then false
    else not (any (λ seg. seg == [] || any (λ c. not (is_gem_byte c)) seg) (split b'.' v))
