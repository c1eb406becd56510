-- ===== src/Ecosystems/Pypi/Compare.antt =====
-- ecosystems/pypi/version.go: the comparison of two versions by PEP 440.
pub mod Order
mod Examples
use Prim.Native.Nat.{compare, Ordering}
use tillit.Base.{
  Bytes, codes, ◌==◌, ℕ, zero, suc, ◌-◌, ◌^◌, leb, ℤ, pos, negsuc, compare_ℤ, compare_bytes,
  is_digit, Bool, true, false, not, ◌&&◌, Option, none, some, List, [], ◌∷◌, any, if◌then◌else◌,
}
use tillit.Base.Order.{tie_break, padded, shorter_first}
use tillit.Base.Release.{failing_first}
use tillit.Ecosystems.Rubygems.{number_last}
use tillit.Ecosystems.Pypi.{Version, clamped, split_local, parse_version}

abbrev pub is_present : ℤ → Bool
is_present (pos n) = true
is_present (negsuc n) = false

-- phaseDevOnly to phasePost
unfoldable pub classify_phase : Version → ℕ
classify_phase v =
    if not (v.pre_kind == [])
    then 1
    else if is_present v.post_num
    then 3
    else if is_present v.dev_num
    then 0
    else 2

unfoldable pub pre_kind_rank : Bytes → ℕ
pre_kind_rank k =
    if k == codes "a" then 0 else if k == codes "b" then 1 else if k == codes "rc" then 2 else 99

-- An absent number as a high one.
abbrev pub dev_for_order : ℤ → ℤ
dev_for_order (pos n) = pos n
dev_for_order (negsuc n) = pos (2 ^ 30 - 1)

abbrev pub is_zero : ℤ → Bool
is_zero (pos zero) = true
is_zero (pos (suc n)) = false
is_zero (negsuc n) = false

abbrev pub is_empty : List ℤ → Bool
is_empty [] = true
is_empty (x ∷ xs) = false

unfoldable pub strip_zeros : List ℤ → List ℤ
strip_zeros [] = []
strip_zeros (n ∷ ns) =
    let rest = strip_zeros ns in if is_zero n && is_empty rest then [] else n ∷ rest

-- All but the first may go.
unfoldable pub strip_trailing_zeros : List ℤ → List ℤ
strip_trailing_zeros [] = []
strip_trailing_zeros (n ∷ ns) = n ∷ strip_zeros ns

unfoldable pub cmp_release : List ℤ → List ℤ → Ordering
cmp_release a b = padded compare_ℤ (pos 0) (strip_trailing_zeros a) (strip_trailing_zeros b)

unfoldable pub as_local_segment : Bytes → Option ℤ
as_local_segment s = if any (λ c. not (is_digit c)) s then none else some (clamped s)

unfoldable pub compare_local_segment : Bytes → Bytes → Ordering
compare_local_segment a b =
    number_last (as_local_segment a) (as_local_segment b) (compare_bytes a b)

unfoldable pub cmp_local : Bytes → Bytes → Ordering
cmp_local a b = shorter_first compare_local_segment (split_local a) (split_local b)

abbrev pub label : Bytes → Option Bytes
label [] = none
label (c ∷ s) = some (c ∷ s)

-- The switch on the two labels.
unfoldable pub compare_labels : Bytes → Bytes → Ordering
compare_labels a b = failing_first cmp_local (label a) (label b) Ordering.eq

-- The switch on the phase that two versions share.
unfoldable pub cmp_in_phase : ℕ → Version → Version → Ordering
cmp_in_phase zero a b = compare_ℤ a.dev_num b.dev_num
cmp_in_phase (suc zero) a b =
    tie_break (compare (pre_kind_rank a.pre_kind) (pre_kind_rank b.pre_kind)) (
      tie_break (compare_ℤ a.pre_num b.pre_num)
        (compare_ℤ (dev_for_order a.dev_num) (dev_for_order b.dev_num)))
cmp_in_phase (suc (suc zero)) a b = Ordering.eq
cmp_in_phase (suc (suc (suc n))) a b =
    tie_break (compare_ℤ a.post_num b.post_num)
      (compare_ℤ (dev_for_order a.dev_num) (dev_for_order b.dev_num))

unfoldable pub cmp_version : Version → Version → Ordering
cmp_version a b = tie_break (compare_ℤ a.epoch b.epoch) (
    tie_break (cmp_release a.release b.release) (
      tie_break
        (tie_break (compare (classify_phase a) (classify_phase b))
          (cmp_in_phase (classify_phase a) a b))
        (compare_labels a.local b.local)))

unfoldable pub compare_pep440 : (Bytes → Bytes) → Bytes → Bytes → Ordering
compare_pep440 to_lower a b =
    failing_first cmp_version (parse_version to_lower a) (parse_version to_lower b)
      (compare_bytes a b)
