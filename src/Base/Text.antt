-- ===== src/Base/Text.antt =====
-- What the program uses of Go's `strings` and `strconv`, on byte sequences.
use Prim.Native.Nat.{ℕ, zero, suc, ◌+◌, ◌-◌, ◌*◌, ◌^◌, compare, Ordering}
use Prim.Native.Char.{code}
use Prim.Native.String.{String}
use mathlib.Core.Path.{◌≡◌, refl}
use mathlib.Core.Logic.{◌↔◌}
use mathlib.Core.Bool.{Bool, true, false, ◌&&◌}
use mathlib.Core.Option.{Option, none, some}
use mathlib.Core.List.{List, [], ◌∷◌}
use native.Mathlib.Omega.{arith}
use tillit.Base.Tests.{nat_eq, nat_eq_iff, leb, ltb, if◌then◌else◌}
use tillit.Base.Int.{ℤ, pos, negsuc}

abbrev pub Bytes : Type 0
Bytes = List ℕ

-- The bytes of an ASCII literal.
abbrev pub codes : String → Bytes
codes String.[] = []
codes (String.◌∷◌ c s) = code c ∷ codes s

infix 50 ◌==◌
unfoldable pub ◌==◌ : Bytes → Bytes → Bool
[] == [] = true
(a ∷ s) == (b ∷ t) = nat_eq a b && s == t
_ == _ = false

pub ==_iff : (s t : Bytes) → ((s == t) ≡ true) ↔ (s ≡ t)
unfolding ◌==◌
==_iff [] [] = ground arith
==_iff [] (b ∷ t) = ground arith
==_iff (a ∷ s) [] = ground arith
==_iff (a ∷ s) (b ∷ t) = ground (arith, ==_iff s t, nat_eq_iff a b)

pub ==_refl : (s : Bytes) → (s == s) ≡ true
==_refl s = (==_iff s s).1 refl

-- strings.Compare, and `<` on strings: bytewise lexicographic.
unfoldable pub compare_bytes : Bytes → Bytes → Ordering
compare_bytes [] [] = Ordering.eq
compare_bytes [] (b ∷ t) = Ordering.lt
compare_bytes (a ∷ s) [] = Ordering.gt
compare_bytes (a ∷ s) (b ∷ t) = elim (compare a b) [
  | Ordering.lt ↦ Ordering.lt
  | Ordering.eq ↦ compare_bytes s t
  | Ordering.gt ↦ Ordering.gt
]

-- strings.HasPrefix
unfoldable pub has_prefix : Bytes → Bytes → Bool
has_prefix [] s = true
has_prefix (a ∷ p) [] = false
has_prefix (a ∷ p) (b ∷ s) = nat_eq a b && has_prefix p s

-- strings.TrimPrefix
unfoldable pub drop_prefix : Bytes → Bytes → Option Bytes
drop_prefix [] s = some s
drop_prefix (a ∷ p) [] = none
drop_prefix (a ∷ p) (b ∷ s) = if nat_eq a b then drop_prefix p s else none

unfoldable pub trim_prefix : Bytes → Bytes → Bytes
unfolding drop_prefix
trim_prefix p s = elim (drop_prefix p s) [ none ↦ s | some r ↦ r ]

-- What stands before and behind the first byte `sep`, as after strings.Index.
unfoldable pub cut : ℕ → Bytes → Option (Bytes × Bytes)
cut sep [] = none
cut sep (c ∷ s) =
    if nat_eq c sep
    then some ([], s)
    else elim (cut sep s) [ none ↦ none | some (l, r) ↦ some (c ∷ l, r) ]

-- A byte in front of the first part of a split.
abbrev pub extend_first : ℕ → List Bytes → List Bytes
extend_first c [] = (c ∷ []) ∷ []
extend_first c (p ∷ ps) = (c ∷ p) ∷ ps

-- strings.Split with a separator of one byte.
unfoldable pub split : ℕ → Bytes → List Bytes
split sep [] = [] ∷ []
split sep (c ∷ s) = if nat_eq c sep then [] ∷ split sep s else extend_first c (split sep s)

unfoldable pub is_digit : ℕ → Bool
is_digit c = leb b'0' c && leb c b'9'

-- A run of digits, read to the base ten behind `acc`.
unfoldable pub digits : ℕ → Bytes → Option ℕ
unfolding is_digit
digits acc [] = some acc
digits acc (c ∷ s) = if is_digit c then digits (acc * 10 + (c - b'0')) s else none

-- A nonempty run of digits.
unfoldable pub unsigned : Bytes → Option ℕ
unfolding digits
unsigned [] = none
unsigned (c ∷ s) = digits 0 (c ∷ s)

abbrev pub nonneg : Option ℕ → Option ℤ
nonneg none = none
nonneg (some n) = if ltb n (2 ^ 63) then some (pos n) else none

abbrev pub negative : Option ℕ → Option ℤ
negative none = none
negative (some zero) = some (pos 0)
negative (some (suc n)) = if ltb n (2 ^ 63) then some (negsuc n) else none

-- strconv.Atoi: an optional sign, then digits, within 64 bits.
unfoldable pub atoi : Bytes → Option ℤ
unfolding unsigned
atoi [] = none
atoi (c ∷ s) =
    if nat_eq c b'-'
    then negative (unsigned s)
    else if nat_eq c b'+'
    then nonneg (unsigned s)
    else nonneg (unsigned (c ∷ s))
