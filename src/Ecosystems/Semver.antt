-- ===== src/Ecosystems/Semver.antt =====
-- ecosystems/internal/semver/semver.go: strict versions by semver 2.0.0.
-- The result -1, 0 or 1 is `lt`, `eq` or `gt`.
pub mod Order
mod Examples
use Prim.Native.Nat.{Ordering}
use tillit.Base.{
  Bytes, codes, ◌==◌, ℕ, ◌-◌, ◌^◌, ltb, nat_eq, leb, ℤ, pos, compare_ℤ, compare_bytes, cut, split,
  atoi, unsigned, is_digit, Bool, true, false, not, ◌&&◌, ◌||◌, Option, none, some, List, [], ◌∷◌,
  any, if◌then◌else◌,
}
use tillit.Base.Order.{tie_break, shorter_first}
use tillit.Base.Release.{empty_last, failing_first}
use tillit.Resolver.Version.{by_number}

pub record Version : Type 0 where
  pub major : ℤ
  pub minor : ℤ
  pub patch : ℤ
  pub pre : List Bytes
  pub build : List Bytes

-- A byte of an identifier; the bytes of other characters are not.
unfoldable pub is_ident_byte : ℕ → Bool
is_ident_byte c =
    (leb b'0' c && leb c b'9')
    || ((leb b'a' c && leb c b'z') || ((leb b'A' c && leb c b'Z') || nat_eq c b'-'))

unfoldable pub is_ident : Bytes → Bool
unfolding is_ident_byte
is_ident p = not (p == []) && not (any (λ c. not (is_ident_byte c)) p)

unfoldable pub split_idents : Bytes → Option (List Bytes)
split_idents s =
    let parts = split b'.' s in if any (λ p. not (is_ident p)) parts then none else some parts

unfoldable pub is_all_digits : Bytes → Bool
is_all_digits [] = false
is_all_digits (c ∷ s) = not (any (λ d. not (is_digit d)) (c ∷ s))

-- More than one byte, the first of them a zero.
unfoldable pub has_leading_zero : Bytes → Bool
has_leading_zero [] = false
has_leading_zero (c ∷ []) = false
has_leading_zero (c ∷ d ∷ s) = nat_eq c b'0'

-- What follows a separator, if there is one.
unfoldable pub optional_idents : Option Bytes → Option (List Bytes)
optional_idents none = some []
optional_idents (some []) = none
optional_idents (some (c ∷ s)) = split_idents (c ∷ s)

unfoldable pub pre_idents : Option Bytes → Option (List Bytes)
pre_idents s = elim (optional_idents s) [
  | none ↦ none
  | some ids ↦ if any (λ id. is_all_digits id && has_leading_zero id) ids then none else some ids
]

abbrev pub before : Bytes → Option (Bytes × Bytes) → Bytes
before s none = s
before s (some (l, r)) = l

abbrev pub behind : Option (Bytes × Bytes) → Option Bytes
behind none = none
behind (some (l, r)) = some r

unfoldable pub number : Bytes → Option ℤ
number [] = none
number (c ∷ s) = if has_leading_zero (c ∷ s) then none else atoi (c ∷ s)

abbrev pub three : List Bytes → Option (ℤ × ℤ × ℤ)
three (a ∷ b ∷ c ∷ []) = elim (number a) [
  | none ↦ none
  | some major ↦ elim (number b) [
    | none ↦ none
    | some minor ↦ elim (number c) [ none ↦ none | some patch ↦ some (major, minor, patch) ]
  ]
]
three _ = none

-- The part behind the build metadata.
unfoldable pub parse_core : List Bytes → Bytes → Option Version
parse_core build s = elim (pre_idents (behind (cut b'-' s))) [
  | none ↦ none
  | some pre ↦ elim (three (split b'.' (before s (cut b'-' s)))) [
    | none ↦ none
    | some (major, minor, patch) ↦
        some (record { major = major; minor = minor; patch = patch; pre = pre; build = build })
  ]
]

-- A text and its cut at the first '+'.
unfoldable pub parse_cut : Bytes → Option (Bytes × Bytes) → Option Version
parse_cut s parts = elim (optional_idents (behind parts)) [
  | none ↦ none
  | some build ↦ parse_core build (before s parts)
]

-- `none` is an error.
unfoldable pub parse : Bytes → Option Version
parse [] = none
parse (c ∷ s) = parse_cut (c ∷ s) (cut b'+' (c ∷ s))

-- Validate; `true` is no error.
abbrev pub is_valid : Bytes → Bool
is_valid v = elim (parse v) [ none ↦ false | some p ↦ true ]

-- strconv.Atoi of digits without a look at its error: a number out of range is the highest.
unfoldable pub clamped : Bytes → ℤ
clamped s = elim (unsigned s) [
  | none ↦ pos 0
  | some n ↦ if ltb n (2 ^ 63) then pos n else pos (2 ^ 63 - 1)
]

unfoldable pub ident_number : Bytes → Option ℤ
ident_number s = if is_all_digits s then some (clamped s) else none

-- A round of cmpPreRelease: numbers come first.
unfoldable pub compare_idents : Bytes → Bytes → Ordering
compare_idents a b = by_number (ident_number a) (ident_number b) (compare_bytes a b)

unfoldable pub cmp_pre_release : List Bytes → List Bytes → Ordering
cmp_pre_release a b = shorter_first compare_idents a b

-- The part of Compare for two versions.
unfoldable pub compare_parsed : Version → Version → Ordering
compare_parsed a b = tie_break (compare_ℤ a.major b.major) (
    tie_break (compare_ℤ a.minor b.minor)
      (tie_break (compare_ℤ a.patch b.patch) (empty_last cmp_pre_release a.pre b.pre)))

unfoldable pub compare : Bytes → Bytes → Ordering
compare a b = failing_first compare_parsed (parse a) (parse b) (compare_bytes a b)
