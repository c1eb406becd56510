-- ===== src/Ecosystems/Rubygems/Order.antt =====
-- ecosystems/rubygems/version.go: what the order promises, and where it breaks.
use Prim.Native.Nat.{Ordering}
use tillit.Base.{
  Bytes, ℕ, suc, ℤ, pos, compare_bytes, Option, none, some, List, [], ◌∷◌, ◌++◌, ◌≡◌, refl, ◌∙◌,
  arith,
}
use tillit.Base.Order.{IsOrder, swap, compare_ℤ-IsOrder, compare_bytes-IsOrder, tie_break-flips}
use tillit.Ecosystems.Rubygems.{
  try_atoi, classify_from, classify_gem_trailing, number_last, compare_gem_segment,
  compare_gem_segments, split_gem_segments, compare_gem_version,
}

-- Segments that are both numbers, by any reading of numbers, compare so; the others as texts, before
-- all numbers.
pub number_last-IsOrder :
    (number : Bytes → Option ℤ)
    → IsOrder (λ a b. number_last (number a) (number b) (compare_bytes a b))
number_last-IsOrder number = record {
  reflexive = λ a. ground (arith, compare_ℤ-IsOrder.reflexive, compare_bytes-IsOrder.reflexive a);
  flips = λ a b. ground (arith, compare_bytes-IsOrder.flips a b);
  ties = λ a b d h. ground (arith, compare_bytes-IsOrder.ties a b d);
  transitive = λ a b d h k. ground (arith, compare_bytes-IsOrder.transitive a b d);
}

compare_gem_segment-IsOrder : IsOrder compare_gem_segment
unfolding compare_gem_segment
compare_gem_segment-IsOrder = number_last-IsOrder try_atoi

swap_twice : (o : Ordering) → o ≡ swap (swap o)
swap_twice Ordering.lt = refl
swap_twice Ordering.eq = refl
swap_twice Ordering.gt = refl

compare_gem_segments-reflexive : (s : List Bytes) → compare_gem_segments s s ≡ Ordering.eq
unfolding compare_gem_segments
compare_gem_segments-reflexive [] = refl
compare_gem_segments-reflexive (a ∷ s) =
    rw
      (
        compare_gem_segments,
        compare_gem_segment-IsOrder.reflexive a,
        compare_gem_segments-reflexive s,
      )
      refl

compare_gem_segments-flips :
    (s t : List Bytes) → compare_gem_segments t s ≡ swap (compare_gem_segments s t)
unfolding compare_gem_segments
compare_gem_segments-flips [] [] = refl
compare_gem_segments-flips [] (b ∷ t) = swap_twice (classify_gem_trailing (b ∷ t))
compare_gem_segments-flips (a ∷ s) [] = refl
compare_gem_segments-flips (a ∷ s) (b ∷ t) =
    tie_break-flips compare_gem_segment-IsOrder a b _ _ (compare_gem_segments-flips s t)

-- Two versions of any texts compare in opposite ways from the two sides, and a version ties with
-- itself.
pub compare_gem_version-flips :
    (a b : Bytes)
    → (compare_gem_version b a ≡ swap (compare_gem_version a b))
      × (compare_gem_version a a ≡ Ordering.eq)
unfolding compare_gem_version
compare_gem_version-flips a b = (
  compare_gem_segments-flips (split_gem_segments a) (split_gem_segments b),
  compare_gem_segments-reflexive (split_gem_segments a),
)

-- More segments behind a version are told apart by those alone.
trailing_decides :
    (s : List Bytes) (c : Bytes) (t : List Bytes)
    → compare_gem_segments (s ++ c ∷ t) s ≡ classify_gem_trailing (c ∷ t)
unfolding compare_gem_segments
trailing_decides [] c t = refl
trailing_decides (a ∷ s) c t =
    rw (compare_gem_segments, compare_gem_segment-IsOrder.reflexive a, trailing_decides s c t) refl

-- A numbered pre-release comes after its release: segments, then one that is no number, then one that
-- is a number other than zero, compare as greater than the first segments. Without the number they
-- compare as less.
pub numbered_pre_release_last :
    (s : List Bytes) (tag digits : Bytes) (n : ℕ)
    → try_atoi tag ≡ none
    → try_atoi digits ≡ some (pos (suc n))
    → (compare_gem_segments (s ++ tag ∷ digits ∷ []) s ≡ Ordering.gt)
      × (compare_gem_segments (s ++ tag ∷ []) s ≡ Ordering.lt)
unfolding classify_gem_trailing classify_from
numbered_pre_release_last s tag digits n t d = (
  trailing_decides s tag (digits ∷ [])
      ∙ rw (classify_gem_trailing, classify_from, t, classify_from, d) refl,
  trailing_decides s tag [] ∙ rw (classify_gem_trailing, classify_from, t) refl,
)
