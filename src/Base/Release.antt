-- ===== src/Base/Release.antt =====
-- Comparisons of suffixes where a release, which has none, comes after what has one.
use Prim.Native.Nat.{Ordering}
use mathlib.Core.Path.{◌≡◌, refl}
use mathlib.Core.Option.{Option, none, some}
use mathlib.Core.List.{List, [], ◌∷◌}
use native.Mathlib.Omega.{arith}
use tillit.Base.Order.{IsOrder, swap}

-- The empty list is the highest, and the others compare by `c`.
unfoldable pub empty_last {ℓ} :
    {A : Type ℓ} → (List A → List A → Ordering) → List A → List A → Ordering
empty_last c [] [] = Ordering.eq
empty_last c [] (b ∷ t) = Ordering.gt
empty_last c (a ∷ s) [] = Ordering.lt
empty_last c (a ∷ s) (b ∷ t) = c (a ∷ s) (b ∷ t)

pub empty_last-IsOrder {ℓ} :
    {A : Type ℓ} {c : List A → List A → Ordering} → IsOrder c → IsOrder (empty_last c)
unfolding empty_last
empty_last-IsOrder {A = A} {c = c} o = record {
  reflexive = λ a. elim a as (λ s. empty_last c s s ≡ Ordering.eq) [
    | [] ↦ refl
    | x ∷ s ↦ o.reflexive (x ∷ s)
  ];
  flips = flips;
  ties = ties;
  transitive = transitive;
}
  where
    flips : (a b : List A) → empty_last c b a ≡ swap (empty_last c a b)
    flips [] [] = refl
    flips [] (b ∷ t) = refl
    flips (a ∷ s) [] = refl
    flips (a ∷ s) (b ∷ t) = o.flips (a ∷ s) (b ∷ t)

    ties : (a b d : List A) → empty_last c a b ≡ Ordering.eq → empty_last c a d ≡ empty_last c b d
    ties [] [] d h = refl
    ties [] (b ∷ t) d h = cc
    ties (a ∷ s) [] d h = cc
    ties (a ∷ s) (b ∷ t) [] h = refl
    ties (a ∷ s) (b ∷ t) (d ∷ u) h = o.ties (a ∷ s) (b ∷ t) (d ∷ u) h

    transitive :
        (a b d : List A)
        → empty_last c a b ≡ Ordering.lt
        → empty_last c b d ≡ Ordering.lt
        → empty_last c a d ≡ Ordering.lt
    transitive [] [] d h k = cc
    transitive [] (b ∷ t) d h k = cc
    transitive (a ∷ s) [] [] h k = cc
    transitive (a ∷ s) [] (d ∷ u) h k = cc
    transitive (a ∷ s) (b ∷ t) [] h k = refl
    transitive (a ∷ s) (b ∷ t) (d ∷ u) h k = o.transitive (a ∷ s) (b ∷ t) (d ∷ u) h k

-- Comparisons of what is parsed first: a text that does not parse comes before all that do, and two
-- such texts compare as texts.
abbrev pub failing_first {κ} :
    {B : Type κ} → (B → B → Ordering) → Option B → Option B → Ordering → Ordering
failing_first c none none o = o
failing_first c none (some y) o = Ordering.lt
failing_first c (some x) none o = Ordering.gt
failing_first c (some x) (some y) o = c x y

module _ {ℓ κ} {A : Type ℓ} {B : Type κ} where
  pub failing_first-IsOrder :
      (parse : A → Option B) {c : B → B → Ordering} {d : A → A → Ordering}
      → IsOrder c
      → IsOrder d
      → IsOrder (λ a b. failing_first c (parse a) (parse b) (d a b))
  failing_first-IsOrder parse {c = c} {d = d} o p = record {
    reflexive = λ a. reflexive (parse a) a;
    flips = λ a b. flips (parse a) (parse b) a b;
    ties = λ a b e. ties (parse a) (parse b) (parse e) a b e;
    transitive = λ a b e. transitive (parse a) (parse b) (parse e) a b e;
  }
    where
      reflexive : (x : Option B) (a : A) → failing_first c x x (d a a) ≡ Ordering.eq
      reflexive none a = p.reflexive a
      reflexive (some x) a = o.reflexive x

      flips :
          (x y : Option B) (a b : A)
          → failing_first c y x (d b a) ≡ swap (failing_first c x y (d a b))
      flips none none a b = p.flips a b
      flips none (some y) a b = refl
      flips (some x) none a b = refl
      flips (some x) (some y) a b = o.flips x y

      ties :
          (x y z : Option B) (a b e : A)
          → failing_first c x y (d a b) ≡ Ordering.eq
          → failing_first c x z (d a e) ≡ failing_first c y z (d b e)
      ties none none none a b e h = p.ties a b e h
      ties none none (some z) a b e h = refl
      ties none (some y) z a b e h = absurd (ground arith)
      ties (some x) none z a b e h = absurd (ground arith)
      ties (some x) (some y) none a b e h = refl
      ties (some x) (some y) (some z) a b e h = o.ties x y z h

      transitive :
          (x y z : Option B) (a b e : A)
          → failing_first c x y (d a b) ≡ Ordering.lt
          → failing_first c y z (d b e) ≡ Ordering.lt
          → failing_first c x z (d a e) ≡ Ordering.lt
      transitive none none none a b e h k = p.transitive a b e h k
      transitive none y (some z) a b e h k = refl
      transitive none (some y) none a b e h k = absurd (ground arith)
      transitive (some x) none z a b e h k = absurd (ground arith)
      transitive (some x) (some y) none a b e h k = absurd (ground arith)
      transitive (some x) (some y) (some z) a b e h k = o.transitive x y z h k
