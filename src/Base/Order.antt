-- ===== src/Base/Order.antt =====
-- Comparisons that order: what every comparator of versions promises, and the ways to build one.
use Prim.Native.Nat.{ℕ, compare, Ordering}
use mathlib.Core.Path.{◌≡◌, refl, sym, ap, ◌∙◌, fun_ext}
use mathlib.Core.Bool.{Bool, true, false}
use mathlib.Core.List.{List, [], ◌∷◌}
use native.Mathlib.Omega.{arith}
use tillit.Base.Int.{compare_ℤ}
use tillit.Base.Text.{Bytes, compare_bytes}

-- The result of a comparison from the other side: -1 and 1 exchanged.
abbrev pub swap : Ordering → Ordering
swap Ordering.lt = Ordering.gt
swap Ordering.eq = Ordering.eq
swap Ordering.gt = Ordering.lt

-- The first comparison that tells the two apart.
abbrev pub tie_break : Ordering → Ordering → Ordering
tie_break Ordering.lt o = Ordering.lt
tie_break Ordering.eq o = o
tie_break Ordering.gt o = Ordering.gt

-- A total preorder, read as a comparison: ties are an equivalence that the comparison respects.
pub record IsOrder {ℓ} {A : Type ℓ} (c : A → A → Ordering) : Type ℓ where
  pub reflexive : (a : A) → c a a ≡ Ordering.eq
  pub flips : (a b : A) → c b a ≡ swap (c a b)
  pub ties : (a b d : A) → c a b ≡ Ordering.eq → c a d ≡ c b d
  pub transitive : (a b d : A) → c a b ≡ Ordering.lt → c b d ≡ Ordering.lt → c a d ≡ Ordering.lt

pub compare-IsOrder : IsOrder compare
compare-IsOrder = record {
  reflexive = λ a. ground arith;
  flips = λ a b. ground arith;
  ties = λ a b d h. ground arith;
  transitive = λ a b d h k. ground arith;
}

pub compare_ℤ-IsOrder : IsOrder compare_ℤ
compare_ℤ-IsOrder = record {
  reflexive = λ a. ground arith;
  flips = λ a b. ground arith;
  ties = λ a b d h. ground arith;
  transitive = λ a b d h k. ground arith;
}

-- A comparison of images.
pub image-IsOrder {ℓ κ} :
    {A : Type ℓ} {B : Type κ} (f : A → B) {c : B → B → Ordering}
    → IsOrder c
    → IsOrder (λ a b. c (f a) (f b))
image-IsOrder f o = record {
  reflexive = λ a. o.reflexive (f a);
  flips = λ a b. o.flips (f a) (f b);
  ties = λ a b d. o.ties (f a) (f b) (f d);
  transitive = λ a b d. o.transitive (f a) (f b) (f d);
}

-- One step of a lexicographic comparison: what the heads do not decide, the rests do.
module _ {ℓ} {A : Type ℓ} {c : A → A → Ordering} (o : IsOrder c) where
  pub tie_break-ties :
      (a b d : A) (r s t : Ordering)
      → tie_break (c a b) r ≡ Ordering.eq
      → (r ≡ Ordering.eq → s ≡ t)
      → tie_break (c a d) s ≡ tie_break (c b d) t
  tie_break-ties a b d r s t h k = ground (arith, o.ties a b d)

  pub tie_break-transitive :
      (a b d : A) (r s t : Ordering)
      → tie_break (c a b) r ≡ Ordering.lt
      → tie_break (c b d) s ≡ Ordering.lt
      → (r ≡ Ordering.lt → s ≡ Ordering.lt → t ≡ Ordering.lt)
      → tie_break (c a d) t ≡ Ordering.lt
  tie_break-transitive a b d r s t h k l =
      ground (
        arith,
        o.ties a b d,
        o.ties b d a,
        o.flips a b,
        o.flips a d,
        o.flips b d,
        o.transitive a b d,
      )

  pub tie_break-flips :
      (a b : A) (r s : Ordering) → s ≡ swap r → tie_break (c b a) s ≡ swap (tie_break (c a b) r)
  tie_break-flips a b r s h = ground (arith, o.flips a b)

-- Two comparisons of the same values, the second where the first ties.
pub tie_break-IsOrder {ℓ} :
    {A : Type ℓ} {c d : A → A → Ordering}
    → IsOrder c
    → IsOrder d
    → IsOrder (λ a b. tie_break (c a b) (d a b))
tie_break-IsOrder {d} o p = record {
  reflexive = λ a. ground (arith, o.reflexive a, p.reflexive a);
  flips = λ a b. tie_break-flips o a b (d a b) (d b a) (p.flips a b);
  ties = λ a b e h. tie_break-ties o a b e (d a b) (d a e) (d b e) h (p.ties a b e);
  transitive =
      λ a b e h k. tie_break-transitive o a b e (d a b) (d b e) (d a e) h k (p.transitive a b e);
}

flips_at :
    (m n : ℕ) (r s : Ordering)
    → (m ≡ n → s ≡ swap r)
    → tie_break (compare n m) s ≡ swap (tie_break (compare m n) r)
flips_at m n r s k = ground (arith, k)

ties_at :
    (m n o : ℕ) (r s t : Ordering)
    → tie_break (compare m n) r ≡ Ordering.eq
    → (m ≡ n → r ≡ Ordering.eq → s ≡ t)
    → tie_break (compare m o) s ≡ tie_break (compare n o) t
ties_at m n o r s t h k = ground (arith, k)

transitive_at :
    (m n o : ℕ) (r s t : Ordering)
    → tie_break (compare m n) r ≡ Ordering.lt
    → tie_break (compare n o) s ≡ Ordering.lt
    → (m ≡ n → n ≡ o → r ≡ Ordering.lt → s ≡ Ordering.lt → t ≡ Ordering.lt)
    → tie_break (compare m o) t ≡ Ordering.lt
transitive_at m n o r s t h k l = ground (arith, l)

-- Values in classes, by number: those of one class compare by the order `d` of it.
pub by_class-IsOrder {ℓ} :
    {A : Type ℓ} (f : A → ℕ) {d : ℕ → A → A → Ordering}
    → ((k : ℕ) → IsOrder (d k))
    → IsOrder (λ a b. tie_break (compare (f a) (f b)) (d (f a) a b))
by_class-IsOrder f {d = d} p = record {
  reflexive = λ a. ground (arith, (p (f a)).reflexive a);
  flips = λ a b.
      flips_at (f a) (f b) (d (f a) a b) (d (f b) b a)
        (λ e. ap (λ k. d k b a) (sym e) ∙ (p (f a)).flips a b);
  ties = λ a b c h.
      ties_at (f a) (f b) (f c) (d (f a) a b) (d (f a) a c) (d (f b) b c) h
        (λ e r. (p (f a)).ties a b c r ∙ ap (λ k. d k b c) e);
  transitive = λ a b c h k.
      transitive_at (f a) (f b) (f c) (d (f a) a b) (d (f b) b c) (d (f a) a c) h k
        (λ e g r s. (p (f a)).transitive a b c r (ap (λ k. d k b c) e ∙ s));
}

-- The loops of the comparators over the segments of two versions, `for i := 0; i < n; i++` with `n`
-- the longer length, where each round returns unless its two segments tie.
module _ {ℓ} {A : Type ℓ} (c : A → A → Ordering) where
  -- A list that has ended goes on with `z`.
  unfoldable pub padded : A → List A → List A → Ordering
  padded z [] [] = Ordering.eq
  padded z [] (b ∷ t) = tie_break (c z b) (padded z [] t)
  padded z (a ∷ s) [] = tie_break (c a z) (padded z s [])
  padded z (a ∷ s) (b ∷ t) = tie_break (c a b) (padded z s t)

  -- A list that has ended is the lower.
  unfoldable pub shorter_first : List A → List A → Ordering
  shorter_first [] [] = Ordering.eq
  shorter_first [] (b ∷ t) = Ordering.lt
  shorter_first (a ∷ s) [] = Ordering.gt
  shorter_first (a ∷ s) (b ∷ t) = tie_break (c a b) (shorter_first s t)

module _ {ℓ} {A : Type ℓ} {c : A → A → Ordering} (o : IsOrder c) where
  padded-reflexive : (z : A) (s : List A) → padded c z s s ≡ Ordering.eq
  unfolding padded
  padded-reflexive z [] = refl
  padded-reflexive z (a ∷ s) = ground (arith, o.reflexive a, padded-reflexive z s)

  padded-flips : (z : A) (s t : List A) → padded c z t s ≡ swap (padded c z s t)
  unfolding padded
  padded-flips z [] [] = refl
  padded-flips z [] (b ∷ t) = tie_break-flips o z b _ _ (padded-flips z [] t)
  padded-flips z (a ∷ s) [] = tie_break-flips o a z _ _ (padded-flips z s [])
  padded-flips z (a ∷ s) (b ∷ t) = tie_break-flips o a b _ _ (padded-flips z s t)

  -- Ties and transitivity: the three lists are read together, and end one after the other.
  padded-ties :
      (z : A) (s t u : List A) → padded c z s t ≡ Ordering.eq → padded c z s u ≡ padded c z t u
  unfolding padded
  padded-ties z [] [] u e = refl
  padded-ties z [] (b ∷ t) [] e = ground (arith, padded-ties z [] t [], o.ties z b z, o.reflexive z)
  padded-ties z [] (b ∷ t) (d ∷ u) e = tie_break-ties o z b d _ _ _ e (padded-ties z [] t u)
  padded-ties z (a ∷ s) [] [] e = ground (arith, padded-ties z s [] [], o.ties a z z, o.reflexive z)
  padded-ties z (a ∷ s) [] (d ∷ u) e = tie_break-ties o a z d _ _ _ e (padded-ties z s [] u)
  padded-ties z (a ∷ s) (b ∷ t) [] e = tie_break-ties o a b z _ _ _ e (padded-ties z s t [])
  padded-ties z (a ∷ s) (b ∷ t) (d ∷ u) e = tie_break-ties o a b d _ _ _ e (padded-ties z s t u)

  padded-transitive :
      (z : A) (s t u : List A)
      → padded c z s t ≡ Ordering.lt
      → padded c z t u ≡ Ordering.lt
      → padded c z s u ≡ Ordering.lt
  unfolding padded
  padded-transitive z [] [] u e f = f
  padded-transitive z [] (b ∷ t) [] e f =
      ground (arith, padded-transitive z [] t [], o.flips z b, o.reflexive z)
  padded-transitive z [] (b ∷ t) (d ∷ u) e f =
      tie_break-transitive o z b d _ _ _ e f (padded-transitive z [] t u)
  padded-transitive z (a ∷ s) [] [] e f = cc
  padded-transitive z (a ∷ s) [] (d ∷ u) e f =
      tie_break-transitive o a z d _ _ _ e f (padded-transitive z s [] u)
  padded-transitive z (a ∷ s) (b ∷ t) [] e f =
      tie_break-transitive o a b z _ _ _ e f (padded-transitive z s t [])
  padded-transitive z (a ∷ s) (b ∷ t) (d ∷ u) e f =
      tie_break-transitive o a b d _ _ _ e f (padded-transitive z s t u)

  pub padded-IsOrder : (z : A) → IsOrder (padded c z)
  padded-IsOrder z = record {
    reflexive = padded-reflexive z;
    flips = padded-flips z;
    ties = padded-ties z;
    transitive = padded-transitive z;
  }

  shorter_first-reflexive : (s : List A) → shorter_first c s s ≡ Ordering.eq
  unfolding shorter_first
  shorter_first-reflexive [] = refl
  shorter_first-reflexive (a ∷ s) = ground (arith, o.reflexive a, shorter_first-reflexive s)

  shorter_first-flips : (s t : List A) → shorter_first c t s ≡ swap (shorter_first c s t)
  unfolding shorter_first
  shorter_first-flips [] [] = refl
  shorter_first-flips [] (b ∷ t) = refl
  shorter_first-flips (a ∷ s) [] = refl
  shorter_first-flips (a ∷ s) (b ∷ t) = tie_break-flips o a b _ _ (shorter_first-flips s t)

  shorter_first-ties :
      (s t u : List A)
      → shorter_first c s t ≡ Ordering.eq
      → shorter_first c s u ≡ shorter_first c t u
  unfolding shorter_first
  shorter_first-ties [] [] u e = refl
  shorter_first-ties [] (b ∷ t) u e = cc
  shorter_first-ties (a ∷ s) [] u e = cc
  shorter_first-ties (a ∷ s) (b ∷ t) [] e = refl
  shorter_first-ties (a ∷ s) (b ∷ t) (d ∷ u) e =
      tie_break-ties o a b d _ _ _ e (shorter_first-ties s t u)

  shorter_first-transitive :
      (s t u : List A)
      → shorter_first c s t ≡ Ordering.lt
      → shorter_first c t u ≡ Ordering.lt
      → shorter_first c s u ≡ Ordering.lt
  unfolding shorter_first
  shorter_first-transitive [] [] u e f = cc
  shorter_first-transitive [] (b ∷ t) [] e f = cc
  shorter_first-transitive [] (b ∷ t) (d ∷ u) e f = refl
  shorter_first-transitive (a ∷ s) [] u e f = cc
  shorter_first-transitive (a ∷ s) (b ∷ t) [] e f = cc
  shorter_first-transitive (a ∷ s) (b ∷ t) (d ∷ u) e f =
      tie_break-transitive o a b d _ _ _ e f (shorter_first-transitive s t u)

  pub shorter_first-IsOrder : IsOrder (shorter_first c)
  shorter_first-IsOrder = record {
    reflexive = shorter_first-reflexive;
    flips = shorter_first-flips;
    ties = shorter_first-ties;
    transitive = shorter_first-transitive;
  }

compare_bytes-eq-shorter_first : (s t : Bytes) → compare_bytes s t ≡ shorter_first compare s t
unfolding compare_bytes shorter_first
compare_bytes-eq-shorter_first [] [] = refl
compare_bytes-eq-shorter_first [] (b ∷ t) = refl
compare_bytes-eq-shorter_first (a ∷ s) [] = refl
compare_bytes-eq-shorter_first (a ∷ s) (b ∷ t) = ground (arith, compare_bytes-eq-shorter_first s t)

pub compare_bytes-IsOrder : IsOrder compare_bytes
compare_bytes-IsOrder =
    rw (fun_ext (λ s. fun_ext (compare_bytes-eq-shorter_first s)))
      (shorter_first-IsOrder compare-IsOrder)

-- "At most", as the code tests it: `c <= 0`.
abbrev pub at_most : Ordering → Bool
at_most Ordering.gt = false
at_most _ = true

module _ {ℓ} {A : Type ℓ} {c : A → A → Ordering} (o : IsOrder c) where
  pub at_most_trans :
      (a b d : A) → at_most (c a b) ≡ true → at_most (c b d) ≡ true → at_most (c a d) ≡ true
  at_most_trans a b d h k =
      ground (
        arith,
        o.ties a b d,
        o.ties b d a,
        o.flips a b,
        o.flips a d,
        o.flips b d,
        o.transitive a b d,
      )

  pub at_most-total : (a b : A) → at_most (c a b) ≡ false → at_most (c b a) ≡ true
  at_most-total a b h = ground (arith, o.flips a b)
