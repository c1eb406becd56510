-- ===== src/Base/Sort.antt =====
-- A stable sort by insertion. It stands for `sort.Slice`, which sorts up to twelve items so and
-- leaves the order of ties open, and for ORDER BY.
use Prim.Native.Nat.{suc}
use mathlib.Core.Path.{◌≡◌, refl}
use mathlib.Core.Logic.{◌⊎◌, inl, inr, ◌↔◌}
use mathlib.Core.Bool.{Bool, true, false}
use mathlib.Core.List.{List, [], ◌∷◌}
use native.Mathlib.Omega.{arith}
use tillit.Base.Tests.{if◌then◌else◌, Bool-cases}
use tillit.Base.Lists.{In, here, there, In-cons, length}

module _ {ℓ} {A : Type ℓ} (less : A → A → Bool) where
  unfoldable pub insert : A → List A → List A
  insert x [] = x ∷ []
  insert x (y ∷ ys) = if less y x then y ∷ insert x ys else x ∷ y ∷ ys

  unfoldable pub sort : List A → List A
  unfolding insert
  sort [] = []
  sort (x ∷ xs) = insert x (sort xs)

  -- No item is less than one that stands before it.
  pub data IsSorted : List A → Type ℓ where
    nil : IsSorted []
    one : (x : A) → IsSorted (x ∷ [])
    more : {x y : A} {xs : List A} → less y x ≡ false → IsSorted (y ∷ xs) → IsSorted (x ∷ y ∷ xs)

  IsSorted-tail : {x : A} {xs : List A} → IsSorted (x ∷ xs) → IsSorted xs
  IsSorted-tail (one x) = nil
  IsSorted-tail (more h s) = s

  In-insert : (a x : A) (xs : List A) → In a (insert x xs) ↔ ((a ≡ x) ⊎ In a xs)
  unfolding insert
  In-insert a x [] = (In-cons a x [], λ h. elim h [ inl e ↦ here e | inr m ↦ there m ])
  In-insert a x (y ∷ ys) = elim (Bool-cases (less y x)) [
    | inl t ↦
        rw (t, insert)
          (
            λ m. elim (In-cons _ _ _ m) [
              | inl e ↦ inr (here e)
              | inr n ↦ elim ((In-insert a x ys).0 n) [ inl e ↦ inl e | inr k ↦ inr (there k) ]
            ],
            λ h. elim h [
              | inl e ↦ there ((In-insert a x ys).1 (inl e))
              | inr m ↦ elim (In-cons _ _ _ m) [
                | inl e ↦ here e
                | inr n ↦ there ((In-insert a x ys).1 (inr n))
              ]
            ],
          )
    | inr t ↦
        rw (t, insert) (In-cons a x (y ∷ ys), λ h. elim h [ inl e ↦ here e | inr m ↦ there m ])
  ]

  length-insert : (x : A) (xs : List A) → length (insert x xs) ≡ suc (length xs)
  unfolding insert
  length-insert x [] = refl
  length-insert x (y ∷ ys) = ground (arith, length-insert x ys)

  pub length-sort : (xs : List A) → length (sort xs) ≡ length xs
  unfolding sort
  length-sort [] = refl
  length-sort (x ∷ xs) = omega (arith, length-insert x (sort xs), length-sort xs)

  -- Sorting keeps the items.
  pub In-sort_iff : (a : A) (xs : List A) → In a (sort xs) ↔ In a xs
  unfolding sort
  In-sort_iff a [] = (λ m. m, λ m. m)
  In-sort_iff a (x ∷ xs) = (
    λ m. elim ((In-insert a x (sort xs)).0 m) [
      | inl e ↦ here e
      | inr n ↦ there ((In-sort_iff a xs).0 n)
    ],
    λ m. elim (In-cons a x xs m) [
      | inl e ↦ (In-insert a x (sort xs)).1 (inl e)
      | inr n ↦ (In-insert a x (sort xs)).1 (inr ((In-sort_iff a xs).1 n))
    ],
  )

  module _ (asym : (x y : A) → less x y ≡ true → less y x ≡ false) where
    -- A head that is not above the inserted item, nor above the old head, stays the head.
    cons-insert :
        (x y : A) (zs : List A)
        → less x y ≡ false
        → IsSorted (y ∷ zs)
        → IsSorted (insert x zs)
        → IsSorted (y ∷ insert x zs)
    unfolding insert
    cons-insert x y [] h s i = more h (one x)
    cons-insert x y (z ∷ zs) h (more k s) i = elim (Bool-cases (less z x)) [
      | inl t ↦ rw (t, insert) (more k (rw (t, insert) at i))
      | inr t ↦ rw (t, insert) (more h (more t s))
    ]

    insert-IsSorted : (x : A) (xs : List A) → IsSorted xs → IsSorted (insert x xs)
    unfolding insert
    insert-IsSorted x [] s = one x
    insert-IsSorted x (y ∷ ys) s = elim (Bool-cases (less y x)) [
      | inl t ↦
          rw (t, insert)
            (cons-insert x y ys (asym y x t) s (insert-IsSorted x ys (IsSorted-tail s)))
      | inr t ↦ rw (t, insert) (more t s)
    ]

    -- The result is in order.
    pub sort-IsSorted : (xs : List A) → IsSorted (sort xs)
    unfolding sort
    sort-IsSorted [] = nil
    sort-IsSorted (x ∷ xs) = insert-IsSorted x (sort xs) (sort-IsSorted xs)
