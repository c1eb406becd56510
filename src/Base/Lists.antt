-- ===== src/Base/Lists.antt =====
-- Lists: membership and predicates by recursion, filters that run, and insertion sort.
use Prim.Native.Nat.{ℕ, suc, ◌+◌, ◌≤◌}
use mathlib.Core.Path.{◌≡◌, refl, ap}
use mathlib.Core.Logic.{◌⊎◌, inl, inr, ◌↔◌, ⊎_elim}
use mathlib.Core.Bool.{Bool, true, false, ◌||◌}
use mathlib.Core.Option.{Option, none, some}
use mathlib.Core.List.{List, [], ◌∷◌, ◌++◌, map}
use native.Mathlib.Omega.{arith}
use tillit.Base.Tests.{if◌then◌else◌, Bool-cases}

module _ {ℓ} {A : Type ℓ} where
  abbrev pub length : List A → ℕ
  length [] = 0
  length (x ∷ xs) = suc (length xs)

  pub length-append : (xs ys : List A) → length (xs ++ ys) ≡ length xs + length ys
  length-append [] ys = omega arith
  length-append (x ∷ xs) ys = omega (arith, length-append xs ys)

  -- The items that pass a test, in their order.
  unfoldable pub keep : (A → Bool) → List A → List A
  keep p [] = []
  keep p (x ∷ xs) = if p x then x ∷ keep p xs else keep p xs

  unfoldable pub any : (A → Bool) → List A → Bool
  any p [] = false
  any p (x ∷ xs) = p x || any p xs

  -- The first item that passes a test.
  unfoldable pub first : (A → Bool) → List A → Option A
  first p [] = none
  first p (x ∷ xs) = if p x then some x else first p xs

  -- An item occurs in the list.
  pub data In (a : A) : List A → Type ℓ where
    here : {x : A} {xs : List A} → a ≡ x → In a (x ∷ xs)
    there : {x : A} {xs : List A} → In a xs → In a (x ∷ xs)

  pub In-cons : (a x : A) (xs : List A) → In a (x ∷ xs) → (a ≡ x) ⊎ In a xs
  In-cons a x xs (here e) = inl e
  In-cons a x xs (there m) = inr m

  pub not-In-nil : (a : A) → ¬ In a []
  not-In-nil a m = elim m [ ]

  pub In-append_left : {a : A} {xs : List A} (ys : List A) → In a xs → In a (xs ++ ys)
  In-append_left ys (here e) = here e
  In-append_left ys (there m) = there (In-append_left ys m)

  pub In-append_right : {a : A} (xs : List A) {ys : List A} → In a ys → In a (xs ++ ys)
  In-append_right [] m = m
  In-append_right (x ∷ xs) m = there (In-append_right xs m)

  pub In-append_cases : {a : A} (xs ys : List A) → In a (xs ++ ys) → In a xs ⊎ In a ys
  In-append_cases [] ys m = inr m
  In-append_cases (x ∷ xs) ys (here e) = inl (here e)
  In-append_cases (x ∷ xs) ys (there m) = ⊎_elim (λ l. inl (there l)) inr (In-append_cases xs ys m)

  In-keep : (p : A → Bool) (a : A) (xs : List A) → In a (keep p xs) → In a xs × (p a ≡ true)
  unfolding keep
  In-keep p a [] m = elim m [ ]
  In-keep p a (x ∷ xs) m = elim (Bool-cases (p x)) [
    | inl e ↦ elim (In-cons a x (keep p xs) (rw (e, keep) at m)) [
      | inl same ↦ (here same, rw same e)
      | inr rest ↦ let r = In-keep p a xs rest in (there r.0, r.1)
    ]
    | inr e ↦ let r = In-keep p a xs (rw (e, keep) at m) in (there r.0, r.1)
  ]

  keep-In : (p : A → Bool) (a : A) (xs : List A) → In a xs → p a ≡ true → In a (keep p xs)
  unfolding keep
  keep-In p a [] m h = elim m [ ]
  keep-In p a (x ∷ xs) (here e) h = rw (← e, h, keep) (here refl)
  keep-In p a (x ∷ xs) (there m) h = elim (Bool-cases (p x)) [
    | inl t ↦ rw (t, keep) (there (keep-In p a xs m h))
    | inr t ↦ rw (t, keep) (keep-In p a xs m h)
  ]

  pub In-keep_iff :
      (p : A → Bool) (a : A) (xs : List A) → In a (keep p xs) ↔ (In a xs × (p a ≡ true))
  In-keep_iff p a xs = (In-keep p a xs, λ h. keep-In p a xs h.0 h.1)

  pub length-keep : (p : A → Bool) (xs : List A) → length (keep p xs) ≤ length xs
  unfolding keep
  length-keep p [] = omega arith
  length-keep p (x ∷ xs) = ground (arith, length-keep p xs)

  any-In : (p : A → Bool) (xs : List A) → any p xs ≡ true → (a : A) × In a xs × (p a ≡ true)
  unfolding any
  any-In p [] h = absurd (ground arith)
  any-In p (x ∷ xs) h = elim (Bool-cases (p x)) [
    | inl e ↦ (x, here refl, e)
    | inr e ↦ let (a, m, q) = any-In p xs (rw (e, any) at h) in (a, there m, q)
  ]

  In-any : (p : A → Bool) {a : A} (xs : List A) → In a xs → p a ≡ true → any p xs ≡ true
  unfolding any
  In-any p [] m h = elim m [ ]
  In-any p (x ∷ xs) (here e) h = rw (← e, h)
  In-any p (x ∷ xs) (there m) h = ground (arith, In-any p xs m h)

  pub any_iff :
      (p : A → Bool) (xs : List A) → (any p xs ≡ true) ↔ ((a : A) × In a xs × (p a ≡ true))
  any_iff p xs = (any-In p xs, λ (a, m, h). In-any p xs m h)

-- A predicate of every item.
abbrev pub All {ℓ κ} : {A : Type ℓ} → (A → Type κ) → List A → Type κ
All P [] = Unit
All P (x ∷ xs) = P x × All P xs

pub All-append {ℓ κ} :
    {A : Type ℓ} (P : A → Type κ) (xs ys : List A) → All P xs → All P ys → All P (xs ++ ys)
All-append P [] ys hx hy = hy
All-append P (x ∷ xs) ys hx hy = (hx.0, All-append P xs ys hx.1 hy)

pub All-In {ℓ κ} : {A : Type ℓ} (P : A → Type κ) {a : A} (xs : List A) → All P xs → In a xs → P a
All-In P [] h m = elim m [ ]
All-In P (x ∷ xs) h (here e) = rw e h.0
All-In P (x ∷ xs) h (there m) = All-In P xs h.1 m

pub In-map {ℓ κ} :
    {A : Type ℓ} {B : Type κ} (f : A → B) {b : B} (xs : List A)
    → In b (map f xs)
    → (a : A) × In a xs × (b ≡ f a)
In-map f [] m = elim m [ ]
In-map f (x ∷ xs) (here e) = (x, here refl, e)
In-map f (x ∷ xs) (there m) = let (a, n, e) = In-map f xs m in (a, there n, e)

pub map-In {ℓ κ} :
    {A : Type ℓ} {B : Type κ} (f : A → B) {a : A} (xs : List A) → In a xs → In (f a) (map f xs)
map-In f [] m = elim m [ ]
map-In f (x ∷ xs) (here e) = here (ap f e)
map-In f (x ∷ xs) (there m) = there (map-In f xs m)
