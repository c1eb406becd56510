-- ===== src/Base/Keyed.antt =====
-- Tables with a key: what is found by a key after rows are added, one by one, or sorted.
use mathlib.Core.Path.{◌≡◌, refl, ◌∙◌}
use mathlib.Core.Logic.{inl, inr}
use mathlib.Core.Bool.{Bool, true, false, ◌||◌}
use mathlib.Core.Option.{Option, none, some}
use mathlib.Core.List.{List, [], ◌∷◌, ◌++◌}
use native.Mathlib.Omega.{arith}
use tillit.Base.Tests.{if◌then◌else◌, Bool-cases}
use tillit.Base.Text.{Bytes, ◌==◌, ==_iff}
use tillit.Base.Lists.{any, first, In, here, there, In-cons}
use tillit.Base.Sort.{insert, sort}

-- The first of two that is there.
abbrev pub or_else {ℓ} : {A : Type ℓ} → Option A → Option A → Option A
or_else none o = o
or_else (some a) o = some a

pub or_else-none {ℓ} : {A : Type ℓ} (o : Option A) → o ≡ or_else o none
or_else-none none = refl
or_else-none (some a) = refl

-- The form that a row is stored in.
abbrev pub as_stored {ℓ} : {A : Type ℓ} → (A → A) → Option A → Option A
as_stored stored none = none
as_stored stored (some a) = some (stored a)

pub as_stored_id {ℓ} : {A : Type ℓ} (o : Option A) → as_stored (λ (a : A). a) o ≡ o
as_stored_id none = refl
as_stored_id (some a) = refl

-- One operation after the other.
unfoldable pub each {ℓ κ} : {S : Type ℓ} {A : Type κ} → (S → A → S) → S → List A → S
each step s [] = s
each step s (r ∷ rows) = each step (step s r) rows

module _ {ℓ} {A : Type ℓ} (p : A → Bool) where
  pub first-append : (xs ys : List A) → first p (xs ++ ys) ≡ or_else (first p xs) (first p ys)
  unfolding first
  first-append [] ys = refl
  first-append (x ∷ xs) ys = ground (arith, first-append xs ys)

  pub first_of_none : (xs : List A) → any p xs ≡ false → first p xs ≡ none
  unfolding first any
  first_of_none [] h = refl
  first_of_none (x ∷ xs) h = ground (arith, first_of_none xs)

  pub first_of_any : (xs : List A) → any p xs ≡ true → (a : A) × (first p xs ≡ some a)
  unfolding first any
  first_of_any [] h = absurd (ground arith)
  first_of_any (x ∷ xs) h = elim (Bool-cases (p x)) [
    | inl e ↦ (x, ground arith)
    | inr e ↦ rw (first, e) (first_of_any xs (ground arith))
  ]

module _ {ℓ} {A : Type ℓ} (key : A → Bytes) where
  abbrev pub find_by : Bytes → List A → Option A
  find_by k rows = first (λ r. key r == k) rows

  abbrev pub has_by : Bytes → List A → Bool
  has_by k rows = any (λ r. key r == k) rows

  -- The keys of the rows are all different, as those of a primary key are.
  abbrev pub HasDistinct : List A → Type 0
  HasDistinct [] = Unit
  HasDistinct (r ∷ rows) = (has_by (key r) rows ≡ false) × HasDistinct rows

  has_by-find_by : (k : Bytes) (rows : List A) → has_by k rows ≡ false → find_by k rows ≡ none
  has_by-find_by k rows h = first_of_none (λ r. key r == k) rows h

  module _ (less : A → A → Bool) where
    find_by-insert :
        (k : Bytes) (x : A) (rows : List A)
        → has_by (key x) rows ≡ false
        → find_by k (insert less x rows) ≡ (if key x == k then some x else find_by k rows)
    unfolding insert first any
    find_by-insert k x [] h = refl
    find_by-insert k x (y ∷ rows) h =
        ground (
          arith,
          find_by-insert k x rows,
          ==_iff (key x) k,
          ==_iff (key y) k,
          ==_iff (key y) (key x),
        )

    has_by-insert :
        (k : Bytes) (x : A) (rows : List A)
        → has_by k (insert less x rows) ≡ (key x == k || has_by k rows)
    unfolding insert any
    has_by-insert k x [] = refl
    has_by-insert k x (y ∷ rows) = ground (arith, has_by-insert k x rows)

    has_by-sort : (k : Bytes) (rows : List A) → has_by k (sort less rows) ≡ has_by k rows
    unfolding sort any
    has_by-sort k [] = refl
    has_by-sort k (x ∷ rows) =
        ground (arith, has_by-insert k x (sort less rows), has_by-sort k rows)

    -- Sorting rows of different keys does not change what is found by a key.
    pub find_by-sort :
        (k : Bytes) (rows : List A) → HasDistinct rows → find_by k (sort less rows) ≡ find_by k rows
    unfolding sort first
    find_by-sort k [] u = refl
    find_by-sort k (x ∷ rows) u =
        ground (
          arith,
          find_by-insert k x (sort less rows),
          has_by-sort (key x) rows,
          find_by-sort k rows,
        )

  -- A table that keeps the first row of each key, in the form `stored`: what is found in it after
  -- many rows. `get` looks up one key.
  module _ {κ} {S : Type κ} (get : S → Option A) (stored : A → A) (k : Bytes) (step : S → A → S)
      (get-step : (s : S) (r : A)
        → get (step s r) ≡ or_else (get s) (if key r == k then some (stored r) else none)) where
    pub get-each :
        (s : S) (rows : List A)
        → get (each step s rows) ≡ or_else (get s) (as_stored stored (find_by k rows))
    unfolding each first
    get-each s [] = ground arith
    get-each s (r ∷ rows) = ground (arith, get-each (step s r) rows, get-step s r)

  -- Adding a row, in the form `stored`, unless there is one of its key.
  module _ (stored : A → A) (same_key : (r : A) → key (stored r) ≡ key r) where
    pub find_by-add :
        (k : Bytes) (rows : List A) (r : A)
        → find_by k (if has_by (key r) rows then rows else rows ++ stored r ∷ [])
          ≡ or_else (find_by k rows) (if key r == k then some (stored r) else none)
    unfolding first
    find_by-add k rows r = elim (Bool-cases (has_by (key r) rows)) [
      | inl e ↦
          let (q, f) = first_of_any (λ x. key x == key r) rows e in
          elim (Bool-cases (key r == k)) [
            | inl t ↦
                let same : key r ≡ k = (==_iff (key r) k).0 t in
                let g : find_by k rows ≡ some q = rw (← same) f in rw (e, g) refl
            | inr t ↦ rw (e, t) (or_else-none (find_by k rows))
          ]
      | inr e ↦ rw (e, first-append (λ x. key x == k) rows (stored r ∷ []), same_key r) refl
    ]

-- At most one item passes the test.
abbrev pub IsOnce {ℓ} : {A : Type ℓ} → (A → Bool) → List A → Type 0
IsOnce p [] = Unit
IsOnce p (r ∷ rows) = (p r ≡ true → any p rows ≡ false) × IsOnce p rows

-- A table that overwrites: what a lookup finds in it after many rows, of which at most one is looked
-- for, is that row in the form `stored`.
pub get-each_over {ℓ κ} :
    {A : Type ℓ} {S : Type κ} (p : A → Bool) (get : S → Option A) (stored : A → A)
    (step : S → A → S)
    → ((s : S) (r : A) → get (step s r) ≡ (if p r then some (stored r) else get s))
    → (s : S) (rows : List A) → IsOnce p rows
    → get (each step s rows) ≡ or_else (as_stored stored (first p rows)) (get s)
unfolding each first
get-each_over p get stored step h s [] u = refl
get-each_over p get stored step h s (r ∷ rows) (only, u) =
    get-each_over p get stored step h (step s r) rows u ∙ elim (Bool-cases (p r)) [
      | inl e ↦ rw (h s r, first_of_none p rows (only e), e) refl
      | inr e ↦ rw (h s r, e) refl
    ]

-- What the steps do not change.
pub each-field {ℓ κ μ} :
    {S : Type ℓ} {A : Type κ} {B : Type μ} (step : S → A → S) (f : S → B)
    → ((s : S) (r : A) → f (step s r) ≡ f s)
    → (s : S) (rows : List A) → f (each step s rows) ≡ f s
unfolding each
each-field step f h s [] = refl
each-field step f h s (r ∷ rows) = each-field step f h (step s r) rows ∙ h s r

-- What every step keeps, holds at the end.
pub each_keeps {ℓ κ μ} :
    {S : Type ℓ} {A : Type κ} (step : S → A → S) (P : S → Type μ) (rows : List A)
    → ((s : S) (r : A) → In r rows → P s → P (step s r))
    → (s : S) → P s
    → P (each step s rows)
unfolding each
each_keeps step P [] h s p = p
each_keeps step P (r ∷ rows) h s p =
    each_keeps step P rows (λ t q i. h t q (there i)) (step s r) (h s r (here refl) p)

-- What the step of each row reaches and the others keep, holds of all rows at the end.
pub each_reaches {ℓ κ μ} :
    {S : Type ℓ} {A : Type κ} (step : S → A → S) (P : A → S → Type μ) (rows : List A)
    → ((s : S) (r : A) → P r (step s r))
    → ((s : S) (r q : A) → P q s → P q (step s r))
    → (s : S) (q : A) → In q rows
    → P q (each step s rows)
unfolding each
each_reaches step P [] reach keeps s q i = elim i [ ]
each_reaches step P (r ∷ rows) reach keeps s q i = elim (In-cons q r rows i) [
  | inl e ↦ each_keeps step (P q) rows (λ t x _. keeps t x q) (step s r) (rw (e) (reach s r))
  | inr rest ↦ each_reaches step P rows reach keeps (step s r) q rest
]
