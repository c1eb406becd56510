-- ===== src/Server/Database/Rows.antt =====
-- db/sqliteconnector/signature.go: what inserting and marking do to the rows.
use tillit.Base.{
  Bytes, ◌==◌, ==_iff, ==_refl, ℕ, Bool, true, false, ◌||◌, none, some, List, [], ◌∷◌, ◌++◌, any,
  any_iff, first, In, here, there, In-cons, In-append_left, In-append_cases, ◌≡◌, refl, ◌≢◌, ◌⊎◌,
  inl, inr, arith, Bool-cases,
}
use tillit.Models.Signature.{Signature}
use tillit.Localstore.{to_seconds}
use tillit.Server.Database.{
  Database, get_signature, create_signature, mark_signature, revoke_signature,
}

-- The row that a new signature becomes.
abbrev pub stored : Signature → Signature
stored s = record s { uploaded_at = to_seconds s.uploaded_at; revoked = false; revoked_at = none }

abbrev pub marked : ℕ → Signature → Signature
marked t r = record r { revoked = true; revoked_at = some (to_seconds t) }

abbrev pub has_id : Bytes → List Signature → Bool
has_id id rows = any (λ r. r.id == id) rows

-- The identifiers of the rows are all different, as those of a primary key are.
abbrev pub HasUniqueIds : List Signature → Type 0
HasUniqueIds [] = Unit
HasUniqueIds (r ∷ rows) = (has_id r.id rows ≡ false) × HasUniqueIds rows

pub In-create_signature :
    (d : Database) (s r : Signature)
    → In r (create_signature d s).signatures
    → In r d.signatures ⊎ (r ≡ stored s)
unfolding create_signature
In-create_signature d s r m = elim (Bool-cases (has_id s.id d.signatures)) [
  | inl e ↦ inl (rw (e, create_signature) at m)
  | inr e ↦ elim (In-append_cases d.signatures _ (rw (e, create_signature) at m)) [
    | inl old ↦ inl old
    | inr new ↦ elim (In-cons _ _ _ new) [ inl same ↦ inr same | inr nothing ↦ elim nothing [ ] ]
  ]
]

pub create_signature-In :
    (d : Database) (s r : Signature) → In r d.signatures → In r (create_signature d s).signatures
unfolding create_signature
create_signature-In d s r m = elim (Bool-cases (has_id s.id d.signatures)) [
  | inl e ↦ rw (e, create_signature) m
  | inr e ↦ rw (e, create_signature) (In-append_left _ m)
]

pub In-mark_signature :
    (id : Bytes) (t : ℕ) (rows : List Signature) (r : Signature)
    → In r (mark_signature id t rows)
    → (q : Signature) × In q rows × ((r ≡ q) ⊎ ((q.id ≡ id) × (r ≡ marked t q)))
unfolding mark_signature
In-mark_signature id t [] r m = elim m [ ]
In-mark_signature id t (x ∷ rows) r m = elim (In-cons r _ _ m) [
  | inl same ↦ elim (Bool-cases (x.id == id)) [
    | inl e ↦ (x, here refl, inr ((==_iff _ _).0 e, ground arith))
    | inr e ↦ (x, here refl, inl (ground arith))
  ]
  | inr rest ↦ let (q, n, h) = In-mark_signature id t rows r rest in (q, there n, h)
]

pub mark_signature-In :
    (id : Bytes) (t : ℕ) (rows : List Signature) (r : Signature)
    → In r rows
    → r.id ≢ id
    → In r (mark_signature id t rows)
unfolding mark_signature
mark_signature-In id t [] r m h = elim m [ ]
mark_signature-In id t (x ∷ rows) r m h = elim (In-cons r x rows m) [
  | inl same ↦ here (ground (arith, ==_iff x.id id))
  | inr rest ↦ there (mark_signature-In id t rows r rest h)
]

has_id-mark_signature :
    (id : Bytes) (t : ℕ) (rows : List Signature) (k : Bytes)
    → has_id k (mark_signature id t rows) ≡ has_id k rows
unfolding mark_signature any
has_id-mark_signature id t [] k = refl
has_id-mark_signature id t (x ∷ rows) k = ground (arith, has_id-mark_signature id t rows k)

has_id-append :
    (rows : List Signature) (s : Signature) (k : Bytes)
    → has_id k (rows ++ s ∷ []) ≡ (has_id k rows || s.id == k)
unfolding any
has_id-append [] s k = ground arith
has_id-append (x ∷ rows) s k = ground (arith, has_id-append rows s k)

append-HasUniqueIds :
    (rows : List Signature) (s : Signature)
    → HasUniqueIds rows
    → has_id s.id rows ≡ false
    → HasUniqueIds (rows ++ s ∷ [])
unfolding any
append-HasUniqueIds [] s u h = (refl, tt)
append-HasUniqueIds (x ∷ rows) s u h = (
  ground (arith, has_id-append rows s x.id, ==_iff x.id s.id, ==_iff s.id x.id),
  append-HasUniqueIds rows s u.1 (ground arith),
)

mark_signature-HasUniqueIds :
    (id : Bytes) (t : ℕ) (rows : List Signature)
    → HasUniqueIds rows
    → HasUniqueIds (mark_signature id t rows)
unfolding mark_signature
mark_signature-HasUniqueIds id t [] u = tt
mark_signature-HasUniqueIds id t (x ∷ rows) u = (
  ground (arith, has_id-mark_signature id t rows x.id),
  mark_signature-HasUniqueIds id t rows u.1,
)

pub create_signature-HasUniqueIds :
    (d : Database) (s : Signature)
    → HasUniqueIds d.signatures
    → HasUniqueIds (create_signature d s).signatures
unfolding create_signature
create_signature-HasUniqueIds d s u = elim (Bool-cases (has_id s.id d.signatures)) [
  | inl e ↦ rw (e, create_signature) u
  | inr e ↦ rw (e, create_signature) (append-HasUniqueIds d.signatures (stored s) u e)
]

pub revoke_signature-HasUniqueIds :
    (d : Database) (id : Bytes) (t : ℕ)
    → HasUniqueIds d.signatures
    → HasUniqueIds (revoke_signature d id t).signatures
unfolding revoke_signature
revoke_signature-HasUniqueIds d id t u = mark_signature-HasUniqueIds id t d.signatures u

-- A row that has an identifier is the one that is found by it.
first_unique :
    (rows : List Signature) (r : Signature) (id : Bytes)
    → HasUniqueIds rows
    → In r rows
    → r.id ≡ id
    → first (λ q. q.id == id) rows ≡ some r
unfolding first any
first_unique [] r id u m e = elim m [ ]
first_unique (x ∷ rows) r id u m e = elim (In-cons r x rows m) [
  | inl same ↦ ground (arith, ==_iff x.id id)
  | inr rest ↦
      let found : has_id r.id rows ≡ true = In-has_id rows r rest in
      ground (arith, ==_iff x.id id, first_unique rows r id u.1 rest e, found)
]
  where
    In-has_id : (qs : List Signature) (q : Signature) → In q qs → has_id q.id qs ≡ true
    In-has_id qs q n = (any_iff (λ (x : Signature). x.id == q.id) qs).1 (q, n, ==_refl q.id)

pub get_signature_unique :
    (d : Database) (r : Signature)
    → HasUniqueIds d.signatures
    → In r d.signatures
    → get_signature d r.id ≡ some r
unfolding get_signature
get_signature_unique d r u m = first_unique d.signatures r r.id u m refl
