-- ===== src/Commands/Trust/Deletes.antt =====
-- cmd/tillit/commands/delete.go: what a deletion takes away.
use tillit.Base.{
  Bytes, ◌==◌, ==_iff, Bool, true, false, not, none, some, List, [], ◌∷◌, keep, first, In, here,
  there, In-keep_iff, any_iff, ◌≡◌, ◌≢◌, refl, ◌∙◌, ◌↔◌, ◌⊎◌, inl, inr, arith, Bool-cases,
  Option-cases,
}
use tillit.Localstore.{
  Store, CachedSignature, item_signature, get_cached_signature, has_been_pushed,
  delete_cached_signature,
}
use tillit.Localstore.Listing.{lookup_cached_signature, the_only}
use tillit.Commands.Trust.{run_delete}

-- A signature that is looked up is cached.
the_only-In :
    (rows : List CachedSignature) (r : CachedSignature) → the_only rows ≡ some r → In r rows
the_only-In [] r h = absurd (ground arith)
the_only-In (q ∷ []) r h = here (cc (h))
the_only-In (q ∷ p ∷ rows) r h = absurd (ground arith)

first-In :
    (p : CachedSignature → Bool) (rows : List CachedSignature) (r : CachedSignature)
    → first p rows ≡ some r
    → In r rows
unfolding first
first-In p [] r h = absurd (ground arith)
first-In p (q ∷ rows) r h = elim (Bool-cases (p q)) [
  | inl e ↦ here (cc (rw (first, e) at h))
  | inr e ↦ there (first-In p rows r (rw (first, e) at h))
]

lookup-In :
    (like : Bytes → Bytes → Bool) (s : Store) (id : Bytes) (r : CachedSignature)
    → lookup_cached_signature like s id ≡ some r
    → In r s.signatures
unfolding lookup_cached_signature get_cached_signature
lookup-In like s id r h = elim (Bool-cases (id == [])) [
  | inl e ↦ absurd (ground arith)
  | inr e ↦ elim (Option-cases (get_cached_signature s id)) [
    | inl n ↦
        ((In-keep_iff (λ q. like id q.id) r s.signatures).0
          (the_only-In _ r (rw (lookup_cached_signature, e, n) at h))).0
    | inr (q, f) ↦ first-In _ s.signatures r (f ∙ rw (lookup_cached_signature, e, f) at h)
  ]
]

abbrev without : Store → Bytes → Store
without s id = record s { signatures = keep (λ q. not (q.id == id)) s.signatures }

In-without :
    (s : Store) (id : Bytes) (q : CachedSignature)
    → In q (without s id).signatures ↔ (In q s.signatures × (q.id ≢ id))
In-without s id q =
    let iff = In-keep_iff (λ (q : CachedSignature). not (q.id == id)) q s.signatures in
    (
      (λ m. ((iff.0 m).0, λ e. differs (q.id == id) ((==_iff q.id id).1 e) (iff.0 m).1)),
      (λ (m, d). iff.1 (m, keeps d)),
    )
  where
    differs : (b : Bool) → b ≡ true → not b ≢ true
    differs b h n = absurd (ground arith)

    keeps : q.id ≢ id → not (q.id == id) ≡ true
    keeps d = elim (Bool-cases (q.id == id)) [
      | inl e ↦ absurd (d ((==_iff q.id id).0 e))
      | inr e ↦ rw (e) refl
    ]

lookup_empty :
    (like : Bytes → Bytes → Bool) (s : Store) (id : Bytes) (r : CachedSignature)
    → (id == []) ≡ true
    → lookup_cached_signature like s id ≢ some r
unfolding lookup_cached_signature
lookup_empty like s id r e h = absurd (ground arith)

run_delete_found :
    (like : Bytes → Bytes → Bool) (s : Store) (id : Bytes) (r : CachedSignature)
    → lookup_cached_signature like s id ≡ some r
    → has_been_pushed s r.id item_signature ≡ false
    → run_delete like s id ≡ some (without s r.id)
unfolding run_delete delete_cached_signature
run_delete_found like s id r f n = elim (Bool-cases (id == [])) [
  | inl e ↦ absurd (lookup_empty like s id r e f)
  | inr e ↦
      let there_is =
        (any_iff (λ (q : CachedSignature). q.id == r.id) s.signatures).1
          (r, lookup-In like s id r f, (==_iff r.id r.id).1 refl) in
      rw (run_delete, e, f, n, delete_cached_signature, there_is) refl
]

run_delete_refused :
    (like : Bytes → Bytes → Bool) (s : Store) (id : Bytes)
    → (lookup_cached_signature like s id ≡ none)
      ⊎ ((r : CachedSignature) × (lookup_cached_signature like s id ≡ some r)
          × (has_been_pushed s r.id item_signature ≡ true))
    → (s' : Store) → run_delete like s id ≢ some s'
unfolding run_delete
run_delete_refused like s id (inl f) s' h = elim (Bool-cases (id == [])) [
  | inl e ↦ absurd (ground arith)
  | inr e ↦ absurd (ground arith)
]
run_delete_refused like s id (inr (r, f, pushed)) s' h = elim (Bool-cases (id == [])) [
  | inl e ↦ absurd (ground arith)
  | inr e ↦ absurd (ground arith)
]

-- What a deletion does. It returns exactly for a signature that is found and that was pushed to no
-- server. Then the rows of its id are gone, and all other rows and all else of the store are kept.
pub run_delete-Deletes :
    (like : Bytes → Bytes → Bool) (s : Store) (id : Bytes)
    → ((s' : Store)
        → run_delete like s id ≡ some s'
        → (r : CachedSignature) × (lookup_cached_signature like s id ≡ some r)
          × (has_been_pushed s r.id item_signature ≡ false)
          × (s' ≡ record s { signatures = s'.signatures })
          × ((q : CachedSignature) → In q s'.signatures ↔ (In q s.signatures × (q.id ≢ r.id))))
      × ((r : CachedSignature)
          → lookup_cached_signature like s id ≡ some r
          → has_been_pushed s r.id item_signature ≡ false
          → (s' : Store) × (run_delete like s id ≡ some s'))
run_delete-Deletes like s id =
    (deletes, λ r f n. (without s r.id, run_delete_found like s id r f n))
  where
    deletes :
        (s' : Store)
        → run_delete like s id ≡ some s'
        → (r : CachedSignature) × (lookup_cached_signature like s id ≡ some r)
          × (has_been_pushed s r.id item_signature ≡ false)
          × (s' ≡ record s { signatures = s'.signatures })
          × ((q : CachedSignature) → In q s'.signatures ↔ (In q s.signatures × (q.id ≢ r.id)))
    deletes s' h = elim (Option-cases (lookup_cached_signature like s id)) [
      | inl none_found ↦ absurd (run_delete_refused like s id (inl none_found) s' h)
      | inr (r, f) ↦ elim (Bool-cases (has_been_pushed s r.id item_signature)) [
        | inl pushed ↦ absurd (run_delete_refused like s id (inr (r, f, pushed)) s' h)
        | inr n ↦
            let same : s' ≡ without s r.id = cc (h, run_delete_found like s id r f n) in
            (r, f, n, rw (same) refl, λ q. rw (same) (In-without s r.id q))
      ]
    ]
