-- ===== src/Localstore/Revocation/Derived.antt =====
-- localstore/cache.go: when a cached signature counts as revoked.
use tillit.Base.{
  Bytes, ◌==◌, ==_iff, ℕ, Bool, true, Option, some, List, [], ◌∷◌, ◌++◌, any, first, In, here,
  there, In-cons, In-append_left, In-keep_iff, In-sort_iff, ◌≡◌, refl, ◌≢◌, ◌↔◌, inl, inr, arith,
  Bool-cases,
}
use tillit.Localstore.{
  CachedSignature, Store, save_cached_signature, get_cached_signature,
  get_cached_signatures_by_signer,
}
use tillit.Localstore.Revocation.{
  Kind, is_revocation_for, find_revocation, is_cached_signature_revoked,
}

In-save_cached_signature :
    (s : Store) (n r : CachedSignature)
    → In r s.signatures
    → In r (save_cached_signature s n).signatures
unfolding save_cached_signature
In-save_cached_signature s n r m =
    elim (Bool-cases (any (λ (q : CachedSignature). q.id == n.id) s.signatures)) [
      | inl e ↦ rw (e, save_cached_signature) m
      | inr e ↦ rw (e, save_cached_signature) (In-append_left _ m)
    ]

first-append :
    (test : CachedSignature → Bool) (xs ys : List CachedSignature) (r : CachedSignature)
    → first test xs ≡ some r
    → first test (xs ++ ys) ≡ some r
unfolding first
first-append test [] ys r h = absurd (ground arith)
first-append test (x ∷ xs) ys r h = elim (Bool-cases (test x)) [
  | inl e ↦ ground arith
  | inr e ↦ rw (first, e) (first-append test xs ys r (rw (first, e) at h))
]

-- A row that is found by its identifier is found after any save too, unchanged.
pub get-save_cached_signature :
    (s : Store) (n r : CachedSignature) (id : Bytes)
    → get_cached_signature s id ≡ some r
    → get_cached_signature (save_cached_signature s n) id ≡ some r
unfolding save_cached_signature get_cached_signature
get-save_cached_signature s n r id h =
    elim (Bool-cases (any (λ (q : CachedSignature). q.id == n.id) s.signatures)) [
      | inl e ↦ rw (e, save_cached_signature) h
      | inr e ↦
          rw (e, save_cached_signature, get_cached_signature) (first-append _ s.signatures _ r h)
    ]

module _ (read_kind : Bytes → Option Kind) where
  -- A row of this signer, not the target itself, that is a revocation of it.
  abbrev pub IsRevocation : List CachedSignature → Bytes → Bytes → Type 0
  IsRevocation rows signer id =
      (c : CachedSignature) × In c rows
      × (c.signer ≡ signer)
      × (c.id ≢ id)
      × (is_revocation_for read_kind c.payload id ≡ true)

  find_sound :
      (id : Bytes) (rows : List CachedSignature) (t : ℕ)
      → find_revocation read_kind id rows ≡ some t
      → (c : CachedSignature) × In c rows
        × (c.id ≢ id)
        × (is_revocation_for read_kind c.payload id ≡ true)
  unfolding find_revocation
  find_sound id [] t h = absurd (ground arith)
  find_sound id (x ∷ rows) t h = elim (Bool-cases (x.id == id)) [
    | inl e ↦ deeper (find_sound id rows t (rw (find_revocation, e) at h))
    | inr e ↦ elim (Bool-cases (is_revocation_for read_kind x.payload id)) [
      | inl v ↦ (x, here refl, (λ same. absurd (ground (arith, ==_iff x.id id))), v)
      | inr v ↦ deeper (find_sound id rows t (rw (find_revocation, e, v) at h))
    ]
  ]
    where
      deeper :
          (c : CachedSignature) × In c rows
            × (c.id ≢ id)
            × (is_revocation_for read_kind c.payload id ≡ true)
          → (c : CachedSignature) × In c (x ∷ rows)
            × (c.id ≢ id)
            × (is_revocation_for read_kind c.payload id ≡ true)
      deeper (c, m, i, v) = (c, there m, i, v)

  find_complete :
      (id : Bytes) (rows : List CachedSignature) (c : CachedSignature)
      → In c rows
      → c.id ≢ id
      → is_revocation_for read_kind c.payload id ≡ true
      → (t : ℕ) × (find_revocation read_kind id rows ≡ some t)
  unfolding find_revocation
  find_complete id [] c m i v = elim m [ ]
  find_complete id (x ∷ rows) c m i v = elim (Bool-cases (x.id == id)) [
    | inl e ↦ elim (In-cons c x rows m) [
      | inl same ↦ absurd (i (ground (arith, ==_iff x.id id)))
      | inr rest ↦ rw (find_revocation, e) (find_complete id rows c rest i v)
    ]
    | inr e ↦ elim (Bool-cases (is_revocation_for read_kind x.payload id)) [
      | inl w ↦ (x.uploaded_at, rw (find_revocation, e, w) refl)
      | inr w ↦ elim (In-cons c x rows m) [
        | inl same ↦ absurd (ground arith)
        | inr rest ↦ rw (find_revocation, e, w) (find_complete id rows c rest i v)
      ]
    ]
  ]

  -- A cached signature counts as revoked exactly if the cache holds another row of the same signer
  -- that is a revocation of it.
  pub is_cached_signature_revoked_iff :
      (s : Store) (id : Bytes) (target : CachedSignature)
      → get_cached_signature s id ≡ some target
      → ((t : ℕ) × (is_cached_signature_revoked read_kind s id ≡ some (some t)))
        ↔ IsRevocation s.signatures target.signer id
  unfolding is_cached_signature_revoked get_cached_signatures_by_signer
  is_cached_signature_revoked_iff s id target g = (
    λ (t, h).
        let (c, m, i, v) =
          find_sound id (get_cached_signatures_by_signer s target.signer) t
            (found t (rw (is_cached_signature_revoked, g) at h)) in
        let (n, e) = (In-keep_iff _ c s.signatures).0 ((In-sort_iff _ c _).0 m) in
        (c, n, (==_iff c.signer target.signer).0 e, i, v),
    λ (c, n, e, i, v).
        let (t, h) =
          find_complete id (get_cached_signatures_by_signer s target.signer) c
            ((In-sort_iff _ c _).1
              ((In-keep_iff _ c s.signatures).1 (n, (==_iff c.signer target.signer).1 e)))
            i v in
        (t, rw (is_cached_signature_revoked, g, h) refl),
  )
    where
      found : (t : ℕ) {o : Option ℕ} → some o ≡ some (some t) → o ≡ some t
      found t h = cc (h)

  -- Saving rows, in whatever order they arrive, never makes a revoked signature valid again.
  pub save_cached_signature-revoked :
      (s : Store) (n target : CachedSignature) (id : Bytes) (t : ℕ)
      → get_cached_signature s id ≡ some target
      → is_cached_signature_revoked read_kind s id ≡ some (some t)
      → (later : ℕ) × (is_cached_signature_revoked read_kind (save_cached_signature s n) id
          ≡ some (some later))
  save_cached_signature-revoked s n target id t g h =
      let (c, m, e, i, v) = (is_cached_signature_revoked_iff s id target g).0 (t, h) in
      (is_cached_signature_revoked_iff (save_cached_signature s n) id target
          (get-save_cached_signature s n target id g)).1
        (c, In-save_cached_signature s n c m, e, i, v)
