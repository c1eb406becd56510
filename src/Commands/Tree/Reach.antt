-- ===== src/Commands/Tree/Reach.antt =====
-- cmd/tillit/commands/checktree.go, unvisitedFromDirects: the walk reaches what paths reach.
use tillit.Base.{
  Bytes, ◌==◌, ==_iff, ==_refl, ℕ, zero, suc, ◌≤◌, ◌<◌, Bool, true, false, not, List, [], ◌∷◌, ◌++◌,
  map, length, length-keep, keep, any, any_iff, In, here, there, In-cons, In-append_left,
  In-append_right, In-keep_iff, In-sort_iff, In-map, map-In, ◌≡◌, ◌≢◌, refl, ◌↔◌, ◌⊎◌, inl, inr,
  arith, Bool-cases,
}
use tillit.Base.Keyed.{each}
use tillit.Localstore.{less_bytes}
use tillit.Resolver.TrustSet.{contains}
use tillit.Commands.Check.{Edges, Row}
use tillit.Commands.Tree.{
  get_at, list_at, pkg_key, walk, targets, enough_fuel, walk_all, unvisited_from_directs,
}

-- A path along edges.
pub data Reaches (edges : Edges) : Bytes → Bytes → Type 0 where
  arrived : (k : Bytes) → Reaches edges k k
  along : (k c u : Bytes) → In c (list_at k edges) → Reaches edges c u → Reaches edges k u

contains-In : (k : Bytes) (ks : List Bytes) → (contains k ks ≡ true) ↔ In k ks
contains-In k ks =
    let iff = any_iff (λ j. j == k) ks in
    ((λ h. let (j, m, e) = iff.0 h in rw (← (==_iff j k).0 e) m), (λ m. iff.1 (k, m, ==_refl k)))

-- The keys of `all` that are not reached yet.
unseen : List Bytes → List Bytes → ℕ
unseen all reached = length (keep (λ u. not (contains u reached)) all)

unseen_less : (all v r : List Bytes) → ((u : Bytes) → In u v → In u r) → unseen all r ≤ unseen all v
unfolding unseen keep
unseen_less [] v r h = omega arith
unseen_less (u ∷ all) v r h =
    ground (arith, unseen_less all v r h, contains-In u v, contains-In u r, h u)

unseen-cons :
    (all v : List Bytes) (k : Bytes)
    → In k all
    → contains k v ≡ false
    → unseen all (k ∷ v) < unseen all v
unfolding unseen keep any
unseen-cons [] v k m h = elim m [ ]
unseen-cons (u ∷ all) v k (here e) h =
    rw (← e) (ground (arith, ==_refl k, unseen_less all v (k ∷ v) (λ w i. there i)))
unseen-cons (u ∷ all) v k (there m) h = ground (arith, unseen-cons all v k m h)

module _ (edges : Edges) where
  -- What was reached stays so, and what is new has all its targets with it.
  record Grows (v r : List Bytes) : Type 0 where
    kept : (u : Bytes) → In u v → In u r
    closed : (u : Bytes) → In u r → In u v ⊎ ((c : Bytes) → In c (list_at u edges) → In c r)

  Grows-trans : (v w r : List Bytes) → Grows v w → Grows w r → Grows v r
  Grows-trans v w r g h = record {
    kept = λ u i. h.kept u (g.kept u i);
    closed = λ u i. elim (h.closed u i) [
      | inr all ↦ inr all
      | inl old ↦ elim (g.closed u old) [
        | inl before ↦ inl before
        | inr all ↦ inr (λ c j. h.kept c (all c j))
      ]
    ];
  }

module _ (edges : Edges) (f : List Bytes → Bytes → List Bytes) where
  -- What a step reaches was reached before, or lies at the end of a path.
  abbrev IsSound : Type 0
  IsSound = (v : List Bytes) (k u : Bytes) → In u (f v k) → In u v ⊎ Reaches edges k u

  loop-IsSound :
      IsSound
      → (v ks : List Bytes) (u : Bytes) → In u (each f v ks)
      → In u v ⊎ ((c : Bytes) × In c ks × Reaches edges c u)
  unfolding each
  loop-IsSound sound v [] u m = inl m
  loop-IsSound sound v (k ∷ ks) u m = elim (loop-IsSound sound (f v k) ks u m) [
    | inr (c, i, p) ↦ inr (c, there i, p)
    | inl n ↦ elim (sound v k u n) [ inl old ↦ inl old | inr p ↦ inr (k, here refl, p) ]
  ]

  -- A step reaches its key, while fewer than `n` keys of `all` are unseen.
  abbrev IsComplete : List Bytes → ℕ → Type 0
  IsComplete all n =
      (v : List Bytes) (k : Bytes)
      → In k all
      → unseen all v < n
      → Grows edges v (f v k) × In k (f v k)

  loop-IsComplete :
      (all : List Bytes) (n : ℕ)
      → IsComplete all n
      → (v ks : List Bytes) → ((k : Bytes) → In k ks → In k all)
      → unseen all v < n
      → Grows edges v (each f v ks) × ((k : Bytes) → In k ks → In k (each f v ks))
  unfolding each
  loop-IsComplete all n step v [] i h =
      (record { kept = λ u m. m; closed = λ u m. inl m }, λ k m. elim m [ ])
  loop-IsComplete all n step v (k ∷ ks) i h =
      let (g, own) = step v k (i k (here refl)) h in
      let less = unseen_less all v (f v k) g.kept in
      let (rest, reached) =
        loop-IsComplete all n step (f v k) ks (λ c m. i c (there m)) (omega (arith, less, h)) in
      (
        Grows-trans edges v (f v k) (each f (f v k) ks) g rest,
        λ c m. elim (In-cons c k ks m) [
          | inl same ↦ rest.kept c (rw (same) own)
          | inr other ↦ reached c other
        ],
      )

In-targets : (edges : Edges) (k c : Bytes) → In c (list_at k edges) → In c (targets edges)
unfolding targets
In-targets [] k c = λ m. elim m [ ]
In-targets ((j, ks) ∷ edges) k c = elim (Bool-cases (j == k)) [
  | inl e ↦ rw (list_at, get_at, e) (λ m. In-append_left (targets edges) m)
  | inr e ↦ rw (list_at, get_at, e) (λ m. In-append_right ks (In-targets edges k c m))
]

module _ (edges : Edges) where
  walk_seen :
      (n : ℕ) (v : List Bytes) (k : Bytes) → contains k v ≡ true → walk edges (suc n) v k ≡ v
  unfolding walk
  walk_seen n v k e = rw (walk, e) refl

  walk_new :
      (n : ℕ) (v : List Bytes) (k : Bytes)
      → contains k v ≡ false
      → walk edges (suc n) v k ≡ each (walk edges n) (k ∷ v) (list_at k edges)
  unfolding walk
  walk_new n v k e = rw (walk, e) refl

  walk-IsSound : (n : ℕ) → IsSound edges (walk edges n)
  unfolding walk
  walk-IsSound zero = λ v k u m. inl m
  walk-IsSound (suc n) = λ v k u. elim (Bool-cases (contains k v)) [
    | inl e ↦ rw (walk_seen n v k e) (λ m. inl m)
    | inr e ↦ rw (walk_new n v k e) (λ m.
        elim (loop-IsSound edges (walk edges n) (walk-IsSound n) (k ∷ v) (list_at k edges) u m) [
          | inr (c, i, p) ↦ inr (along k c u i p)
          | inl old ↦ elim (In-cons u k v old) [
            | inl same ↦ inr (rw (same) (arrived k))
            | inr before ↦ inl before
          ]
        ])
  ]

  entered :
      (v : List Bytes) (k : Bytes) (r : List Bytes)
      → Grows edges (k ∷ v) r
      → ((c : Bytes) → In c (list_at k edges) → In c r)
      → Grows edges v r
  entered v k r g reached = record {
    kept = λ u m. g.kept u (there m);
    closed = λ u m. elim (g.closed u m) [
      | inr all ↦ inr all
      | inl old ↦ elim (In-cons u k v old) [
        | inr before ↦ inl before
        | inl same ↦ inr (rw (same) reached)
      ]
    ];
  }

  walk-IsComplete :
      (all : List Bytes)
      → ((k c : Bytes) → In c (list_at k edges) → In c all)
      → (n : ℕ) → IsComplete edges (walk edges n) all n
  walk-IsComplete all inside zero = λ v k i h. absurd (omega (arith, h))
  walk-IsComplete all inside (suc n) = λ v k i h. elim (Bool-cases (contains k v)) [
    | inl e ↦
        rw (walk_seen n v k e)
          (record { kept = λ u m. m; closed = λ u m. inl m }, (contains-In k v).0 e)
    | inr e ↦
        let (g, reached) =
          loop-IsComplete edges (walk edges n) all n (walk-IsComplete all inside n) (k ∷ v)
            (list_at k edges) (inside k) (omega (arith, unseen-cons all v k i e, h)) in
        rw (walk_new n v k e) (entered v k _ g reached, g.kept k (here refl))
  ]

  -- What is reached with its targets is reached with all paths from it.
  closed-Reaches :
      (r : List Bytes)
      → ((u : Bytes) → In u r → (c : Bytes) → In c (list_at u edges) → In c r)
      → (k u : Bytes) → Reaches edges k u
      → In k r
      → In u r
  closed-Reaches r closed k u (arrived j) m = m
  closed-Reaches r closed k u (along j c w i p) m = closed-Reaches r closed c w p (closed j m c i)

  -- The walk from all direct packages reaches exactly what paths from them reach.
  pub walk_all-Reaches :
      (directs : List Bytes) (u : Bytes)
      → In u (walk_all edges directs) ↔ ((d : Bytes) × In d directs × Reaches edges d u)
  unfolding walk_all enough_fuel unseen
  walk_all-Reaches directs u =
      let all = directs ++ targets edges in
      let n = suc (length all) in
      let (g, reached) =
        loop-IsComplete edges (walk edges n) all n
          (walk-IsComplete all (λ k c m. In-append_right directs (In-targets edges k c m)) n) []
          directs (λ k m. In-append_left (targets edges) m)
          (omega (arith, length-keep (λ u. not (contains u [])) all)) in
      (
        (λ m. elim (loop-IsSound edges (walk edges n) (walk-IsSound n) [] directs u m) [
          | inl none_before ↦ elim none_before [ ]
          | inr found ↦ found
        ]),
        (λ (d, i, p).
            closed-Reaches _
              (λ w m. elim (g.closed w m) [
                | inl none_before ↦ elim none_before [ ]
                | inr targets_in ↦ targets_in
              ])
              d u p (reached d i)),
      )

-- The packages that are listed below the tree are exactly the rows that no path of edges reaches from a
-- direct package, whatever ToLower is.
pub unvisited_from_directs_iff :
    (to_lower : Bytes → Bytes) (rows : List Row) (edges : Edges) (directs : List Bytes)
    (key : Bytes)
    → In key (unvisited_from_directs to_lower rows edges directs) ↔ (
        ((r : Row) × In r rows × (key ≡ pkg_key r.pkg))
        × ((d : Bytes) → In d directs → ¬ (Reaches edges d key)))
unfolding unvisited_from_directs
unvisited_from_directs_iff to_lower rows edges directs key =
    let sorted =
      In-sort_iff (λ a b. less_bytes (to_lower a) (to_lower b)) key
        (keep (λ k. not (contains k (walk_all edges directs))) (map (λ r. pkg_key r.pkg) rows)) in
    let kept =
      In-keep_iff (λ k. not (contains k (walk_all edges directs))) key
        (map (λ r. pkg_key r.pkg) rows) in
    let seen = contains-In key (walk_all edges directs) in
    let reached = walk_all-Reaches edges directs key in
    (
      (λ m.
          let (i, n) = kept.0 (sorted.0 m) in
          (
            In-map (λ r. pkg_key r.pkg) rows i,
            λ d j p. differs _ (seen.1 (reached.1 (d, j, p))) n,
          )),
      (λ ((r, j, e), n). sorted.1 (
          kept.1 (
            rw (e) (map-In (λ r. pkg_key r.pkg) rows j),
            unreached (contains key (walk_all edges directs))
                (λ t. let (d, i, p) = reached.0 (seen.0 t) in n d i p),
          ))),
    )
  where
    differs : (b : Bool) → b ≡ true → not b ≢ true
    differs b h n = absurd (ground arith)

    unreached : (b : Bool) → b ≢ true → not b ≡ true
    unreached b h = ground (arith, h)
