-- ===== src/Resolver/TrustSet/Direct.antt =====
-- resolver/trustset.go: the direct edges are never lost, and each signer is recorded once.
use tillit.Base.{
  Bytes, ◌==◌, ==_iff, ℕ, zero, suc, pos, leb_ℤ, true, false, some, List, [], ◌∷◌, ◌++◌, any, In,
  In-append_left, In-cons, ◌≡◌, refl, ◌⊎◌, inl, inr, arith, Bool-cases,
}
use mathlib.Core.List.{append-nil}
use tillit.Models.Payload.{Unmarshal}
use tillit.Localstore.{Store}
use tillit.Resolver.TrustSet.{
  TrustEntry, TrustMap, Frontier, has_key, contains, signer_outgoing, distrusted, seeds, expand,
  loop, start, enough_fuel, build_trust_set,
}
use tillit.Resolver.TrustSet.Loop.{has_key-append}

-- The keys of a map are all different.
abbrev pub HasDistinctKeys : TrustMap → Type 0
HasDistinctKeys [] = Unit
HasDistinctKeys ((k, e) ∷ m) = (has_key k m ≡ false) × HasDistinctKeys m

HasDistinctKeys-append :
    (m : TrustMap) (k : Bytes) (e : TrustEntry)
    → HasDistinctKeys m
    → has_key k m ≡ false
    → HasDistinctKeys (m ++ (k, e) ∷ [])
unfolding has_key any
HasDistinctKeys-append [] k e d h = (refl, tt)
HasDistinctKeys-append ((j, f) ∷ m) k e d h = (
  ground (arith, has_key-append j m k e, ==_iff j k, ==_iff k j),
  HasDistinctKeys-append m k e d.1 (ground arith),
)

module _ (unmarshal : Unmarshal) (store : Store) (active : Bytes) (banned : List Bytes) where
  -- What waits in the queue and may be recorded.
  record Waits (queue : List Frontier) (k : Bytes) : Type 0 where
    frontier : Frontier
    queued : In frontier queue
    signer : frontier.signer ≡ k
    free : contains k banned ≡ false

  Waits-tail :
      {f : Frontier} {queue : List Frontier} {k : Bytes}
      → Waits (f ∷ queue) k
      → (f.signer ≡ k) ⊎ Waits queue k
  Waits-tail w = elim (In-cons _ _ _ w.queued) [
    | inl same ↦ inl (cc (same, w.signer))
    | inr rest ↦
        inr (record { frontier = w.frontier; queued = rest; signer = w.signer; free = w.free })
  ]

  Waits-append :
      {queue : List Frontier} {k : Bytes} (more : List Frontier)
      → Waits queue k
      → Waits (queue ++ more) k
  Waits-append more w = record {
    frontier = w.frontier;
    queued = In-append_left more w.queued;
    signer = w.signer;
    free = w.free;
  }

  abbrev entry_of : Frontier → TrustEntry
  entry_of f = record { path = f.path; veto_only = f.veto_only }

  -- A key that is recorded or waits is recorded at the end.
  abbrev Kept : TrustMap → List Frontier → Bytes → Type 0
  Kept m queue k = (has_key k m ≡ true) ⊎ Waits queue k

  Kept-skip :
      (m : TrustMap) (f : Frontier) (queue : List Frontier) (k : Bytes)
      → (has_key f.signer m ≡ true) ⊎ (contains f.signer banned ≡ true)
      → Kept m (f ∷ queue) k
      → Kept m queue k
  Kept-skip m f queue k why (inl old) = inl old
  Kept-skip m f queue k why (inr w) = elim (Waits-tail w) [
    | inl same ↦ elim why [
      | inl seen ↦ inl (rw (← same) seen)
      | inr out ↦ absurd (ground (arith, rw same at out, w.free))
    ]
    | inr rest ↦ inr rest
  ]

  Kept-record :
      (m : TrustMap) (f : Frontier) (queue more : List Frontier) (k : Bytes)
      → Kept m (f ∷ queue) k
      → Kept (m ++ (f.signer, entry_of f) ∷ []) (queue ++ more) k
  Kept-record m f queue more k (inl old) =
      inl (ground (arith, has_key-append k m f.signer (entry_of f)))
  Kept-record m f queue more k (inr w) = elim (Waits-tail w) [
    | inl same ↦
        inl (ground (arith, has_key-append k m f.signer (entry_of f), (==_iff f.signer k).1 same))
    | inr rest ↦ inr (Waits-append more rest)
  ]

  -- What the loop keeps: distinct keys, and every key that is recorded or waits.
  record Ends (k : Bytes) (r : TrustMap) : Type 0 where
    distinct : HasDistinctKeys r
    recorded : has_key k r ≡ true

  loop-Ends :
      (fuel : ℕ) (m : TrustMap) (queue : List Frontier) (k : Bytes) {r : TrustMap}
      → HasDistinctKeys m
      → Kept m queue k
      → loop unmarshal store active fuel banned m queue ≡ some r
      → Ends k r
  unfolding loop
  loop-Ends fuel m [] k {r} d (inl old) e =
      let same : m ≡ r = cc e in rw (← same) (record { distinct = d; recorded = old })
  loop-Ends fuel m [] k d (inr w) e = elim w.queued [ ]
  loop-Ends zero m (f ∷ queue) k d kept e = cc
  loop-Ends (suc fuel) m (f ∷ queue) k d kept e = elim (Bool-cases (contains f.signer banned)) [
    | inl out ↦
        loop-Ends fuel m queue k d (Kept-skip m f queue k (inr out) kept) (rw (out, loop) at e)
    | inr free ↦ elim (Bool-cases (has_key f.signer m)) [
      | inl seen ↦
          loop-Ends fuel m queue k d (Kept-skip m f queue k (inl seen) kept)
            (rw (free, seen, loop) at e)
      | inr new ↦
          let d' = HasDistinctKeys-append m f.signer (entry_of f) d new in
          elim (Bool-cases (leb_ℤ f.depth_left (pos 0))) [
            | inl done ↦
                loop-Ends fuel (m ++ (f.signer, entry_of f) ∷ []) queue k d'
                  (rw (append-nil queue) at (Kept-record m f queue [] k kept))
                  (rw (free, new, done, loop) at e)
            | inr deeper ↦
                loop-Ends fuel (m ++ (f.signer, entry_of f) ∷ [])
                  (queue ++ expand banned f (signer_outgoing unmarshal store f.signer)) k d'
                  (Kept-record m f queue
                    (expand banned f (signer_outgoing unmarshal store f.signer)) k kept)
                  (rw (free, new, deeper, loop) at e)
          ]
    ]
  ]

start-HasDistinctKeys : (viewer : Bytes) → HasDistinctKeys (start viewer)
unfolding start has_key any
start-HasDistinctKeys viewer = elim (Bool-cases (viewer == [])) [
  | inl e ↦ rw (e, start) tt
  | inr e ↦ rw (e, start) (refl, tt)
]

-- The peer of every direct edge is in the trust set, unless the viewer distrusts him; and no signer
-- is in it twice.
pub build_trust_set-direct :
    (unmarshal : Unmarshal) (store : Store) (active viewer : Bytes) (m : TrustMap) (f : Frontier)
    → build_trust_set unmarshal store active viewer ≡ some m
    → In f (seeds unmarshal store active viewer)
    → contains f.signer (distrusted store active viewer) ≡ false
    → (has_key f.signer m ≡ true) × HasDistinctKeys m
unfolding build_trust_set
build_trust_set-direct unmarshal store active viewer m f h i free =
    let ends =
      loop-Ends unmarshal store active (distrusted store active viewer)
        (enough_fuel unmarshal store active viewer) (start viewer)
        (seeds unmarshal store active viewer) f.signer (start-HasDistinctKeys viewer)
        (inr (record { frontier = f; queued = i; signer = refl; free = free })) h in
    (ends.recorded, ends.distinct)
