-- ===== src/Resolver/TrustSet/Loop.antt =====
-- resolver/trustset.go: the search ends, whatever the connections are.
use tillit.Base.{
  Bytes, ◌==◌, ==_iff, ℕ, zero, suc, ◌+◌, ◌≤◌, pos, leb_ℤ, false, not, ◌||◌, some, List, [], ◌∷◌,
  ◌++◌, length, length-append, keep, length-keep, any, length-sort, ◌≡◌, refl, arith, Bool-cases,
  inl, inr, ltb,
}
use tillit.Models.Payload.{Unmarshal}
use tillit.Localstore.{Store, CachedConnection, get_cached_connections_by_signer}
use tillit.Resolver.TrustSet.{
  TrustEntry, Frontier, OutgoingConn, TrustMap, has_key, contains, connection_targets,
  active_connections, signer_outgoing, expand, loop, start, seeds, distrusted, enough_fuel,
  build_trust_set,
}

pub has_key-append :
    (j : Bytes) (m : TrustMap) (k : Bytes) (e : TrustEntry)
    → has_key j (m ++ (k, e) ∷ []) ≡ (has_key j m || k == j)
unfolding has_key any
has_key-append j [] k e = ground arith
has_key-append j (x ∷ m) k e = ground (arith, has_key-append j m k e)

-- The connections of signers that are not recorded yet.
unrecorded : TrustMap → List CachedConnection → List CachedConnection
unrecorded m = keep (λ r. not (has_key r.signer m))

by_signer : Bytes → List CachedConnection → List CachedConnection
by_signer k = keep (λ r. r.signer == k)

-- Recording a signer takes its connections out.
unrecorded-append :
    (m : TrustMap) (k : Bytes) (e : TrustEntry) (rows : List CachedConnection)
    → has_key k m ≡ false
    → length (unrecorded (m ++ (k, e) ∷ []) rows) + length (by_signer k rows)
      ≤ length (unrecorded m rows)
unfolding unrecorded by_signer keep
unrecorded-append m k e [] h = omega arith
unrecorded-append m k e (r ∷ rows) h = elim (Bool-cases (r.signer == k)) [
  | inl same ↦
      let at : has_key r.signer m ≡ false = rw ((==_iff r.signer k).0 same) h in
      ground (
        arith,
        unrecorded-append m k e rows h,
        has_key-append r.signer m k e,
        ==_iff r.signer k,
        ==_iff k r.signer,
      )
  | inr other ↦ ground (
    arith,
    unrecorded-append m k e rows h,
    has_key-append r.signer m k e,
    ==_iff r.signer k,
    ==_iff k r.signer,
  )
]

length-expand :
    (banned : List Bytes) (f : Frontier) (cs : List OutgoingConn)
    → length (expand banned f cs) ≤ length cs
unfolding expand
length-expand banned f [] = omega arith
length-expand banned f (c ∷ cs) = ground (arith, length-expand banned f cs)

length-active_connections :
    (unmarshal : Unmarshal) (revoked : List Bytes) (rows : List CachedConnection)
    → length (active_connections unmarshal revoked rows) ≤ length rows
unfolding active_connections
length-active_connections unmarshal revoked [] = omega arith
length-active_connections unmarshal revoked (r ∷ rows) =
    ground (arith, length-active_connections unmarshal revoked rows)

module _ (unmarshal : Unmarshal) (store : Store) where
  length-signer_outgoing :
      (signer : Bytes)
      → length (signer_outgoing unmarshal store signer)
        ≤ length (by_signer signer store.connections)
  unfolding signer_outgoing get_cached_connections_by_signer by_signer
  length-signer_outgoing signer = omega (
    arith,
    length-active_connections unmarshal
        (connection_targets unmarshal (get_cached_connections_by_signer store signer))
        (get_cached_connections_by_signer store signer),
    length-sort (λ (p q : CachedConnection). ltb p.created_at q.created_at)
        (keep (λ r. r.signer == signer) store.connections),
  )

  module _ (active : Bytes) where
    abbrev work : TrustMap → List Frontier → ℕ
    work m queue = length queue + length (unrecorded m store.connections)

    loop_terminates :
        (fuel : ℕ) (banned : List Bytes) (m : TrustMap) (queue : List Frontier)
        → work m queue ≤ fuel
        → (r : TrustMap) × (loop unmarshal store active fuel banned m queue ≡ some r)
    unfolding loop
    loop_terminates fuel banned m [] h = (m, refl)
    loop_terminates zero banned m (f ∷ queue) h = absurd (omega arith)
    loop_terminates (suc fuel) banned m (f ∷ queue) h =
        elim (Bool-cases (contains f.signer banned)) [
          | inl skip ↦ rw (skip, loop) (loop_terminates fuel banned m queue (omega arith))
          | inr go ↦ elim (Bool-cases (has_key f.signer m)) [
            | inl seen ↦ rw (go, seen, loop) (loop_terminates fuel banned m queue (omega arith))
            | inr new ↦
                let entry : TrustEntry = record { path = f.path; veto_only = f.veto_only } in
                let falls = unrecorded-append m f.signer entry store.connections new in
                elim (Bool-cases (leb_ℤ f.depth_left (pos 0))) [
                  | inl done ↦
                      rw (go, new, done, loop)
                        (loop_terminates fuel banned (m ++ (f.signer, entry) ∷ []) queue
                          (omega arith))
                  | inr deeper ↦
                      rw (go, new, deeper, loop)
                        (loop_terminates fuel banned (m ++ (f.signer, entry) ∷ [])
                          (queue ++ expand banned f (signer_outgoing unmarshal store f.signer))
                          (omega (
                            arith,
                            length-append queue
                                (expand banned f (signer_outgoing unmarshal store f.signer)),
                            length-expand banned f (signer_outgoing unmarshal store f.signer),
                            length-signer_outgoing f.signer,
                          )))
                ]
          ]
        ]

-- The search for the trust set ends, cycles among the connections included, and yields a set.
pub build_trust_set_terminates :
    (unmarshal : Unmarshal) (store : Store) (active viewer : Bytes)
    → (m : TrustMap) × (build_trust_set unmarshal store active viewer ≡ some m)
unfolding build_trust_set enough_fuel unrecorded
build_trust_set_terminates unmarshal store active viewer =
    loop_terminates unmarshal store active (enough_fuel unmarshal store active viewer)
      (distrusted store active viewer) (start viewer) (seeds unmarshal store active viewer)
      (omega (
        arith,
        length-keep (λ (r : CachedConnection). not (has_key r.signer (start viewer)))
            store.connections,
      ))
