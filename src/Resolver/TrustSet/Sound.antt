-- ===== src/Resolver/TrustSet/Sound.antt =====
-- resolver/trustset.go: what stands in the trust set, and what surely does.
use tillit.Base.{
  Bytes, ◌==◌, ℕ, zero, suc, pos, leb_ℤ, false, some, List, [], ◌∷◌, ◌++◌, In, here, there,
  In-append_cases, In-cons, ◌≡◌, refl, inl, inr, arith, Bool-cases,
}
use tillit.Models.Payload.{Unmarshal}
use tillit.Localstore.{Store}
use tillit.Resolver.TrustSet.{
  TrustEntry, TrustMap, Frontier, OutgoingConn, has_key, contains, signer_outgoing, distrusted,
  seeds, expand, next_depth, loop, start, enough_fuel, build_trust_set,
}
use tillit.Resolver.TrustSet.Walk.{Walk, direct, further}

expand-In :
    (banned : List Bytes) (f : Frontier) (cs : List OutgoingConn) {g : Frontier}
    → In g (expand banned f cs)
    → (c : OutgoingConn) × In c cs
      × (contains c.other_id banned ≡ false)
      × (g ≡ record {
        signer = c.other_id;
        path = f.path ++ c.other_id ∷ [];
        depth_left = next_depth f.depth_left c.trust_extends;
        veto_only = f.veto_only;
      })
unfolding expand
expand-In banned f [] m = elim m [ ]
expand-In banned f (c ∷ cs) {g} m = elim (Bool-cases (contains c.other_id banned)) [
  | inl skip ↦
      let (d, n, clear, e) = expand-In banned f cs (rw (skip, expand) at m) in
      (d, there n, clear, e)
  | inr clear ↦ elim (In-cons _ _ _ (rw (clear, expand) at m)) [
    | inl e ↦ (c, here refl, clear, e)
    | inr rest ↦ let (d, n, free, e) = expand-In banned f cs rest in (d, there n, free, e)
  ]
]

module _ (unmarshal : Unmarshal) (store : Store) (active viewer : Bytes) where
  abbrev banned : List Bytes
  banned = distrusted store active viewer

  -- Why a signer is in the trust set: he is the viewer, or a walk leads to him and he is not
  -- distrusted. The entry tells the walk's path and whether it is limited to vetoes.
  pub data Explained (k : Bytes) (e : TrustEntry) : Type 0 where
    viewer_self : k ≡ viewer → e.path ≡ [] → e.veto_only ≡ false → Explained k e
    walked :
        (f : Frontier)
        → Walk unmarshal store active viewer f
        → contains k banned ≡ false
        → f.signer ≡ k
        → f.path ≡ e.path
        → f.veto_only ≡ e.veto_only
        → Explained k e

  abbrev pub AllExplained : TrustMap → Type 0
  AllExplained m = (k : Bytes) (e : TrustEntry) → In (k, e) m → Explained k e

  abbrev AllWalks : List Frontier → Type 0
  AllWalks queue = (f : Frontier) → In f queue → Walk unmarshal store active viewer f

  recorded-Explained :
      (m : TrustMap) (f : Frontier)
      → AllExplained m
      → Walk unmarshal store active viewer f
      → contains f.signer banned ≡ false
      → AllExplained (m ++ (f.signer, record { path = f.path; veto_only = f.veto_only }) ∷ [])
  recorded-Explained m f h w free k e i = elim (In-append_cases m _ i) [
    | inl old ↦ h k e old
    | inr new ↦ elim (In-cons _ _ _ new) [
      | inl same ↦ walked f w (cc (free, same)) (cc same) (cc same) (cc same)
      | inr nothing ↦ elim nothing [ ]
    ]
  ]

  expand-Walk :
      (f : Frontier)
      → Walk unmarshal store active viewer f
      → contains f.signer banned ≡ false
      → leb_ℤ f.depth_left (pos 0) ≡ false
      → AllWalks (expand banned f (signer_outgoing unmarshal store f.signer))
  expand-Walk f w free deeper g m =
      let (c, out, clear, e) = expand-In banned f (signer_outgoing unmarshal store f.signer) m in
      further c w free (ground arith) out clear e

  loop-Explained :
      (fuel : ℕ) (m : TrustMap) (queue : List Frontier) {r : TrustMap}
      → AllExplained m
      → AllWalks queue
      → loop unmarshal store active fuel banned m queue ≡ some r
      → AllExplained r
  unfolding loop
  loop-Explained fuel m [] {r} h ws e = let same : m ≡ r = cc e in rw (← same) h
  loop-Explained zero m (f ∷ queue) h ws e = cc
  loop-Explained (suc fuel) m (f ∷ queue) h ws e = elim (Bool-cases (contains f.signer banned)) [
    | inl skip ↦ loop-Explained fuel m queue h (λ g n. ws g (there n)) (rw (skip, loop) at e)
    | inr free ↦ elim (Bool-cases (has_key f.signer m)) [
      | inl seen ↦
          loop-Explained fuel m queue h (λ g n. ws g (there n)) (rw (free, seen, loop) at e)
      | inr new ↦
          let w = ws f (here refl) in
          let h' = recorded-Explained m f h w free in
          elim (Bool-cases (leb_ℤ f.depth_left (pos 0))) [
            | inl done ↦
                loop-Explained fuel
                  (m ++ (f.signer, record { path = f.path; veto_only = f.veto_only }) ∷ []) queue h'
                  (λ g n. ws g (there n)) (rw (free, new, done, loop) at e)
            | inr deeper ↦
                loop-Explained fuel
                  (m ++ (f.signer, record { path = f.path; veto_only = f.veto_only }) ∷ [])
                  (queue ++ expand banned f (signer_outgoing unmarshal store f.signer)) h'
                  (λ g n. elim (In-append_cases queue _ n) [
                    | inl old ↦ ws g (there old)
                    | inr fresh ↦ expand-Walk f w free deeper g fresh
                  ])
                  (rw (free, new, deeper, loop) at e)
          ]
    ]
  ]

  start-Explained : AllExplained (start viewer)
  unfolding start
  start-Explained k e i = elim (Bool-cases (viewer == [])) [
    | inl none_set ↦ elim (rw (none_set, start) at i) [ ]
    | inr set ↦ elim (In-cons _ _ _ (rw (set, start) at i)) [
      | inl same ↦ viewer_self (cc same) (cc same) (cc same)
      | inr nothing ↦ elim nothing [ ]
    ]
  ]

-- Whoever stands in the trust set is the viewer, with an empty path and no limit to vetoes, or is
-- reached by a walk along active connections within the budgets, and is not distrusted by the
-- viewer; the entry holds that walk's path and its limit to vetoes.
pub build_trust_set-Explained :
    (unmarshal : Unmarshal) (store : Store) (active viewer : Bytes) (m : TrustMap)
    → build_trust_set unmarshal store active viewer ≡ some m
    → AllExplained unmarshal store active viewer m
unfolding build_trust_set
build_trust_set-Explained unmarshal store active viewer m h =
    loop-Explained unmarshal store active viewer (enough_fuel unmarshal store active viewer)
      (start viewer) (seeds unmarshal store active viewer)
      (start-Explained unmarshal store active viewer) (λ f i. direct i) h
