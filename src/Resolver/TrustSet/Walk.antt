-- ===== src/Resolver/TrustSet/Walk.antt =====
-- resolver/trustset.go: what it means that a signer is reached within the limits of the trust.
use tillit.Base.{
  Bytes, ◌+◌, ◌≤◌, ℤ, pos, pos_part, neg_part, ◌≤ℤ◌, ◌<ℤ◌, false, List, [], ◌∷◌, ◌++◌, map, In-map,
  Bool-cases, length, length-append, In, All, All-append, ◌≡◌, refl, ◌⊎◌, inl, inr, arith,
}
use tillit.Models.Payload.{Unmarshal}
use tillit.Localstore.{Store, Peer}
use tillit.Resolver.TrustSet.{
  Frontier, OutgoingConn, contains, signer_outgoing, distrusted, seeds, next_depth, peer_frontier,
  conn_frontier, is_active,
}

peer-path : (ps : List Peer) {f : Frontier} → In f (map peer_frontier ps) → f.path ≡ f.signer ∷ []
unfolding peer_frontier
peer-path ps m = let (p, n, e) = In-map peer_frontier ps m in rw e

conn-path :
    (cs : List OutgoingConn) {f : Frontier} → In f (map conn_frontier cs) → f.path ≡ f.signer ∷ []
unfolding conn_frontier
conn-path cs m = let (c, n, e) = In-map conn_frontier cs m in rw e

next_depth-lt : (d e : ℤ) → next_depth d e <ℤ d
unfolding next_depth
next_depth-lt d e = ground arith

module _ (unmarshal : Unmarshal) (store : Store) (active viewer : Bytes) where
  abbrev banned : List Bytes
  banned = distrusted store active viewer

  -- The walks from the viewer: along a direct edge first, then along the public connections of
  -- signers that are not distrusted, as long as the budget lasts.
  pub data Walk : Frontier → Type 0 where
    direct : {f : Frontier} → In f (seeds unmarshal store active viewer) → Walk f
    further :
        {f g : Frontier} (c : OutgoingConn)
        → Walk f
        → contains f.signer banned ≡ false
        → pos 0 <ℤ f.depth_left
        → In c (signer_outgoing unmarshal store f.signer)
        → contains c.other_id banned ≡ false
        → g ≡ record {
          signer = c.other_id;
          path = f.path ++ c.other_id ∷ [];
          depth_left = next_depth f.depth_left c.trust_extends;
          veto_only = f.veto_only;
        }
        → Walk g

  -- Where a walk began, and what is left of the budget of its first edge.
  pub record Origin (f : Frontier) : Type 0 where
    pub seed : Frontier
    pub seeded : In seed (seeds unmarshal store active viewer)
    pub rest : List Bytes
    pub path : f.path ≡ seed.signer ∷ rest
    pub veto : f.veto_only ≡ seed.veto_only
    pub budget :
        length rest + pos_part f.depth_left + neg_part seed.depth_left
        ≤ pos_part seed.depth_left + neg_part f.depth_left
    pub hops : (rest ≡ []) ⊎ (pos (length rest) ≤ℤ seed.depth_left)

  pub seed-path :
      {f : Frontier} → In f (seeds unmarshal store active viewer) → f.path ≡ f.signer ∷ []
  unfolding seeds
  seed-path m = elim (Bool-cases (is_active active viewer)) [
    | inl on ↦ peer-path _ (rw (on, seeds) at m)
    | inr off ↦ conn-path _ (rw (off, seeds) at m)
  ]

  pub Walk-Origin : {f : Frontier} → Walk f → Origin f
  Walk-Origin (direct {f} m) = record {
    seed = f;
    seeded = m;
    rest = [];
    path = seed-path m;
    veto = refl;
    budget = omega arith;
    hops = inl refl;
  }
  Walk-Origin (further {f} {g} c w free left out clear e) =
      let o = Walk-Origin w in
      let left' = next_depth-lt f.depth_left c.trust_extends in
      let depth : g.depth_left ≡ next_depth f.depth_left c.trust_extends = cc e in
      record {
        seed = o.seed;
        seeded = o.seeded;
        rest = o.rest ++ c.other_id ∷ [];
        path = cc (e, o.path);
        veto = cc (e, o.veto);
        budget = rw (depth, length-append o.rest (c.other_id ∷ [])) (omega (arith, o.budget));
        hops = inr (rw (length-append o.rest (c.other_id ∷ [])) (omega (arith, o.budget)));
      }

  -- Nobody on the path is distrusted, if the one at its end is not.
  pub Walk-clear :
      {f : Frontier}
      → Walk f
      → contains f.signer banned ≡ false
      → All (λ k. contains k banned ≡ false) f.path
  Walk-clear (direct m) end = rw (seed-path m) (end, tt)
  Walk-clear (further {f} {g} c w free left out clear e) end =
      let path : g.path ≡ f.path ++ c.other_id ∷ [] = cc e in
      rw path (All-append _ f.path (c.other_id ∷ []) (Walk-clear w free) (clear, tt))
