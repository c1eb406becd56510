-- ===== src/Resolver/TrustSet/Limits.antt =====
-- resolver/trustset.go: distrust, depth and vetoes along the path of an entry.
use tillit.Base.{Bytes, ◌≤ℤ◌, pos, false, some, List, [], ◌∷◌, In, All, length, ◌≡◌, ◌⊎◌, inl, inr}
use tillit.Models.Payload.{Unmarshal}
use tillit.Localstore.{Store}
use tillit.Resolver.TrustSet.{
  TrustEntry, TrustMap, Frontier, contains, distrusted, seeds, build_trust_set,
}
use tillit.Resolver.TrustSet.Walk.{Walk-clear, Walk-Origin}
use tillit.Resolver.TrustSet.Sound.{viewer_self, walked, Explained, build_trust_set-Explained}

-- The direct edge that an entry goes back to: the path begins with its peer and has at most as many
-- further hops as the peer's depth allows, and the entry is limited to vetoes exactly if that edge
-- is.
pub record GoesBackTo (e : TrustEntry) (seed : Frontier) : Type 0 where
  pub rest : List Bytes
  pub path : e.path ≡ seed.signer ∷ rest
  pub veto : e.veto_only ≡ seed.veto_only
  pub hops : (rest ≡ []) ⊎ (pos (length rest) ≤ℤ seed.depth_left)

module _ (unmarshal : Unmarshal) (store : Store) (active viewer : Bytes) where
  Explained-clear :
      {k : Bytes} {e : TrustEntry}
      → Explained unmarshal store active viewer k e
      → All (λ j. contains j (distrusted store active viewer) ≡ false) e.path
  Explained-clear (viewer_self same path veto) = rw path tt
  Explained-clear (walked f w free signer path veto) =
      rw (← path) (Walk-clear unmarshal store active viewer w (rw signer free))

  Explained-GoesBackTo :
      {k : Bytes} {e : TrustEntry}
      → Explained unmarshal store active viewer k e
      → ((k ≡ viewer) × (e.path ≡ []))
        ⊎ ((seed : Frontier) × In seed (seeds unmarshal store active viewer) × GoesBackTo e seed)
  Explained-GoesBackTo (viewer_self same path veto) = inl (same, path)
  Explained-GoesBackTo (walked f w free signer path veto) =
      let o = Walk-Origin unmarshal store active viewer w in
      inr (
        o.seed,
        o.seeded,
        record { rest = o.rest; path = cc (path, o.path); veto = cc (veto, o.veto); hops = o.hops },
      )

-- No path of the trust set leads through, or to, a signer that the viewer distrusts.
pub build_trust_set-undistrusted :
    (unmarshal : Unmarshal) (store : Store) (active viewer : Bytes) (m : TrustMap) (k : Bytes)
    (e : TrustEntry)
    → build_trust_set unmarshal store active viewer ≡ some m
    → In (k, e) m
    → All (λ j. contains j (distrusted store active viewer) ≡ false) e.path
build_trust_set-undistrusted unmarshal store active viewer m k e h i =
    Explained-clear unmarshal store active viewer
      (build_trust_set-Explained unmarshal store active viewer m h k e i)

-- Every entry but the viewer's goes back to one direct edge: its path begins with that edge's peer,
-- has at most as many further hops as the edge's depth, and the entry is limited to vetoes exactly
-- if the edge is.
pub build_trust_set-GoesBackTo :
    (unmarshal : Unmarshal) (store : Store) (active viewer : Bytes) (m : TrustMap) (k : Bytes)
    (e : TrustEntry)
    → build_trust_set unmarshal store active viewer ≡ some m
    → In (k, e) m
    → ((k ≡ viewer) × (e.path ≡ []))
      ⊎ ((seed : Frontier) × In seed (seeds unmarshal store active viewer) × GoesBackTo e seed)
build_trust_set-GoesBackTo unmarshal store active viewer m k e h i =
    Explained-GoesBackTo unmarshal store active viewer
      (build_trust_set-Explained unmarshal store active viewer m h k e i)
