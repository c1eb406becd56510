-- ===== src/Resolver/TrustSet.antt =====
-- resolver/trustset.go: the signers that a viewer trusts, found breadth first.
-- A Go map is an association list in the order of insertion. Depths may be negative, as `int`.
pub mod Walk
pub mod Loop
pub mod Sound
pub mod Limits
pub mod Direct
mod Examples
use tillit.Base.{
  Bytes, codes, ◌==◌, ℕ, zero, suc, ◌+◌, ℤ, pos, pred_ℤ, ltb_ℤ, leb_ℤ, Bool, true, false, not, ◌&&◌,
  Option, none, some, List, [], ◌∷◌, ◌++◌, length, keep, any, map, if◌then◌else◌,
}
use tillit.Models.Payload.{Payload, Unmarshal, type_connection, type_connection_revocation}
use tillit.Localstore.{Store, Peer, CachedConnection, list_peers, get_cached_connections_by_signer}

pub record TrustEntry : Type 0 where
  pub path : List Bytes
  pub veto_only : Bool

pub record Frontier : Type 0 where
  pub signer : Bytes
  pub path : List Bytes
  pub depth_left : ℤ
  pub veto_only : Bool

pub record OutgoingConn : Type 0 where
  pub other_id : Bytes
  pub trust_extends : ℤ

-- The trust set: each signer with its entry.
abbrev pub TrustMap : Type 0
TrustMap = List (Bytes × TrustEntry)

pub has_key : Bytes → TrustMap → Bool
has_key k m = any (λ e. e.0 == k) m

abbrev pub contains : Bytes → List Bytes → Bool
contains k ks = any (λ j. j == k) ks

-- `viewer == r.activeUserID && r.activeUserID != ""`
pub is_active : Bytes → Bytes → Bool
is_active active viewer = viewer == active && not (active == [])

-- The identifiers of the peers that the active user distrusts.
pub distrusted : Store → Bytes → Bytes → List Bytes
distrusted store active viewer =
    if is_active active viewer
    then map (λ (p : Peer). p.id) (keep (λ p. p.distrusted) (list_peers store))
    else []

pub peer_frontier : Peer → Frontier
peer_frontier p = record {
  signer = p.id;
  path = p.id ∷ [];
  depth_left = p.trust_depth;
  veto_only = p.veto_only;
}

pub conn_frontier : OutgoingConn → Frontier
conn_frontier c = record {
  signer = c.other_id;
  path = c.other_id ∷ [];
  depth_left = c.trust_extends;
  veto_only = false;
}

-- min(f.depthLeft - 1, c.TrustExtends)
pub next_depth : ℤ → ℤ → ℤ
next_depth left extends = if ltb_ℤ extends (pred_ℤ left) then extends else pred_ℤ left

-- The frontiers behind `f`, over its connections.
pub expand : List Bytes → Frontier → List OutgoingConn → List Frontier
expand banned f [] = []
expand banned f (c ∷ cs) =
    if contains c.other_id banned
    then expand banned f cs
    else record {
      signer = c.other_id;
      path = f.path ++ c.other_id ∷ [];
      depth_left = next_depth f.depth_left c.trust_extends;
      veto_only = f.veto_only;
    }
      ∷ expand banned f cs

-- The viewer trusts himself, if there is one.
pub start : Bytes → TrustMap
start viewer = if viewer == [] then [] else (viewer, record { path = []; veto_only = false }) ∷ []

module _ (unmarshal : Unmarshal) where
  -- The identifiers that a signer's connection revocations name.
  pub connection_targets : List CachedConnection → List Bytes
  connection_targets [] = []
  connection_targets (r ∷ rows) = elim (unmarshal r.payload) [
    | none ↦ connection_targets rows
    | some p ↦
        if p.type == type_connection_revocation
        then p.target_id ∷ connection_targets rows
        else connection_targets rows
  ]

  -- The second loop of signerOutgoing.
  pub active_connections : List Bytes → List CachedConnection → List OutgoingConn
  active_connections revoked [] = []
  active_connections revoked (r ∷ rows) =
      if contains r.id revoked
      then active_connections revoked rows
      else elim (unmarshal r.payload) [
        | none ↦ active_connections revoked rows
        | some p ↦
            if not (p.type == type_connection && p.trust)
            then active_connections revoked rows
            else record { other_id = p.other_id; trust_extends = p.trust_extends }
              ∷ active_connections revoked rows
      ]

module _ (unmarshal : Unmarshal) (store : Store) where
  pub signer_outgoing : Bytes → List OutgoingConn
  signer_outgoing signer =
      let rows = get_cached_connections_by_signer store signer in
      active_connections unmarshal (connection_targets unmarshal rows) rows

  module _ (active : Bytes) where
    -- The queue that the direct edges seed.
    pub seeds : Bytes → List Frontier
    seeds viewer =
        if is_active active viewer
        then map peer_frontier (keep (λ p. not p.distrusted) (list_peers store))
        else map conn_frontier (signer_outgoing viewer)

    -- The `for len(queue) > 0` loop on fuel; `none` means that the fuel ran out.
    pub loop : ℕ → List Bytes → TrustMap → List Frontier → Option TrustMap
    loop fuel banned result [] = some result
    loop zero banned result (f ∷ queue) = none
    loop (suc fuel) banned result (f ∷ queue) =
        let rest = loop fuel banned result queue in
        let recorded : TrustMap =
          result ++ (f.signer, record { path = f.path; veto_only = f.veto_only }) ∷ [] in
        let last = loop fuel banned recorded queue in
        let further =
          loop fuel banned recorded (queue ++ expand banned f (signer_outgoing f.signer)) in
        if contains f.signer banned
        then rest
        else if has_key f.signer result
        then rest
        else if leb_ℤ f.depth_left (pos 0)
        then last
        else further

    -- Enough rounds: each one takes a frontier off the queue, and a connection adds at most one.
    pub enough_fuel : Bytes → ℕ
    enough_fuel viewer = length (seeds viewer) + length store.connections

    pub build_trust_set : Bytes → Option TrustMap
    build_trust_set viewer =
        loop (enough_fuel viewer) (distrusted store active viewer) (start viewer) (seeds viewer)
