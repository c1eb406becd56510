-- ===== src/Resolver/TrustSet/Examples.antt =====
-- resolver/trustset.go on a small store.
use tillit.Base.{
  Bytes, codes, ◌==◌, Bool, true, false, Option, none, some, List, [], ◌∷◌, In, here, there, ◌≡◌,
  refl, ◌⊎◌, All, ℤ, pos, if◌then◌else◌,
}
use tillit.Models.Payload.{Payload, Unmarshal, type_connection}
use tillit.Localstore.{Peer, CachedConnection, Store}
use tillit.Resolver.TrustSet.{
  TrustEntry, Frontier, TrustMap, build_trust_set, seeds, contains, distrusted, has_key,
  peer_frontier,
}
use tillit.Resolver.TrustSet.Loop.{build_trust_set_terminates}
use tillit.Resolver.TrustSet.Sound.{AllExplained, build_trust_set-Explained}
use tillit.Resolver.TrustSet.Limits.{
  GoesBackTo, build_trust_set-undistrusted, build_trust_set-GoesBackTo,
}
use tillit.Resolver.TrustSet.Direct.{HasDistinctKeys, build_trust_set-direct}

abbrev me : Bytes
me = codes "me"

abbrev alice : Bytes
alice = codes "alice"

abbrev bob : Bytes
bob = codes "bob"

abbrev mallory : Bytes
mallory = codes "mallory"

-- A payload by which `signer` trusts `other`.
abbrev trusts : Bytes → Bytes → Payload
trusts signer other = record {
  type = type_connection;
  signer = signer;
  ecosystem = [];
  package_id = [];
  level = [];
  reason = [];
  target_id = [];
  version = [];
  from_version = [];
  to_version = [];
  other_id = other;
  public = true;
  trust = true;
  trust_extends = pos 3;
}

abbrev parse : Unmarshal
parse text =
    if text == codes "to bob"
    then some (trusts alice bob)
    else if text == codes "to mallory"
    then some (trusts bob mallory)
    else none

abbrev row : Bytes → Bytes → Bytes → CachedConnection
row id signer payload = record {
  id = id;
  signer = signer;
  other_id = [];
  payload = payload;
  algorithm = [];
  sig = [];
  created_at = 0;
  revoked = false;
  revoked_at = none;
  fetched_at = 0;
}

abbrev peer : Bytes → Bool → Peer
peer id distrusted = record {
  id = id;
  server_url = [];
  trust_depth = pos 2;
  public = true;
  distrusted = distrusted;
  veto_only = true;
  last_synced_at = none;
}

-- I trust alice two levels deep, for vetoes only, and distrust mallory; alice trusts bob, bob mallory.
abbrev store : Store
store = record {
  keys = [];
  active_key = none;
  servers = [];
  peers = peer alice false ∷ peer mallory true ∷ [];
  signatures = [];
  connections =
      row (codes "1") alice (codes "to bob") ∷ row (codes "2") bob (codes "to mallory") ∷ [];
  users = [];
  push_state = [];
}

abbrev to_bob : TrustEntry
to_bob = record { path = alice ∷ bob ∷ []; veto_only = true }

abbrev trusted : TrustMap
trusted =
    (me, record { path = []; veto_only = false })
    ∷ (alice, record { path = alice ∷ []; veto_only = true })
    ∷ (bob, to_bob)
    ∷ []

found : build_trust_set parse store me me ≡ some trusted
unfolding build_trust_set tillit.Resolver.TrustSet.loop seeds tillit.Resolver.TrustSet.is_active
    ◌==◌ tillit.Base.keep tillit.Localstore.list_peers tillit.Base.sort tillit.Base.compare_bytes
    tillit.Resolver.TrustSet.enough_fuel tillit.Base.any distrusted peer_frontier has_key
    tillit.Resolver.TrustSet.start tillit.Resolver.TrustSet.expand
    tillit.Resolver.TrustSet.signer_outgoing tillit.Base.insert
    tillit.Localstore.get_cached_connections_by_signer tillit.Resolver.TrustSet.active_connections
    tillit.Resolver.TrustSet.conn_frontier tillit.Resolver.TrustSet.connection_targets
    tillit.Resolver.TrustSet.next_depth
found = refl

bob_found : In (bob, to_bob) trusted
bob_found = there (there (here refl))

build_trust_set_terminates_example : (m : TrustMap) × (build_trust_set parse store me me ≡ some m)
build_trust_set_terminates_example = build_trust_set_terminates parse store me me

build_trust_set-Explained_example : AllExplained parse store me me trusted
build_trust_set-Explained_example = build_trust_set-Explained parse store me me trusted found

build_trust_set-undistrusted_example :
    All (λ j. contains j (distrusted store me me) ≡ false) (alice ∷ bob ∷ [])
build_trust_set-undistrusted_example =
    build_trust_set-undistrusted parse store me me trusted bob to_bob found bob_found

build_trust_set-GoesBackTo_example :
    ((bob ≡ me) × (to_bob.path ≡ []))
    ⊎ ((seed : Frontier) × In seed (seeds parse store me me) × GoesBackTo to_bob seed)
build_trust_set-GoesBackTo_example =
    build_trust_set-GoesBackTo parse store me me trusted bob to_bob found bob_found

alice_queued : In (peer_frontier (peer alice false)) (seeds parse store me me)
unfolding seeds tillit.Resolver.TrustSet.is_active ◌==◌ tillit.Base.keep
    tillit.Localstore.list_peers tillit.Base.sort tillit.Base.compare_bytes
alice_queued = here refl

alice_free : contains (peer_frontier (peer alice false)).signer (distrusted store me me) ≡ false
unfolding tillit.Base.any distrusted tillit.Resolver.TrustSet.is_active ◌==◌ tillit.Base.keep
    tillit.Localstore.list_peers tillit.Base.sort tillit.Base.compare_bytes peer_frontier
alice_free = refl

build_trust_set-direct_example :
    (has_key (peer_frontier (peer alice false)).signer trusted ≡ true) × HasDistinctKeys trusted
build_trust_set-direct_example =
    build_trust_set-direct parse store me me trusted (peer_frontier (peer alice false)) found
      alice_queued alice_free
