-- ===== src/Sync/Examples.antt =====
-- cmd/tillit/commands/sync.go: one peer, with a key that signs by repeating the text.
use tillit.Base.{
  Bytes, codes, ◌==◌, Bool, true, false, Option, none, some, List, [], ◌∷◌, ◌≡◌, refl, length, pos,
  if◌then◌else◌,
}
use tillit.Localstore.{Peer, Store}
use tillit.Server.Database.{User, Connection}
use tillit.Sync.{Keys, Servers, sync}
use tillit.Sync.Provenance.{IsAccounted, sync-IsAccounted}

abbrev toy : Keys
toy = record {
  decode_base64 = λ text. some text;
  encode_base64 = λ text. text;
  sha256 = λ text. text;
  new_verifier = λ algorithm key. some (λ text sig. text == sig);
}

abbrev alice : User
alice = record {
  id = codes "alice";
  username = [];
  pubkey = codes "alice";
  algorithm = codes "toy";
  is_admin = false;
}

-- A connection of Alice's with this signature.
abbrev sent : Bytes → Connection
sent sig = record {
  id = sig;
  owner = codes "alice";
  other_id = codes "bob";
  public = true;
  trust = true;
  trust_extends = pos 0;
  payload = codes "text";
  algorithm = codes "toy";
  sig = sig;
  created_at = 0;
  revoked = false;
  revoked_at = none;
}

-- The second connection's signature is wrong.
abbrev servers : Servers
servers = record {
  fetch_user = λ url id. some alice;
  fetch_user_connections = λ url id since. some (sent (codes "text") ∷ sent (codes "forged") ∷ []);
  fetch_user_signatures = λ url id since. none;
}

abbrev peer : Peer
peer = record {
  id = codes "alice";
  server_url = codes "url";
  trust_depth = pos 0;
  public = true;
  distrusted = false;
  veto_only = false;
  last_synced_at = none;
}

abbrev store : Store
store = record {
  keys = [];
  active_key = none;
  servers = [];
  peers = peer ∷ [];
  signatures = [];
  connections = [];
  users = [];
  push_state = [];
}

one_cached : length (sync toy servers store 0).connections ≡ 1
unfolding sync tillit.Sync.sync_peers tillit.Localstore.list_peers tillit.Base.sort
    tillit.Sync.sync_peer tillit.Localstore.get_cached_user tillit.Base.first
    tillit.Sync.fetch_and_cache_pubkey ◌==◌ tillit.Sync.fetch_signatures
    tillit.Sync.fetch_connections tillit.Sync.cache_connections tillit.Sync.verify_signed
    tillit.Localstore.save_cached_user tillit.Sync.verify_bytes
    tillit.Localstore.save_cached_connection tillit.Base.any tillit.Base.insert
    tillit.Base.compare_bytes tillit.Localstore.save_cached_signature
    tillit.Localstore.set_peer_last_synced_at tillit.Sync.cache_signatures
one_cached = refl

sync-IsAccounted_example : IsAccounted toy store (sync toy servers store 0)
sync-IsAccounted_example = sync-IsAccounted toy servers store 0
