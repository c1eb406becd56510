-- ===== src/Commands/Snapshot/RoundTrip.antt =====
-- cmd/tillit/commands/export.go: importing what was exported.
use tillit.Base.{Bytes, ◌==◌, ℕ, first, none, some, [], ◌≡◌, refl, sym, ◌∙◌, ap}
use tillit.Base.Keyed.{find_by-sort, HasDistinct, as_stored, or_else-none}
use tillit.Models.Payload.{Unmarshal}
use tillit.Localstore.{
  Store, Key, Server, Peer, CachedSignature, CachedConnection, CachedUser, ItemType,
  get_cached_user, get_peer, list_peers, get_cached_signature, get_cached_connection,
}
use tillit.Localstore.Settings.{get_key, list_keys, get_active_key, get_server, list_servers}
use tillit.Localstore.Listing.{
  list_all_cached_signatures, list_all_cached_connections, list_cached_users, list_all_push_state,
}
use tillit.Commands.Snapshot.{
  ExportDoc, scope_all, KeyTools, name_or_empty, build_export_doc, export_identity, add_rows,
  apply_import,
}
use tillit.Commands.Snapshot.Merge.{
  merged_keys, merged_active_key, merged_peers, merged_servers, merged_signatures,
  merged_connections,
}
use tillit.Commands.Snapshot.Overwrites.{
  stored_user, stored_push, find_push, overwritten_users, overwritten_pushes, HasDistinct-IsOnce,
  AreDistinctPushes, AreDistinctPushes-IsOnce,
}
use tillit.Commands.Snapshot.Steps.{
  unsynced_peer, unsynced_server, stored_signature, stored_connection,
}

-- A new store.
abbrev pub empty_store : Store
empty_store = record {
  keys = [];
  active_key = none;
  servers = [];
  peers = [];
  signatures = [];
  connections = [];
  users = [];
  push_state = [];
}

-- No table holds a key twice, as those of primary keys do not.
pub record HasDistinctRows (s : Store) : Type 0 where
  pub keys : HasDistinct (λ (k : Key). k.name) s.keys
  pub peers : HasDistinct (λ (p : Peer). p.id) s.peers
  pub servers : HasDistinct (λ (v : Server). v.url) s.servers
  pub signatures : HasDistinct (λ (r : CachedSignature). r.id) s.signatures
  pub connections : HasDistinct (λ (c : CachedConnection). c.id) s.connections
  pub users : HasDistinct (λ (u : CachedUser). u.id) s.users
  pub push_state : AreDistinctPushes s.push_state

-- The other store holds the same rows, in the form they are stored in.
pub record IsRestored (s t : Store) : Type 0 where
  pub keys : (n : Bytes) → get_key t n ≡ get_key s n
  pub active_key : name_or_empty t.active_key ≡ name_or_empty s.active_key
  pub peers : (id : Bytes) → get_peer t id ≡ as_stored unsynced_peer (get_peer s id)
  pub servers : (url : Bytes) → get_server t url ≡ as_stored unsynced_server (get_server s url)
  pub signatures :
      (id : Bytes)
      → get_cached_signature t id ≡ as_stored stored_signature (get_cached_signature s id)
  pub connections :
      (id : Bytes)
      → get_cached_connection t id ≡ as_stored stored_connection (get_cached_connection s id)
  pub users : (id : Bytes) → get_cached_user t id ≡ as_stored stored_user (get_cached_user s id)
  pub push_state :
      (id : Bytes) (type : ItemType) (url : Bytes)
      → find_push t id type url ≡ as_stored stored_push (find_push s id type url)

-- A full export succeeds, and imported into a new store it restores every key, the active key, every
-- peer and server but for the times of the last sync, every cached signature, connection and user, and
-- every push. Times are kept in whole seconds, and no table of the store holds a key twice.
pub import-export :
    (unmarshal : Unmarshal) (tools : KeyTools) (s : Store) (now : ℕ)
    → HasDistinctRows s
    → (doc : ExportDoc) × (build_export_doc unmarshal tools s scope_all [] now ≡ some doc)
      × IsRestored s (apply_import empty_store doc).0
unfolding build_export_doc export_identity add_rows list_keys list_peers list_servers
    list_all_cached_signatures list_all_cached_connections list_cached_users list_all_push_state
    get_cached_user get_key get_peer get_server get_cached_signature get_cached_connection
    get_active_key ◌==◌ first
import-export unmarshal tools s now u = (
  _,
  refl,
  record {
    keys = λ n. merged_keys empty_store _ n ∙ find_by-sort (λ (k : Key). k.name) _ n s.keys u.keys;
    active_key = merged_active_key empty_store _;
    peers = λ id.
        merged_peers empty_store _ id
        ∙ ap (as_stored unsynced_peer) (find_by-sort (λ (p : Peer). p.id) _ id s.peers u.peers);
    servers = λ url.
        merged_servers empty_store _ url
        ∙ ap (as_stored unsynced_server)
            (find_by-sort (λ (v : Server). v.url) _ url s.servers u.servers);
    signatures = λ id.
        merged_signatures empty_store _ id
        ∙ ap (as_stored stored_signature)
            (find_by-sort (λ (r : CachedSignature). r.id) _ id s.signatures u.signatures);
    connections = λ id.
        merged_connections empty_store _ id
        ∙ ap (as_stored stored_connection)
            (find_by-sort (λ (c : CachedConnection). c.id) _ id s.connections u.connections);
    users = λ id.
        overwritten_users empty_store _ id (HasDistinct-IsOnce id s.users u.users)
        ∙ sym (or_else-none _);
    push_state = λ id type url.
        overwritten_pushes empty_store _ id type url
          (AreDistinctPushes-IsOnce id type url s.push_state u.push_state)
        ∙ sym (or_else-none _);
  },
)
