-- ===== src/Commands/Snapshot/Merge.antt =====
-- cmd/tillit/commands/export.go: what an import leaves in each table.
use tillit.Base.{Bytes, ◌==◌, List, [], ◌≡◌, ◌∙◌, ap, if◌then◌else◌}
use tillit.Base.Keyed.{or_else, as_stored_id, each, each-field, find_by, as_stored, get-each}
use tillit.Localstore.{
  Store, Key, Server, Peer, CachedSignature, CachedConnection, get_peer, get_cached_signature,
  get_cached_connection,
}
use tillit.Localstore.Settings.{get_key, get_server}
use tillit.Commands.Snapshot.{
  ExportDoc, name_or_empty, Import, import_key, import_peer, import_server, import_signature,
  import_connection, import_user, import_push, import_settings, import_rows, apply_import, no_stats,
}
use tillit.Commands.Snapshot.Steps.{
  unsynced_peer, unsynced_server, stored_signature, stored_connection, get_key-import_key,
  get_peer-import_peer, get_server-import_server, get_cached_signature-import_signature,
  get_cached_connection-import_connection, settings, settings-import_signature,
  settings-import_connection, settings-import_user, settings-import_push, rows, rows-import_key,
  rows-import_active_key, signatures-import_connection, connections-import_signature,
  rows-import_peer, rows-import_server, rows-import_user, rows-import_push, keys-import_active_key,
  names-import_peer, front, front-import_server, peers-import_key, active-import_key,
  peers-import_active_key, servers, servers-import_key, servers-import_active_key,
  servers-import_peer, name-import_active_key,
}

settings-import_rows : (i : Import) (doc : ExportDoc) → settings (import_rows i doc) ≡ settings i
unfolding import_rows
settings-import_rows i doc =
    each-field import_push settings settings-import_push _ doc.push_state
    ∙ each-field import_user settings settings-import_user _ doc.cached_users
    ∙ each-field import_connection settings settings-import_connection _ doc.cached_connections
    ∙ each-field import_signature settings settings-import_signature i doc.cached_signatures

rows-import_settings : (i : Import) (doc : ExportDoc) → rows (import_settings i doc) ≡ rows i
unfolding import_settings
rows-import_settings i doc =
    each-field import_server rows rows-import_server _ doc.servers
    ∙ each-field import_peer rows rows-import_peer _ doc.peers
    ∙ rows-import_active_key _ doc.active_key
    ∙ each-field import_key rows rows-import_key i doc.keys

front-import_rows : (i : Import) (doc : ExportDoc) → front (import_rows i doc) ≡ front i
front-import_rows i doc = ap (λ v. (v.0, v.1, v.2)) (settings-import_rows i doc)

-- What the store holds after an import: of each table the rows of before, and behind them those of
-- the document; a peer's and a server's time of the last sync is not taken over.
pub record IsMerged (s : Store) (doc : ExportDoc) (t : Store) : Type 0 where
  pub keys :
      (n : Bytes) → get_key t n ≡ or_else (get_key s n) (find_by (λ (k : Key). k.name) n doc.keys)
  pub active_key :
      name_or_empty t.active_key
      ≡ (if name_or_empty s.active_key == [] then doc.active_key else name_or_empty s.active_key)
  pub peers :
      (id : Bytes)
      → get_peer t id
        ≡ or_else
            (get_peer s id)
            (as_stored unsynced_peer (find_by (λ (p : Peer). p.id) id doc.peers))
  pub servers :
      (url : Bytes)
      → get_server t url
        ≡ or_else
            (get_server s url)
            (as_stored unsynced_server (find_by (λ (v : Server). v.url) url doc.servers))
  pub signatures :
      (id : Bytes)
      → get_cached_signature t id
        ≡ or_else (get_cached_signature s id) (
            as_stored stored_signature
              (find_by (λ (r : CachedSignature). r.id) id doc.cached_signatures))
  pub connections :
      (id : Bytes)
      → get_cached_connection t id
        ≡ or_else (get_cached_connection s id) (
            as_stored stored_connection
              (find_by (λ (c : CachedConnection). c.id) id doc.cached_connections))

module _ (s : Store) (doc : ExportDoc) where
  pub merged_keys :
      (n : Bytes)
      → get_key (apply_import s doc).0 n
        ≡ or_else (get_key s n) (find_by (λ (k : Key). k.name) n doc.keys)
  unfolding apply_import import_settings get_key
  merged_keys n =
      ap (λ v. find_by (λ (k : Key). k.name) n v.0)
        (settings-import_rows (import_settings (s, no_stats) doc) doc)
      ∙ ap (λ v. find_by (λ (k : Key). k.name) n v.0)
          (each-field import_server front front-import_server _ doc.servers)
      ∙ ap (λ v. find_by (λ (k : Key). k.name) n v.0)
          (each-field import_peer _ names-import_peer _ doc.peers)
      ∙ ap (λ ks. find_by (λ (k : Key). k.name) n ks)
          (keys-import_active_key (each import_key (s, no_stats) doc.keys) doc.active_key)
      ∙ get-each (λ (k : Key). k.name) (λ (x : Import). get_key x.0 n) (λ (k : Key). k) n import_key
          (get_key-import_key n) (s, no_stats) doc.keys
      ∙ ap (λ o. or_else (get_key s n) o) (as_stored_id (find_by (λ (k : Key). k.name) n doc.keys))

  pub merged_active_key :
      name_or_empty (apply_import s doc).0.active_key
      ≡ (if name_or_empty s.active_key == [] then doc.active_key else name_or_empty s.active_key)
  unfolding apply_import import_settings
  merged_active_key =
      ap (λ v. name_or_empty v.1) (settings-import_rows (import_settings (s, no_stats) doc) doc)
      ∙ ap (λ v. name_or_empty v.1)
          (each-field import_server front front-import_server _ doc.servers)
      ∙ ap (λ v. name_or_empty v.1) (each-field import_peer _ names-import_peer _ doc.peers)
      ∙ name-import_active_key (each import_key (s, no_stats) doc.keys) doc.active_key
      ∙ ap (λ a. if name_or_empty a == [] then doc.active_key else name_or_empty a)
          (each-field import_key (λ (x : Import). x.0.active_key) active-import_key (s, no_stats)
            doc.keys)

  pub merged_peers :
      (id : Bytes)
      → get_peer (apply_import s doc).0 id
        ≡ or_else
            (get_peer s id)
            (as_stored unsynced_peer (find_by (λ (p : Peer). p.id) id doc.peers))
  unfolding apply_import import_settings get_peer
  merged_peers id =
      let found = λ (ps : List Peer). find_by (λ (p : Peer). p.id) id ps in
      ap (λ v. found v.2) (settings-import_rows (import_settings (s, no_stats) doc) doc)
      ∙ ap (λ v. found v.2) (each-field import_server front front-import_server _ doc.servers)
      ∙ get-each (λ (p : Peer). p.id) (λ (x : Import). get_peer x.0 id) unsynced_peer id import_peer
          (get_peer-import_peer id) _ doc.peers
      ∙ ap (λ ps. or_else (found ps) (as_stored unsynced_peer (found doc.peers)))
          (peers-import_active_key (each import_key (s, no_stats) doc.keys) doc.active_key
            ∙ each-field import_key (λ (x : Import). x.0.peers) peers-import_key (s, no_stats)
                doc.keys)

  pub merged_servers :
      (url : Bytes)
      → get_server (apply_import s doc).0 url
        ≡ or_else
            (get_server s url)
            (as_stored unsynced_server (find_by (λ (v : Server). v.url) url doc.servers))
  unfolding apply_import import_settings get_server
  merged_servers url =
      let found = λ (vs : List Server). find_by (λ (v : Server). v.url) url vs in
      ap (λ v. found v.3) (settings-import_rows (import_settings (s, no_stats) doc) doc)
      ∙ get-each (λ (v : Server). v.url) (λ (x : Import). get_server x.0 url) unsynced_server url
          import_server (get_server-import_server url) _ doc.servers
      ∙ ap (λ vs. or_else (found vs) (as_stored unsynced_server (found doc.servers)))
          (each-field import_peer servers servers-import_peer _ doc.peers
            ∙ servers-import_active_key (each import_key (s, no_stats) doc.keys) doc.active_key
            ∙ each-field import_key servers servers-import_key (s, no_stats) doc.keys)

  pub merged_signatures :
      (id : Bytes)
      → get_cached_signature (apply_import s doc).0 id
        ≡ or_else (get_cached_signature s id) (
            as_stored stored_signature
              (find_by (λ (r : CachedSignature). r.id) id doc.cached_signatures))
  unfolding apply_import import_rows get_cached_signature
  merged_signatures id =
      let found = λ (rs : List CachedSignature). find_by (λ (r : CachedSignature). r.id) id rs in
      ap (λ v. found v.0) (each-field import_push rows rows-import_push _ doc.push_state)
      ∙ ap (λ v. found v.0) (each-field import_user rows rows-import_user _ doc.cached_users)
      ∙ ap found (
          each-field import_connection (λ (x : Import). x.0.signatures) signatures-import_connection
            _ doc.cached_connections)
      ∙ get-each (λ (r : CachedSignature). r.id) (λ (x : Import). get_cached_signature x.0 id)
          stored_signature id import_signature (get_cached_signature-import_signature id) _
          doc.cached_signatures
      ∙ ap (λ v. or_else (found v.0) (as_stored stored_signature (found doc.cached_signatures)))
          (rows-import_settings (s, no_stats) doc)

  pub merged_connections :
      (id : Bytes)
      → get_cached_connection (apply_import s doc).0 id
        ≡ or_else (get_cached_connection s id) (
            as_stored stored_connection
              (find_by (λ (c : CachedConnection). c.id) id doc.cached_connections))
  unfolding apply_import import_rows get_cached_connection
  merged_connections id =
      let found = λ (cs : List CachedConnection). find_by (λ (c : CachedConnection). c.id) id cs in
      ap (λ v. found v.1) (each-field import_push rows rows-import_push _ doc.push_state)
      ∙ ap (λ v. found v.1) (each-field import_user rows rows-import_user _ doc.cached_users)
      ∙ get-each (λ (c : CachedConnection). c.id) (λ (x : Import). get_cached_connection x.0 id)
          stored_connection id import_connection (get_cached_connection-import_connection id) _
          doc.cached_connections
      ∙ ap (λ cs. or_else (found cs) (as_stored stored_connection (found doc.cached_connections)))
          (each-field import_signature (λ (x : Import). x.0.connections)
              connections-import_signature _ doc.cached_signatures
            ∙ ap (λ v. v.1) (rows-import_settings (s, no_stats) doc))

-- An import adds and never replaces: of the keys, peers, servers, cached signatures and cached
-- connections, what the store holds under a name or identifier stays, and else the document's first
-- row of it comes in. The active key is set if there was none.
-- Cached users and pushes are not covered.
pub apply_import-IsMerged : (s : Store) (doc : ExportDoc) → IsMerged s doc (apply_import s doc).0
apply_import-IsMerged s doc = record {
  keys = merged_keys s doc;
  active_key = merged_active_key s doc;
  peers = merged_peers s doc;
  servers = merged_servers s doc;
  signatures = merged_signatures s doc;
  connections = merged_connections s doc;
}
