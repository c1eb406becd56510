-- ===== src/Commands/Snapshot/Steps.antt =====
-- cmd/tillit/commands/export.go: what one step of an import does to the tables.
use tillit.Base.{
  Bytes, ◌==◌, ==_iff, false, Option, none, some, List, [], ◌∷◌, ◌++◌, any, ◌≡◌, refl, sym, ◌∙◌,
  arith, Bool-cases, Option-cases, inl, inr, if◌then◌else◌,
}
use tillit.Base.Keyed.{or_else, has_by, find_by-add, first_of_none, first_of_any}
use tillit.Localstore.{
  Key, Server, Peer, CachedSignature, CachedConnection, CachedUser, PushStateRow, to_seconds,
  option_to_seconds, save_cached_signature, save_cached_connection, save_cached_user, save_peer,
  put_peer, get_peer, record_push, get_cached_signature, get_cached_connection,
}
use tillit.Localstore.Settings.{
  put_key, save_key, get_key, set_active_key, get_active_key, put_server, save_server, get_server,
}
use tillit.Commands.Snapshot.{
  Import, import_key, import_active_key, import_peer, import_server, import_signature,
  import_connection, import_user, import_push, name_or_empty,
}

-- The forms in which rows are stored.
abbrev pub unsynced_peer : Peer → Peer
unsynced_peer p = record p { last_synced_at = none }

abbrev pub unsynced_server : Server → Server
unsynced_server v = record v { last_synced_at = none }

abbrev pub stored_signature : CachedSignature → CachedSignature
stored_signature r = record r {
  uploaded_at = to_seconds r.uploaded_at;
  revoked_at = option_to_seconds r.revoked_at;
  fetched_at = to_seconds r.fetched_at;
}

abbrev pub stored_connection : CachedConnection → CachedConnection
stored_connection c = record c {
  created_at = to_seconds c.created_at;
  revoked_at = option_to_seconds c.revoked_at;
  fetched_at = to_seconds c.fetched_at;
}

put_key-absent :
    (k : Key) (rows : List Key)
    → has_by (λ (r : Key). r.name) k.name rows ≡ false
    → put_key k rows ≡ rows ++ k ∷ []
unfolding any
put_key-absent k [] h = refl
put_key-absent k (r ∷ rows) h = ground (arith, put_key-absent k rows)

put_peer-absent :
    (p : Peer) (rows : List Peer)
    → has_by (λ (r : Peer). r.id) p.id rows ≡ false
    → put_peer p rows ≡ rows ++ unsynced_peer p ∷ []
unfolding any
put_peer-absent p [] h = refl
put_peer-absent p (r ∷ rows) h = ground (arith, put_peer-absent p rows)

put_server-absent :
    (v : Server) (rows : List Server)
    → has_by (λ (r : Server). r.url) v.url rows ≡ false
    → put_server v rows ≡ rows ++ unsynced_server v ∷ []
unfolding any
put_server-absent v [] h = refl
put_server-absent v (r ∷ rows) h = ground (arith, put_server-absent v rows)

-- One import of a key, a peer or a server: the first row of each key stays.
pub get_key-import_key :
    (name : Bytes) (x : Import) (k : Key)
    → get_key (import_key x k).0 name
      ≡ or_else (get_key x.0 name) (if k.name == name then some k else none)
unfolding import_key save_key get_key
get_key-import_key name (s, st) k =
    let law = find_by-add (λ (r : Key). r.name) (λ (r : Key). r) (λ r. refl) name s.keys k in
    elim (Bool-cases (has_by (λ (r : Key). r.name) k.name s.keys)) [
      | inl e ↦
          let (q, f) = first_of_any (λ (r : Key). r.name == k.name) s.keys e in
          rw (import_key, get_key, f) (rw (e) at law)
      | inr e ↦
          rw
            (
              import_key,
              get_key,
              first_of_none (λ (r : Key). r.name == k.name) s.keys e,
              save_key,
              put_key-absent k s.keys e,
            )
            (rw (e) at law)
    ]

pub get_peer-import_peer :
    (k : Bytes) (x : Import) (p : Peer)
    → get_peer (import_peer x p).0 k
      ≡ or_else (get_peer x.0 k) (if p.id == k then some (unsynced_peer p) else none)
unfolding import_peer save_peer get_peer
get_peer-import_peer k (s, st) p =
    let law = find_by-add (λ (r : Peer). r.id) unsynced_peer (λ r. refl) k s.peers p in
    elim (Bool-cases (has_by (λ (r : Peer). r.id) p.id s.peers)) [
      | inl e ↦
          let (q, f) = first_of_any (λ (r : Peer). r.id == p.id) s.peers e in
          rw (import_peer, get_peer, f) (rw (e) at law)
      | inr e ↦
          rw
            (
              import_peer,
              get_peer,
              first_of_none (λ (r : Peer). r.id == p.id) s.peers e,
              save_peer,
              put_peer-absent p s.peers e,
            )
            (rw (e) at law)
    ]

pub get_server-import_server :
    (k : Bytes) (x : Import) (p : Server)
    → get_server (import_server x p).0 k
      ≡ or_else (get_server x.0 k) (if p.url == k then some (unsynced_server p) else none)
unfolding import_server save_server get_server
get_server-import_server k (s, st) p =
    let law = find_by-add (λ (r : Server). r.url) unsynced_server (λ r. refl) k s.servers p in
    elim (Bool-cases (has_by (λ (r : Server). r.url) p.url s.servers)) [
      | inl e ↦
          let (q, f) = first_of_any (λ (r : Server). r.url == p.url) s.servers e in
          rw (import_server, get_server, f) (rw (e) at law)
      | inr e ↦
          rw
            (
              import_server,
              get_server,
              first_of_none (λ (r : Server). r.url == p.url) s.servers e,
              save_server,
              put_server-absent p s.servers e,
            )
            (rw (e) at law)
    ]

pub get_cached_signature-import_signature :
    (id : Bytes) (x : Import) (r : CachedSignature)
    → get_cached_signature (import_signature x r).0 id
      ≡ or_else
          (get_cached_signature x.0 id)
          (if r.id == id then some (stored_signature r) else none)
unfolding import_signature save_cached_signature get_cached_signature
get_cached_signature-import_signature id (s, st) r =
    let law =
      find_by-add (λ (q : CachedSignature). q.id) stored_signature (λ q. refl) id s.signatures r in
    elim (Bool-cases (has_by (λ (q : CachedSignature). q.id) r.id s.signatures)) [
      | inl e ↦
          rw (import_signature, save_cached_signature, e, get_cached_signature) (rw (e) at law)
      | inr e ↦
          rw (import_signature, save_cached_signature, e, get_cached_signature) (rw (e) at law)
    ]

pub get_cached_connection-import_connection :
    (id : Bytes) (x : Import) (r : CachedConnection)
    → get_cached_connection (import_connection x r).0 id
      ≡ or_else
          (get_cached_connection x.0 id)
          (if r.id == id then some (stored_connection r) else none)
unfolding import_connection save_cached_connection get_cached_connection
get_cached_connection-import_connection id (s, st) r =
    let law =
      find_by-add (λ (q : CachedConnection). q.id) stored_connection (λ q. refl) id s.connections
        r in
    elim (Bool-cases (has_by (λ (q : CachedConnection). q.id) r.id s.connections)) [
      | inl e ↦
          rw (import_connection, save_cached_connection, e, get_cached_connection) (rw (e) at law)
      | inr e ↦
          rw (import_connection, save_cached_connection, e, get_cached_connection) (rw (e) at law)
    ]

-- The tables that the loops over cached rows do not touch.
abbrev pub settings : Import → List Key × Option Bytes × List Peer × List Server
settings x = (x.0.keys, x.0.active_key, x.0.peers, x.0.servers)

pub settings-import_signature :
    (x : Import) (r : CachedSignature) → settings (import_signature x r) ≡ settings x
unfolding import_signature save_cached_signature
settings-import_signature (s, st) r =
    elim (Bool-cases (any (λ (q : CachedSignature). q.id == r.id) s.signatures)) [
      | inl e ↦ rw (import_signature, save_cached_signature, e) refl
      | inr e ↦ rw (import_signature, save_cached_signature, e) refl
    ]

pub settings-import_connection :
    (x : Import) (c : CachedConnection) → settings (import_connection x c) ≡ settings x
unfolding import_connection save_cached_connection
settings-import_connection (s, st) c =
    elim (Bool-cases (any (λ (q : CachedConnection). q.id == c.id) s.connections)) [
      | inl e ↦ rw (import_connection, save_cached_connection, e) refl
      | inr e ↦ rw (import_connection, save_cached_connection, e) refl
    ]

pub settings-import_user : (x : Import) (u : CachedUser) → settings (import_user x u) ≡ settings x
unfolding import_user save_cached_user
settings-import_user (s, st) u = refl

pub settings-import_push : (x : Import) (r : PushStateRow) → settings (import_push x r) ≡ settings x
unfolding import_push record_push
settings-import_push (s, st) r = refl

-- The cached rows that are found by their identifiers.
abbrev pub rows : Import → List CachedSignature × List CachedConnection
rows x = (x.0.signatures, x.0.connections)

pub rows-import_key : (x : Import) (k : Key) → rows (import_key x k) ≡ rows x
unfolding import_key save_key
rows-import_key (s, st) k = elim (Option-cases (get_key s k.name)) [
  | inl e ↦ rw (import_key, e, save_key) refl
  | inr (q, e) ↦ rw (import_key, e) refl
]

pub rows-import_active_key : (x : Import) (n : Bytes) → rows (import_active_key x n) ≡ rows x
unfolding import_active_key set_active_key
rows-import_active_key (s, st) n = elim (Bool-cases (n == [])) [
  | inl e ↦ rw (import_active_key, e) refl
  | inr e ↦ elim (Bool-cases (name_or_empty (get_active_key s) == [])) [
    | inl a ↦ rw (import_active_key, e, a, set_active_key) refl
    | inr a ↦ rw (import_active_key, e, a) refl
  ]
]

pub rows-import_peer : (x : Import) (p : Peer) → rows (import_peer x p) ≡ rows x
unfolding import_peer save_peer
rows-import_peer (s, st) p = elim (Option-cases (get_peer s p.id)) [
  | inl e ↦ rw (import_peer, e, save_peer) refl
  | inr (q, e) ↦ rw (import_peer, e) refl
]

pub rows-import_server : (x : Import) (v : Server) → rows (import_server x v) ≡ rows x
unfolding import_server save_server
rows-import_server (s, st) v = elim (Option-cases (get_server s v.url)) [
  | inl e ↦ rw (import_server, e, save_server) refl
  | inr (q, e) ↦ rw (import_server, e) refl
]

pub rows-import_user : (x : Import) (u : CachedUser) → rows (import_user x u) ≡ rows x
unfolding import_user save_cached_user
rows-import_user (s, st) u = refl

pub rows-import_push : (x : Import) (r : PushStateRow) → rows (import_push x r) ≡ rows x
unfolding import_push record_push
rows-import_push (s, st) r = refl

-- What the loops over settings keep of one another's tables.
pub keys-import_active_key : (x : Import) (n : Bytes) → (import_active_key x n).0.keys ≡ x.0.keys
unfolding import_active_key set_active_key
keys-import_active_key (s, st) n = ground arith

pub names-import_peer :
    (x : Import) (p : Peer)
    → ◌≡◌ {A = List Key × Option Bytes}
        ((import_peer x p).0.keys, (import_peer x p).0.active_key)
        (x.0.keys, x.0.active_key)
unfolding import_peer save_peer
names-import_peer (s, st) p = elim (Option-cases (get_peer s p.id)) [
  | inl e ↦ rw (import_peer, e, save_peer) refl
  | inr (q, e) ↦ rw (import_peer, e) refl
]

-- The tables that the loop over servers does not touch.
abbrev pub front : Import → List Key × Option Bytes × List Peer
front x = (x.0.keys, x.0.active_key, x.0.peers)

pub front-import_server : (x : Import) (v : Server) → front (import_server x v) ≡ front x
unfolding import_server save_server
front-import_server (s, st) v = elim (Option-cases (get_server s v.url)) [
  | inl e ↦ rw (import_server, e, save_server) refl
  | inr (q, e) ↦ rw (import_server, e) refl
]

pub peers-import_key : (x : Import) (k : Key) → (import_key x k).0.peers ≡ x.0.peers
unfolding import_key save_key
peers-import_key (s, st) k = ground arith

pub active-import_key : (x : Import) (k : Key) → (import_key x k).0.active_key ≡ x.0.active_key
unfolding import_key save_key
active-import_key (s, st) k = ground arith

pub peers-import_active_key : (x : Import) (n : Bytes) → (import_active_key x n).0.peers ≡ x.0.peers
unfolding import_active_key set_active_key
peers-import_active_key (s, st) n = ground arith

-- The tables of the other settings stand before the loop over servers.
abbrev pub servers : Import → List Server
servers x = x.0.servers

pub servers-import_key : (x : Import) (k : Key) → servers (import_key x k) ≡ servers x
unfolding import_key save_key
servers-import_key (s, st) k = ground arith

pub servers-import_active_key :
    (x : Import) (n : Bytes) → servers (import_active_key x n) ≡ servers x
unfolding import_active_key set_active_key
servers-import_active_key (s, st) n = ground arith

pub servers-import_peer : (x : Import) (p : Peer) → servers (import_peer x p) ≡ servers x
unfolding import_peer save_peer
servers-import_peer (s, st) p = ground arith

pub name-import_active_key :
    (x : Import) (n : Bytes)
    → name_or_empty (import_active_key x n).0.active_key
      ≡ (if name_or_empty x.0.active_key == [] then n else name_or_empty x.0.active_key)
unfolding import_active_key set_active_key get_active_key
name-import_active_key (s, st) n = elim (Bool-cases (n == [])) [
  | inl e ↦ elim (Bool-cases (name_or_empty s.active_key == [])) [
    | inl a ↦
        rw (import_active_key, e, a)
          ((==_iff (name_or_empty s.active_key) []).0 a ∙ sym ((==_iff n []).0 e))
    | inr a ↦ rw (import_active_key, e, a) refl
  ]
  | inr e ↦ elim (Bool-cases (name_or_empty s.active_key == [])) [
    | inl a ↦ rw (import_active_key, e, get_active_key, a, set_active_key) refl
    | inr a ↦ rw (import_active_key, e, get_active_key, a) refl
  ]
]

pub signatures-import_connection :
    (x : Import) (c : CachedConnection) → (import_connection x c).0.signatures ≡ x.0.signatures
unfolding import_connection save_cached_connection
signatures-import_connection (s, st) c = ground arith

pub connections-import_signature :
    (x : Import) (r : CachedSignature) → (import_signature x r).0.connections ≡ x.0.connections
unfolding import_signature save_cached_signature
connections-import_signature (s, st) r = ground arith
