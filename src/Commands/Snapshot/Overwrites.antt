-- ===== src/Commands/Snapshot/Overwrites.antt =====
-- cmd/tillit/commands/export.go: the tables whose rows an import overwrites, those of cached users and
-- of pushes.
use tillit.Base.{
  Bytes, ◌==◌, ==_iff, Bool, false, ◌&&◌, Option, some, List, [], ◌∷◌, any, first, ◌≡◌, refl, ◌∙◌,
  ap, arith, Bool-cases, Option-cases, inl, inr, if◌then◌else◌,
}
use tillit.Base.Keyed.{or_else, as_stored, each, each-field, IsOnce, get-each_over, HasDistinct}
use tillit.Localstore.{
  Store, Key, Server, Peer, CachedSignature, CachedConnection, CachedUser, PushStateRow, ItemType,
  to_seconds, save_cached_signature, save_cached_connection, save_cached_user, put_user, save_peer,
  get_peer, record_push, get_cached_user,
}
use tillit.Localstore.Settings.{
  save_key, get_key, set_active_key, get_active_key, save_server, get_server,
}
use tillit.Localstore.Pushes.{first-put_push}
use tillit.Commands.Snapshot.{
  ExportDoc, Import, import_key, import_active_key, import_peer, import_server, import_signature,
  import_connection, import_user, import_push, import_settings, import_rows, apply_import, no_stats,
  name_or_empty,
}

-- The forms in which the rows are stored.
abbrev pub stored_user : CachedUser → CachedUser
stored_user u = record u { fetched_at = to_seconds u.fetched_at }

abbrev pub stored_push : PushStateRow → PushStateRow
stored_push r = record r { pushed_at = to_seconds r.pushed_at }

-- The row is of this item and this server.
abbrev pub is_push : Bytes → ItemType → Bytes → PushStateRow → Bool
is_push id type url r = r.item_id == id && (r.item_type == type && r.server_url == url)

-- The push of an item to a server, with its time.
abbrev pub find_push : Store → Bytes → ItemType → Bytes → Option PushStateRow
find_push s id type url = first (is_push id type url) s.push_state

first-put_user :
    (u : CachedUser) (id : Bytes) (rows : List CachedUser)
    → first (λ q. q.id == id) (put_user u rows)
      ≡ (if u.id == id then some u else first (λ q. q.id == id) rows)
unfolding first
first-put_user u id [] = refl
first-put_user u id (q ∷ rows) = elim (Bool-cases (q.id == u.id)) [
  | inl e ↦
      let same : q.id ≡ u.id = (==_iff q.id u.id).0 e in
      elim (Bool-cases (u.id == id)) [
        | inl t ↦ rw (e, first, t) refl
        | inr t ↦ rw (e, first, same, t) refl
      ]
  | inr e ↦ elim (Bool-cases (q.id == id)) [
    | inl t ↦
        let other : (u.id == id) ≡ false = apart (rw ((==_iff q.id id).0 t) at e) in
        rw (e, first, t, other) refl
    | inr t ↦ rw (e, first, t, first-put_user u id rows) refl
  ]
]
  where
    apart : (id == u.id) ≡ false → (u.id == id) ≡ false
    apart h = elim (Bool-cases (u.id == id)) [
      | inr f ↦ f
      | inl t ↦ absurd (ground (arith, ==_iff u.id id, ==_iff id u.id))
    ]

get_cached_user-import_user :
    (id : Bytes) (x : Import) (u : CachedUser)
    → get_cached_user (import_user x u).0 id
      ≡ (if u.id == id then some (stored_user u) else get_cached_user x.0 id)
unfolding import_user save_cached_user get_cached_user
get_cached_user-import_user id (s, st) u = first-put_user (stored_user u) id s.users

find_push-import_push :
    (id : Bytes) (type : ItemType) (url : Bytes) (x : Import) (r : PushStateRow)
    → find_push (import_push x r).0 id type url
      ≡ (if is_push id type url r then some (stored_push r) else find_push x.0 id type url)
unfolding import_push record_push
find_push-import_push id type url (s, st) r =
    first-put_push (stored_push r) id type url s.push_state

-- What the other loops leave alone.
abbrev overwritten : Import → List CachedUser × List PushStateRow
overwritten x = (x.0.users, x.0.push_state)

overwritten-import_key : (x : Import) (k : Key) → overwritten (import_key x k) ≡ overwritten x
unfolding import_key save_key
overwritten-import_key (s, st) k = elim (Option-cases (get_key s k.name)) [
  | inl e ↦ rw (import_key, e, save_key) refl
  | inr (q, e) ↦ rw (import_key, e) refl
]

overwritten-import_active_key :
    (x : Import) (n : Bytes) → overwritten (import_active_key x n) ≡ overwritten x
unfolding import_active_key set_active_key
overwritten-import_active_key (s, st) n = elim (Bool-cases (n == [])) [
  | inl e ↦ rw (import_active_key, e) refl
  | inr e ↦ elim (Bool-cases (name_or_empty (get_active_key s) == [])) [
    | inl a ↦ rw (import_active_key, e, a, set_active_key) refl
    | inr a ↦ rw (import_active_key, e, a) refl
  ]
]

overwritten-import_peer : (x : Import) (p : Peer) → overwritten (import_peer x p) ≡ overwritten x
unfolding import_peer save_peer
overwritten-import_peer (s, st) p = elim (Option-cases (get_peer s p.id)) [
  | inl e ↦ rw (import_peer, e, save_peer) refl
  | inr (q, e) ↦ rw (import_peer, e) refl
]

overwritten-import_server :
    (x : Import) (v : Server) → overwritten (import_server x v) ≡ overwritten x
unfolding import_server save_server
overwritten-import_server (s, st) v = elim (Option-cases (get_server s v.url)) [
  | inl e ↦ rw (import_server, e, save_server) refl
  | inr (q, e) ↦ rw (import_server, e) refl
]

overwritten-import_signature :
    (x : Import) (r : CachedSignature) → overwritten (import_signature x r) ≡ overwritten x
unfolding import_signature save_cached_signature
overwritten-import_signature (s, st) r =
    elim (Bool-cases (any (λ (q : CachedSignature). q.id == r.id) s.signatures)) [
      | inl e ↦ rw (import_signature, save_cached_signature, e) refl
      | inr e ↦ rw (import_signature, save_cached_signature, e) refl
    ]

overwritten-import_connection :
    (x : Import) (c : CachedConnection) → overwritten (import_connection x c) ≡ overwritten x
unfolding import_connection save_cached_connection
overwritten-import_connection (s, st) c =
    elim (Bool-cases (any (λ (q : CachedConnection). q.id == c.id) s.connections)) [
      | inl e ↦ rw (import_connection, save_cached_connection, e) refl
      | inr e ↦ rw (import_connection, save_cached_connection, e) refl
    ]

users-import_push : (x : Import) (r : PushStateRow) → (import_push x r).0.users ≡ x.0.users
unfolding import_push record_push
users-import_push (s, st) r = refl

pushes-import_user : (x : Import) (u : CachedUser) → (import_user x u).0.push_state ≡ x.0.push_state
unfolding import_user save_cached_user
pushes-import_user (s, st) u = refl

module _ (s : Store) (doc : ExportDoc) where
  abbrev before : Import
  before =
      each import_connection
        (each import_signature (import_settings (s, no_stats) doc) doc.cached_signatures)
        doc.cached_connections

  overwritten-before : overwritten before ≡ overwritten (s, no_stats)
  unfolding import_settings
  overwritten-before =
      each-field import_connection overwritten overwritten-import_connection _
        doc.cached_connections
      ∙ each-field import_signature overwritten overwritten-import_signature _ doc.cached_signatures
      ∙ each-field import_server overwritten overwritten-import_server _ doc.servers
      ∙ each-field import_peer overwritten overwritten-import_peer _ doc.peers
      ∙ overwritten-import_active_key (each import_key (s, no_stats) doc.keys) doc.active_key
      ∙ each-field import_key overwritten overwritten-import_key (s, no_stats) doc.keys

  -- A cached user of the document, if it has one of this id at most, comes in whatever was there.
  pub overwritten_users :
      (id : Bytes)
      → IsOnce (λ (u : CachedUser). u.id == id) doc.cached_users
      → get_cached_user (apply_import s doc).0 id
        ≡ or_else
            (as_stored stored_user (first (λ (u : CachedUser). u.id == id) doc.cached_users))
            (get_cached_user s id)
  unfolding apply_import import_rows get_cached_user
  overwritten_users id once =
      let found = λ (us : List CachedUser). first (λ (u : CachedUser). u.id == id) us in
      ap found
        (each-field import_push (λ (x : Import). x.0.users) users-import_push _ doc.push_state)
      ∙ get-each_over (λ (u : CachedUser). u.id == id) (λ (x : Import). get_cached_user x.0 id)
          stored_user import_user (get_cached_user-import_user id) before doc.cached_users once
      ∙ ap (λ v. or_else (as_stored stored_user (found doc.cached_users)) (found v.0))
          overwritten-before

  -- So does a push, if the document has one of this item to this server at most.
  pub overwritten_pushes :
      (id : Bytes) (type : ItemType) (url : Bytes)
      → IsOnce (is_push id type url) doc.push_state
      → find_push (apply_import s doc).0 id type url
        ≡ or_else
            (as_stored stored_push (first (is_push id type url) doc.push_state))
            (find_push s id type url)
  unfolding apply_import import_rows
  overwritten_pushes id type url once =
      let found = λ (rs : List PushStateRow). first (is_push id type url) rs in
      get-each_over (is_push id type url) (λ (x : Import). find_push x.0 id type url) stored_push
        import_push (find_push-import_push id type url) _ doc.push_state once
      ∙ ap (λ rs. or_else (as_stored stored_push (found doc.push_state)) (found rs))
          (each-field import_user (λ (x : Import). x.0.push_state) pushes-import_user before
              doc.cached_users
            ∙ ap (λ v. v.1) overwritten-before)

-- Rows of different keys: at most one is found by a key.
pub HasDistinct-IsOnce :
    (id : Bytes) (rows : List CachedUser)
    → HasDistinct (λ (u : CachedUser). u.id) rows
    → IsOnce (λ (u : CachedUser). u.id == id) rows
HasDistinct-IsOnce id [] u = tt
HasDistinct-IsOnce id (r ∷ rows) (own, u) =
    (λ e. rw ((==_iff r.id id).0 e) at own, HasDistinct-IsOnce id rows u)

-- No item is recorded as pushed to a server twice.
abbrev pub AreDistinctPushes : List PushStateRow → Type 0
AreDistinctPushes [] = Unit
AreDistinctPushes (r ∷ rows) =
    (any (is_push r.item_id r.item_type r.server_url) rows ≡ false) × AreDistinctPushes rows

pub AreDistinctPushes-IsOnce :
    (id : Bytes) (type : ItemType) (url : Bytes) (rows : List PushStateRow)
    → AreDistinctPushes rows
    → IsOnce (is_push id type url) rows
AreDistinctPushes-IsOnce id type url [] u = tt
AreDistinctPushes-IsOnce id type url (r ∷ rows) (own, u) = (
  λ e.
      rw
        (
          (==_iff r.item_id id).0 (ground arith),
          (==_iff r.item_type type).0 (ground arith),
          (==_iff r.server_url url).0 (ground arith),
        )
        at own,
  AreDistinctPushes-IsOnce id type url rows u,
)
