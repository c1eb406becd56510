-- ===== src/Localstore.antt =====
-- localstore/: the client's database. A table is a list of rows in the order of insertion.
-- Instants are nanoseconds, and a row keeps whole seconds, as the RFC 3339 texts in it do; those of
-- one time zone and four-digit years sort like the instants. An error of the database itself is not
-- modelled.
pub mod Revocation
pub mod Settings
pub mod Listing
pub mod Pushes
pub mod Rows
use tillit.Base.{
  Bytes, codes, ◌==◌, compare_bytes, ℕ, ◌/◌, ◌*◌, ltb, ℤ, Bool, true, false, not, ◌&&◌, Option,
  none, some, List, [], ◌∷◌, ◌++◌, keep, any, first, sort, if◌then◌else◌,
}
use Prim.Native.Nat.{Ordering}
use tillit.Models.Payload.{
  Payload, Unmarshal, type_revocation, type_connection, type_connection_revocation,
}
use tillit.Models.AuthToken.{second}

pub record Peer : Type 0 where
  pub id : Bytes
  pub server_url : Bytes
  pub trust_depth : ℤ
  pub public : Bool
  pub distrusted : Bool
  pub veto_only : Bool
  pub last_synced_at : Option ℕ

pub record CachedSignature : Type 0 where
  pub id : Bytes
  pub signer : Bytes
  pub payload : Bytes
  pub algorithm : Bytes
  pub sig : Bytes
  pub uploaded_at : ℕ
  pub revoked : Bool
  pub revoked_at : Option ℕ
  pub fetched_at : ℕ

pub record CachedConnection : Type 0 where
  pub id : Bytes
  pub signer : Bytes
  pub other_id : Bytes
  pub payload : Bytes
  pub algorithm : Bytes
  pub sig : Bytes
  pub created_at : ℕ
  pub revoked : Bool
  pub revoked_at : Option ℕ
  pub fetched_at : ℕ

pub record CachedUser : Type 0 where
  pub id : Bytes
  pub username : Bytes
  pub pubkey : Bytes
  pub algorithm : Bytes
  pub fetched_at : ℕ

abbrev pub ItemType : Type 0
ItemType = Bytes

abbrev pub item_connection : ItemType
item_connection = codes "connection"

abbrev pub item_signature : ItemType
item_signature = codes "signature"

pub record PushStateRow : Type 0 where
  pub item_id : Bytes
  pub item_type : ItemType
  pub server_url : Bytes
  pub pushed_at : ℕ

pub record Server : Type 0 where
  pub url : Bytes
  pub alias : Bytes
  pub user_id : Bytes
  pub last_synced_at : Option ℕ

pub record Key : Type 0 where
  pub name : Bytes
  pub algorithm : Bytes
  pub pubkey : Bytes
  pub privkey : Bytes

-- `active_key` is the one row of the table of settings.
pub record Store : Type 0 where
  pub keys : List Key
  pub active_key : Option Bytes
  pub servers : List Server
  pub peers : List Peer
  pub signatures : List CachedSignature
  pub connections : List CachedConnection
  pub users : List CachedUser
  pub push_state : List PushStateRow

-- An instant as RFC 3339 prints it.
abbrev pub to_seconds : ℕ → ℕ
to_seconds t = t / second * second

abbrev pub option_to_seconds : Option ℕ → Option ℕ
option_to_seconds none = none
option_to_seconds (some t) = some (to_seconds t)

-- The order of strings.
abbrev pub less_bytes : Bytes → Bytes → Bool
less_bytes a b = elim (compare_bytes a b) [ Ordering.lt ↦ true | _ ↦ false ]

-- cache.go

-- ON CONFLICT(id) DO NOTHING
unfoldable pub save_cached_signature : Store → CachedSignature → Store
save_cached_signature s r = if any (λ q. q.id == r.id) s.signatures then s else record s {
  signatures =
      s.signatures
      ++ record r {
        uploaded_at = to_seconds r.uploaded_at;
        revoked_at = option_to_seconds r.revoked_at;
        fetched_at = to_seconds r.fetched_at;
      }
        ∷ [];
}

unfoldable pub get_cached_signature : Store → Bytes → Option CachedSignature
get_cached_signature s id = first (λ q. q.id == id) s.signatures

unfoldable pub get_cached_signatures_by_signer : Store → Bytes → List CachedSignature
get_cached_signatures_by_signer s signer =
    sort (λ p q. ltb p.uploaded_at q.uploaded_at) (keep (λ q. q.signer == signer) s.signatures)

-- `none` is the error that no row matched.
unfoldable pub delete_cached_signature : Store → Bytes → Option Store
delete_cached_signature s id =
    if any (λ q. q.id == id) s.signatures
    then some (record s { signatures = keep (λ q. not (q.id == id)) s.signatures })
    else none

-- cache_connections.go

unfoldable pub save_cached_connection : Store → CachedConnection → Store
save_cached_connection s r = if any (λ q. q.id == r.id) s.connections then s else record s {
  connections =
      s.connections
      ++ record r {
        created_at = to_seconds r.created_at;
        revoked_at = option_to_seconds r.revoked_at;
        fetched_at = to_seconds r.fetched_at;
      }
        ∷ [];
}

unfoldable pub get_cached_connection : Store → Bytes → Option CachedConnection
get_cached_connection s id = first (λ q. q.id == id) s.connections

unfoldable pub get_cached_connections_by_signer : Store → Bytes → List CachedConnection
get_cached_connections_by_signer s signer =
    sort (λ p q. ltb p.created_at q.created_at) (keep (λ q. q.signer == signer) s.connections)

unfoldable pub delete_cached_connection : Store → Bytes → Option Store
delete_cached_connection s id =
    if any (λ q. q.id == id) s.connections
    then some (record s { connections = keep (λ q. not (q.id == id)) s.connections })
    else none

-- peers.go

-- ON CONFLICT(id) DO UPDATE: all but the time of the last sync is overwritten.
abbrev pub put_peer : Peer → List Peer → List Peer
put_peer p [] = record p { last_synced_at = none } ∷ []
put_peer p (q ∷ qs) =
    if q.id == p.id then record p { last_synced_at = q.last_synced_at } ∷ qs else q ∷ put_peer p qs

unfoldable pub save_peer : Store → Peer → Store
save_peer s p = record s { peers = put_peer p s.peers }

unfoldable pub get_peer : Store → Bytes → Option Peer
get_peer s id = first (λ q. q.id == id) s.peers

-- ORDER BY id
unfoldable pub list_peers : Store → List Peer
list_peers s = sort (λ p q. less_bytes p.id q.id) s.peers

unfoldable pub remove_peer : Store → Bytes → Store
remove_peer s id = record s { peers = keep (λ q. not (q.id == id)) s.peers }

abbrev pub stamp_peer : Bytes → ℕ → List Peer → List Peer
stamp_peer id t [] = []
stamp_peer id t (q ∷ qs) =
    (if q.id == id then record q { last_synced_at = some (to_seconds t) } else q)
    ∷ stamp_peer id t qs

-- `none` is the error that no row matched.
unfoldable pub set_peer_last_synced_at : Store → Bytes → ℕ → Option Store
set_peer_last_synced_at s id t =
    if any (λ q. q.id == id) s.peers
    then some (record s { peers = stamp_peer id t s.peers })
    else none

-- cached_users.go

abbrev pub put_user : CachedUser → List CachedUser → List CachedUser
put_user u [] = u ∷ []
put_user u (q ∷ qs) = if q.id == u.id then u ∷ qs else q ∷ put_user u qs

unfoldable pub save_cached_user : Store → CachedUser → Store
save_cached_user s u = record s {
  users = put_user (record u { fetched_at = to_seconds u.fetched_at }) s.users;
}

unfoldable pub get_cached_user : Store → Bytes → Option CachedUser
get_cached_user s id = first (λ q. q.id == id) s.users

-- push_state.go

abbrev pub same_item : ItemType → ItemType → Bool
same_item a b = a == b

abbrev is_row : Bytes → ItemType → Bytes → PushStateRow → Bool
is_row id type url r = r.item_id == id && (same_item r.item_type type && r.server_url == url)

abbrev put_push : PushStateRow → List PushStateRow → List PushStateRow
put_push r [] = r ∷ []
put_push r (q ∷ qs) =
    if is_row r.item_id r.item_type r.server_url q then r ∷ qs else q ∷ put_push r qs

unfoldable pub record_push : Store → Bytes → ItemType → Bytes → ℕ → Store
record_push s id type url t = record s {
  push_state =
      put_push
        (record { item_id = id; item_type = type; server_url = url; pushed_at = to_seconds t })
        s.push_state;
}

-- `SELECT COUNT(*)` and `n > 0`
unfoldable pub is_pushed : Store → Bytes → ItemType → Bytes → Bool
is_pushed s id type url = any (is_row id type url) s.push_state

unfoldable pub has_been_pushed : Store → Bytes → ItemType → Bool
has_been_pushed s id type = any (λ r. r.item_id == id && same_item r.item_type type) s.push_state
