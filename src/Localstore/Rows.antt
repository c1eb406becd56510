-- ===== src/Localstore/Rows.antt =====
-- localstore/cache.go, cache_connections.go, push_state.go and peers.go: which rows the queries find.
use tillit.Base.{Bytes, ==_iff, true, In, In-keep_iff, In-sort_iff, any_iff, ◌≡◌, refl, ◌↔◌, arith}
use tillit.Localstore.{
  Store, Server, CachedSignature, CachedConnection, PushStateRow, ItemType,
  get_cached_signatures_by_signer, get_cached_connections_by_signer, is_pushed,
}
use tillit.Localstore.Settings.{list_servers}

pub get_cached_signatures_by_signer_iff :
    (s : Store) (signer : Bytes) (c : CachedSignature)
    → In c (get_cached_signatures_by_signer s signer) ↔ (In c s.signatures × (c.signer ≡ signer))
unfolding get_cached_signatures_by_signer
get_cached_signatures_by_signer_iff s signer c = (
  λ m.
      let (n, e) = (In-keep_iff _ c s.signatures).0 ((In-sort_iff _ c _).0 m) in
      (n, (==_iff c.signer signer).0 e),
  λ (n, e).
      (In-sort_iff _ c _).1 ((In-keep_iff _ c s.signatures).1 (n, (==_iff c.signer signer).1 e)),
)

pub get_cached_connections_by_signer_iff :
    (s : Store) (signer : Bytes) (c : CachedConnection)
    → In c (get_cached_connections_by_signer s signer) ↔ (In c s.connections × (c.signer ≡ signer))
unfolding get_cached_connections_by_signer
get_cached_connections_by_signer_iff s signer c = (
  λ m.
      let (n, e) = (In-keep_iff _ c s.connections).0 ((In-sort_iff _ c _).0 m) in
      (n, (==_iff c.signer signer).0 e),
  λ (n, e).
      (In-sort_iff _ c _).1 ((In-keep_iff _ c s.connections).1 (n, (==_iff c.signer signer).1 e)),
)

pub list_servers_iff : (s : Store) (v : Server) → In v (list_servers s) ↔ In v s.servers
unfolding list_servers
list_servers_iff s v = In-sort_iff _ v s.servers

-- The table of pushes has a row of the item and the server.
pub record HasPush (s : Store) (id : Bytes) (type : ItemType) (url : Bytes) : Type 0 where
  pub row : PushStateRow
  pub recorded : In row s.push_state
  pub item : row.item_id ≡ id
  pub type_of : row.item_type ≡ type
  pub server : row.server_url ≡ url

pub is_pushed_iff :
    (s : Store) (id : Bytes) (type : ItemType) (url : Bytes)
    → (is_pushed s id type url ≡ true) ↔ HasPush s id type url
unfolding is_pushed
is_pushed_iff s id type url = (
  λ h.
      let (r, m, e) = (any_iff _ s.push_state).0 h in
      record {
        row = r;
        recorded = m;
        item = (==_iff r.item_id id).0 (ground arith);
        type_of = (==_iff r.item_type type).0 (ground arith);
        server = (==_iff r.server_url url).0 (ground arith);
      },
  λ h. (any_iff _ s.push_state).1 (
    h.row,
    h.recorded,
    rw
        (
          (==_iff h.row.item_id id).1 h.item,
          (==_iff h.row.item_type type).1 h.type_of,
          (==_iff h.row.server_url url).1 h.server,
        )
        refl,
  ),
)
