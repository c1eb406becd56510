-- ===== src/Localstore/Settings.antt =====
-- localstore/localstore.go and peers.go: the client's keys, its active key and its servers.
use tillit.Base.{
  Bytes, ◌==◌, ℕ, not, Option, none, some, List, [], ◌∷◌, keep, any, first, sort, if◌then◌else◌,
}
use tillit.Localstore.{Store, Key, Server, to_seconds, less_bytes}

-- ON CONFLICT(name) DO UPDATE
abbrev pub put_key : Key → List Key → List Key
put_key k [] = k ∷ []
put_key k (q ∷ qs) = if q.name == k.name then k ∷ qs else q ∷ put_key k qs

unfoldable pub save_key : Store → Key → Store
save_key s k = record s { keys = put_key k s.keys }

unfoldable pub get_key : Store → Bytes → Option Key
get_key s name = first (λ k. k.name == name) s.keys

-- ORDER BY name
unfoldable pub list_keys : Store → List Key
list_keys s = sort (λ p q. less_bytes p.name q.name) s.keys

-- `none` is the error that no row matched; so below.
unfoldable pub delete_key : Store → Bytes → Option Store
delete_key s name =
    if any (λ k. k.name == name) s.keys
    then some (record s { keys = keep (λ k. not (k.name == name)) s.keys })
    else none

unfoldable pub clear_active_key : Store → Store
clear_active_key s = record s { active_key = none }

unfoldable pub set_active_key : Store → Bytes → Store
set_active_key s name = record s { active_key = some name }

unfoldable pub get_active_key : Store → Option Bytes
get_active_key s = s.active_key

-- ON CONFLICT(url) DO UPDATE: all but the time of the last sync is overwritten.
abbrev pub put_server : Server → List Server → List Server
put_server v [] = record v { last_synced_at = none } ∷ []
put_server v (q ∷ qs) =
    if q.url == v.url
    then record v { last_synced_at = q.last_synced_at } ∷ qs
    else q ∷ put_server v qs

unfoldable pub save_server : Store → Server → Store
save_server s v = record s { servers = put_server v s.servers }

unfoldable pub get_server : Store → Bytes → Option Server
get_server s url = first (λ v. v.url == url) s.servers

-- ORDER BY url
unfoldable pub list_servers : Store → List Server
list_servers s = sort (λ p q. less_bytes p.url q.url) s.servers

abbrev pub stamp_server : Bytes → ℕ → List Server → List Server
stamp_server url t [] = []
stamp_server url t (q ∷ qs) =
    (if q.url == url then record q { last_synced_at = some (to_seconds t) } else q)
    ∷ stamp_server url t qs

unfoldable pub set_server_last_synced_at : Store → Bytes → ℕ → Option Store
set_server_last_synced_at s url t =
    if any (λ v. v.url == url) s.servers
    then some (record s { servers = stamp_server url t s.servers })
    else none
