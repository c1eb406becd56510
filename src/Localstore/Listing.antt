-- ===== src/Localstore/Listing.antt =====
-- localstore/cache.go, cache_connections.go, cached_users.go and push_state.go: whole tables, and
-- the search for a signature by the start of its identifier.
use tillit.Base.{
  Bytes, ◌==◌, ltb, Bool, not, Option, none, some, List, [], ◌∷◌, keep, any, sort, if◌then◌else◌,
}
use tillit.Localstore.{
  Store, CachedSignature, CachedConnection, CachedUser, PushStateRow, get_cached_signature,
}

-- ORDER BY uploaded_at
unfoldable pub list_all_cached_signatures : Store → List CachedSignature
list_all_cached_signatures s = sort (λ p q. ltb p.uploaded_at q.uploaded_at) s.signatures

-- ORDER BY created_at
unfoldable pub list_all_cached_connections : Store → List CachedConnection
list_all_cached_connections s = sort (λ p q. ltb p.created_at q.created_at) s.connections

unfoldable pub list_cached_users : Store → List CachedUser
list_cached_users s = s.users

unfoldable pub list_all_push_state : Store → List PushStateRow
list_all_push_state s = s.push_state

-- `none` is the error that no row matched.
unfoldable pub delete_cached_user : Store → Bytes → Option Store
delete_cached_user s id =
    if any (λ u. u.id == id) s.users
    then some (record s { users = keep (λ u. not (u.id == id)) s.users })
    else none

-- The answer to one match; none and several are errors.
abbrev pub the_only : List CachedSignature → Option CachedSignature
the_only [] = none
the_only (r ∷ []) = some r
the_only (r ∷ q ∷ rows) = none

-- LookupCachedSignature. `like` is the database's `id LIKE q || '%'`.
unfoldable pub lookup_cached_signature :
    (Bytes → Bytes → Bool) → Store → Bytes → Option CachedSignature
lookup_cached_signature like s q = if q == [] then none else elim (get_cached_signature s q) [
  | some sig ↦ some sig
  | none ↦ the_only (keep (λ r. like q r.id) s.signatures)
]
