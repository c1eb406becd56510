-- ===== src/Commands/Tree.antt =====
-- cmd/tillit/commands/checktree.go: the graph of packages that check prints as a tree. The printing is
-- left out. A Go map is a list, and what ranges over one goes by the order of the list.
pub mod Reach
mod Examples
use tillit.Base.{
  Bytes, codes, ◌==◌, ℕ, zero, suc, ◌+◌, Bool, true, false, not, ◌||◌, Option, none, some, List, [],
  ◌∷◌, ◌++◌, map, length, keep, first, sort, cut, if◌then◌else◌,
}
use tillit.Base.Keyed.{each}
use tillit.Localstore.{less_bytes}
use tillit.Resolver.TrustSet.{contains}
use tillit.Resolver.Verdict.{Status}
use tillit.Commands.Check.{PackageRef, Edges, Row}

pub record NodeInfo : Type 0 where
  pub label : Bytes
  pub version : Bytes
  pub status : Status
  pub direct : Bool

-- A map by texts: what is set replaces what was.
abbrev pub Table {ℓ} : Type ℓ → Type ℓ
Table A = List (Bytes × A)

abbrev pub set_at {ℓ} : {A : Type ℓ} → Bytes → A → Table A → Table A
set_at k a [] = (k, a) ∷ []
set_at k a ((j, b) ∷ t) = if j == k then (k, a) ∷ t else (j, b) ∷ set_at k a t

abbrev pub get_at {ℓ} : {A : Type ℓ} → Bytes → Table A → Option A
get_at k [] = none
get_at k ((j, b) ∷ t) = if j == k then some b else get_at k t

abbrev pub list_at : Bytes → Edges → List Bytes
list_at k t = elim (get_at k t) [ none ↦ [] | some ks ↦ ks ]

unfoldable pub pkg_key : PackageRef → Bytes
pkg_key p = p.package_id ++ codes "@" ++ p.version

unfoldable pub index_rows : List Row → Table NodeInfo
index_rows rows =
    each
      (λ t r.
        set_at (pkg_key r.pkg)
          (record {
            label = r.pkg.package_id;
            version = r.pkg.version;
            status = r.status;
            direct = r.pkg.direct;
          })
          t)
      [] rows

unfoldable pub direct_roots : List Row → List Bytes
direct_roots rows = sort less_bytes (map (λ r. pkg_key r.pkg) (keep (λ r. r.pkg.direct) rows))

unfoldable pub build_resolved_key_map : List Row → Table Bytes
build_resolved_key_map rows = each (λ t r. set_at r.pkg.package_id (pkg_key r.pkg) t) [] rows

-- What stands before the first '@'.
abbrev pub key_id : Bytes → Bytes
key_id key = elim (cut b'@' key) [ none ↦ key | some (l, r) ↦ l ]

module _ (infos : Table NodeInfo) (resolved : Table Bytes) where
  -- `none` is the empty text of the source, a node that is not tracked.
  unfoldable pub canon : Bytes → Option Bytes
  canon key = elim (get_at key infos) [ some info ↦ some key | none ↦ get_at (key_id key) resolved ]

  -- A round of the loop over the targets of one node, with those kept so far, which are also those seen.
  unfoldable pub keep_target : Bytes → List Bytes → Bytes → List Bytes
  keep_target from_key seen d = elim (canon d) [
    | none ↦ seen
    | some c ↦ if c == from_key || contains c seen then seen else seen ++ c ∷ []
  ]

  abbrev pub canon_or_same : Bytes → Bytes
  canon_or_same key = elim (canon key) [ none ↦ key | some c ↦ c ]

  abbrev pub set_nonempty : Bytes → List Bytes → Edges → Edges
  set_nonempty key [] out = out
  set_nonempty key (c ∷ cs) out = set_at key (c ∷ cs) out

  unfoldable pub canonicalise_edges : Edges → Edges
  canonicalise_edges edges =
      each
        (λ out (from_node, deps).
          set_nonempty (canon_or_same from_node)
            (each (keep_target (canon_or_same from_node)) [] deps) out)
        [] edges

-- The walk from one node, with what it reached so far. The source recurses without fuel; a node is
-- entered once.
unfoldable pub walk : Edges → ℕ → List Bytes → Bytes → List Bytes
walk edges zero reachable key = reachable
walk edges (suc n) reachable key = elim (contains key reachable) [
  | true ↦ reachable
  | false ↦ each (walk edges n) (key ∷ reachable) (list_at key edges)
]

-- All targets of edges.
unfoldable pub targets : Edges → List Bytes
targets [] = []
targets ((k, ks) ∷ edges) = ks ++ targets edges

unfoldable pub enough_fuel : Edges → List Bytes → ℕ
enough_fuel edges directs = suc (length (directs ++ targets edges))

unfoldable pub walk_all : Edges → List Bytes → List Bytes
walk_all edges directs = each (walk edges (enough_fuel edges directs)) [] directs

-- Rows whose lower case is the same keep their order.
unfoldable pub unvisited_from_directs : (Bytes → Bytes) → List Row → Edges → List Bytes → List Bytes
unvisited_from_directs to_lower rows edges directs =
    sort (λ a b. less_bytes (to_lower a) (to_lower b))
      (keep (λ k. not (contains k (walk_all edges directs))) (map (λ r. pkg_key r.pkg) rows))
