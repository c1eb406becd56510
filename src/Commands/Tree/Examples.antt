-- ===== src/Commands/Tree/Examples.antt =====
-- cmd/tillit/commands/checktree.go on a small graph with a cycle.
use tillit.Base.{Bytes, codes, Bool, true, false, List, [], ◌∷◌, In, ◌≡◌, refl, ◌↔◌}
use tillit.Resolver.Verdict.{unknown}
use tillit.Commands.Check.{Edges, Row}
use tillit.Commands.Tree.{
  pkg_key, direct_roots, index_rows, build_resolved_key_map, canonicalise_edges,
  unvisited_from_directs,
}
use tillit.Commands.Tree.Reach.{Reaches, unvisited_from_directs_iff}

abbrev row : Bytes → Bytes → Bool → Row
row id v direct = record {
  pkg = record {
    ecosystem = [];
    package_id = id;
    version = v;
    direct = direct;
    hash = [];
    source = [];
  };
  status = unknown;
  verdict = record { status = unknown; decisions = [] };
}

abbrev rows : List Row
rows =
    row (codes "a") (codes "1") true
    ∷ row (codes "b") (codes "2") false
    ∷ row (codes "c") (codes "1") false
    ∷ []

-- The edge to b@1 goes to the version that is there; that to the toolchain goes.
abbrev edges : Edges
edges =
    (codes "a@1", codes "b@1" ∷ codes "go@1" ∷ [])
    ∷ (codes "b@2", codes "a@1" ∷ [])
    ∷ (codes "c@1", codes "a@1" ∷ [])
    ∷ []

abbrev canonical : Edges
canonical =
    (codes "a@1", codes "b@2" ∷ [])
    ∷ (codes "b@2", codes "a@1" ∷ [])
    ∷ (codes "c@1", codes "a@1" ∷ [])
    ∷ []

rewritten : canonicalise_edges (index_rows rows) (build_resolved_key_map rows) edges ≡ canonical
unfolding canonicalise_edges tillit.Base.Keyed.each tillit.Commands.Tree.keep_target
    tillit.Commands.Tree.canon index_rows tillit.Base.◌==◌ pkg_key tillit.Base.any
    build_resolved_key_map tillit.Base.cut
rewritten = refl

one_root : direct_roots rows ≡ codes "a@1" ∷ []
unfolding direct_roots tillit.Base.sort tillit.Base.keep pkg_key
one_root = refl

one_orphan :
    unvisited_from_directs (λ text. text) rows canonical (codes "a@1" ∷ []) ≡ codes "c@1" ∷ []
unfolding unvisited_from_directs tillit.Base.sort tillit.Base.keep tillit.Base.any
    tillit.Commands.Tree.walk_all tillit.Base.Keyed.each tillit.Commands.Tree.walk
    tillit.Commands.Tree.enough_fuel tillit.Base.◌==◌ tillit.Commands.Tree.targets pkg_key
one_orphan = refl

unvisited_from_directs_iff_example :
    In (codes "c@1") (unvisited_from_directs (λ text. text) rows canonical (codes "a@1" ∷ [])) ↔ (
      ((r : Row) × In r rows × (codes "c@1" ≡ pkg_key r.pkg))
      × ((d : Bytes) → In d (codes "a@1" ∷ []) → ¬ (Reaches canonical d (codes "c@1"))))
unvisited_from_directs_iff_example =
    unvisited_from_directs_iff (λ text. text) rows canonical (codes "a@1" ∷ []) (codes "c@1")
