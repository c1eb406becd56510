-- ===== src/Commands/Check.antt =====
-- cmd/tillit/commands/check.go and store.go: the gate over a project's lockfile. The file system, the
-- project's configuration, and the adapters of the ecosystems are parameters; what is printed is
-- left out.
pub mod Gate
mod Examples
use tillit.Base.{
  Bytes, codes, ◌==◌, ℕ, has_prefix, trim_prefix, Bool, true, false, not, ◌||◌, Option, none, some,
  List, [], ◌∷◌, keep, any, first, if◌then◌else◌,
}
use tillit.Models.Payload.{Unmarshal}
use tillit.Localstore.{Store}
use tillit.Localstore.Settings.{get_active_key, get_key}
use tillit.Resolver.Verdict.{Status, allowed, vetted, rejected, unknown, Verdict}
use tillit.Resolver.Collect.{version}
use tillit.Commands.Snapshot.{KeyTools}

pub record PackageRef : Type 0 where
  pub ecosystem : Bytes
  pub package_id : Bytes
  pub version : Bytes
  pub direct : Bool
  pub hash : Bytes
  pub source : Bytes

-- A graph of packages, by keys "package@version".
abbrev pub Edges : Type 0
Edges = List (Bytes × List Bytes)

pub record ParseResult : Type 0 where
  pub packages : List PackageRef
  pub edges : Option Edges
  pub warnings : List Bytes

-- What the command uses of an adapter. `graph` is `none` for one that is no GraphResolver.
pub record Adapter : Type 0 where
  pub ecosystem : Bytes
  pub can_parse : Bytes → Bool
  pub parse : Bytes → Bytes → Option ParseResult
  pub graph : Option (Bytes → Option Edges)

-- What the command uses of the file system: `is_dir` is `none` for what cannot be read, an entry of a
-- directory is a name and whether it is one itself.
pub record Files : Type 0 where
  pub is_dir : Bytes → Option Bool
  pub read_dir : Bytes → Option (List (Bytes × Bool))
  pub dir : Bytes → Bytes
  pub base : Bytes → Bytes
  pub join : Bytes → Bytes → Bytes
  pub config : Bytes → Option (Option Bytes)

-- The loop of parseCheckArgs, with the ecosystem and the target so far.
pub parse_check_args_from : Bytes → Bytes → List Bytes → Option (Bytes × Bytes)
parse_check_args_from ecosystem target [] = some (ecosystem, target)
parse_check_args_from ecosystem target (a ∷ []) =
    if a == codes "-e" || a == codes "--ecosystem"
    then none
    else if has_prefix (codes "--ecosystem=") a
    then some (trim_prefix (codes "--ecosystem=") a, target)
    else if has_prefix (codes "-e=") a
    then some (trim_prefix (codes "-e=") a, target)
    else if has_prefix (codes "-") a
    then none
    else some (ecosystem, a)
parse_check_args_from ecosystem target (a ∷ b ∷ args) =
    let flag = parse_check_args_from b target args in
    let long = parse_check_args_from (trim_prefix (codes "--ecosystem=") a) target (b ∷ args) in
    let short = parse_check_args_from (trim_prefix (codes "-e=") a) target (b ∷ args) in
    let path = parse_check_args_from ecosystem a (b ∷ args) in
    if a == codes "-e" || a == codes "--ecosystem"
    then flag
    else if has_prefix (codes "--ecosystem=") a
    then long
    else if has_prefix (codes "-e=") a
    then short
    else if has_prefix (codes "-") a
    then none
    else path

abbrev pub parse_check_args : List Bytes → Option (Bytes × Bytes)
parse_check_args args = parse_check_args_from [] (codes ".") args

pub adapters_for_ecosystem : List Adapter → Bytes → List Adapter
adapters_for_ecosystem adapters ecosystem = keep (λ a. a.ecosystem == ecosystem) adapters

-- The files of a directory that some candidate parses.
pub matching_files : Files → Bytes → List Adapter → List (Bytes × Bool) → List Bytes
matching_files files dir candidates [] = []
matching_files files dir candidates ((name, is_dir) ∷ entries) =
    let rest = matching_files files dir candidates entries in
    if is_dir
    then rest
    else if any (λ a. a.can_parse name) candidates
    then files.join dir name ∷ rest
    else rest

abbrev pub only_match : List Bytes → Option Bytes
only_match [] = none
only_match (path ∷ []) = some path
only_match (path ∷ other ∷ paths) = none

-- `none` is an error; so below.
pub find_lockfile : Files → Bytes → List Adapter → Option Bytes
find_lockfile files dir candidates = elim (files.read_dir dir) [
  | none ↦ none
  | some entries ↦ only_match (matching_files files dir candidates entries)
]

pub resolve_check_target : Files → Bytes → List Adapter → Option Bytes
resolve_check_target files target candidates = elim (files.is_dir target) [
  | none ↦ none
  | some is_dir ↦ if not is_dir then some target else find_lockfile files target candidates
]

pub pick_adapter_from : Files → Bytes → List Adapter → Option Adapter
pick_adapter_from files lockfile candidates =
    first (λ a. a.can_parse (files.base lockfile)) candidates

pub parse_lockfile : Files → Adapter → Bytes → Option (List PackageRef × Option Edges)
parse_lockfile files adapter lockfile =
    elim (adapter.parse (files.dir lockfile) (files.base lockfile)) [
      | none ↦ none
      | some res ↦ elim res.edges [
        | some e ↦ some (res.packages, some e)
        | none ↦ elim adapter.graph [
          | none ↦ some (res.packages, none)
          | some g ↦ some (res.packages, g (files.dir lockfile))
        ]
      ]
    ]

-- activeUserID, from the public key alone.
unfoldable pub active_user_id : KeyTools → Store → Option Bytes
active_user_id tools s = elim (get_active_key s) [
  | none ↦ none
  | some name ↦ elim (get_key s name) [
    | none ↦ none
    | some k ↦ elim (tools.decode_base64 k.pubkey) [
      | none ↦ none
      | some pub_bytes ↦ some (tools.encode_base64 (tools.sha256 pub_bytes))
    ]
  ]
]

pub record Row : Type 0 where
  pub pkg : PackageRef
  pub status : Status
  pub verdict : Verdict

abbrev pub row_of : PackageRef → Verdict → Row
row_of p v = record { pkg = p; status = v.status; verdict = v }

-- The loop over the packages.
pub check_rows : Unmarshal → Store → Bytes → List PackageRef → Option (List Row)
check_rows unmarshal s user_id [] = some []
check_rows unmarshal s user_id (p ∷ pkgs) =
    elim (version unmarshal s user_id user_id p.ecosystem p.package_id p.version) [
      | none ↦ none
      | some v ↦ elim (check_rows unmarshal s user_id pkgs) [
        | none ↦ none
        | some rows ↦ some (row_of p v ∷ rows)
      ]
    ]

abbrev pub is_rejecting : Status → Bool
is_rejecting rejected = true
is_rejecting allowed = false
is_rejecting vetted = false
is_rejecting unknown = false

abbrev pub is_rejected : Row → Bool
is_rejected r = is_rejecting r.status

-- How a run ends: with an error, with no packages, or with rows and maybe a graph.
pub data CheckOutcome : Type 0 where
  check_error no_packages : CheckOutcome
  checked : List Row → Option Edges → CheckOutcome

-- 1 on an error and where a package is rejected.
pub exit_status : CheckOutcome → ℕ
exit_status check_error = 1
exit_status no_packages = 0
exit_status (checked rows edges) = if any is_rejected rows then 1 else 0

-- The part behind parsing the lockfile.
pub check_packages : Unmarshal → KeyTools → Store → List PackageRef → Option Edges → CheckOutcome
check_packages unmarshal tools s [] edges = no_packages
check_packages unmarshal tools s (p ∷ pkgs) edges = elim (active_user_id tools s) [
  | none ↦ check_error
  | some user_id ↦ elim (check_rows unmarshal s user_id (p ∷ pkgs)) [
    | none ↦ check_error
    | some rows ↦ checked rows edges
  ]
]

-- The ecosystem of the arguments, else the one of the configuration beside the target.
pub choose_ecosystem : Files → Bytes → Bytes → Option Bytes
choose_ecosystem files ecosystem target =
    let config_dir : Bytes = elim (files.is_dir target) [
      | some false ↦ files.dir target
      | _ ↦ target
    ] in
    elim (files.config config_dir) [
      | none ↦ none
      | some none ↦ some ecosystem
      | some (some configured) ↦ some (if ecosystem == [] then configured else ecosystem)
    ]

-- Check
pub check : Unmarshal → KeyTools → List Adapter → Files → Store → List Bytes → CheckOutcome
check unmarshal tools adapters files s args = elim (parse_check_args args) [
  | none ↦ check_error
  | some (asked, target) ↦ elim (choose_ecosystem files asked target) [
    | none ↦ check_error
    | some ecosystem ↦
        if ecosystem == [] then check_error else elim (adapters_for_ecosystem adapters ecosystem) [
          | [] ↦ check_error
          | a ∷ candidates ↦ elim (resolve_check_target files target (a ∷ candidates)) [
            | none ↦ check_error
            | some lockfile ↦ elim (pick_adapter_from files lockfile (a ∷ candidates)) [
              | none ↦ check_error
              | some adapter ↦ elim (parse_lockfile files adapter lockfile) [
                | none ↦ check_error
                | some (pkgs, edges) ↦ check_packages unmarshal tools s pkgs edges
              ]
            ]
          ]
        ]
  ]
]
