-- ===== src/Resolver/Verdict.antt =====
-- resolver/resolver.go and resolver/query.go: the verdict on one version, from the parsed signatures
-- of the trust set. `resolve_version` threads the memo table; `resolving` holds the versions under
-- way, which a map with deferred deletions is.
pub mod Aggregate
pub mod Chain
pub mod Terminates
pub mod Answer
pub mod Gather
pub mod Sound
pub mod Rejection
mod Examples
use Prim.Native.Nat.{Ordering}
use tillit.Base.{
  Bytes, ◌==◌, ℕ, zero, suc, ◌+◌, Bool, true, false, not, ◌&&◌, ◌||◌, Option, none, some, List, [],
  ◌∷◌, ◌++◌, length, any, if◌then◌else◌, ◌>>=◌,
}
use tillit.Models.Payload.{level_allowed, level_vetted, level_rejected}
use tillit.Resolver.Version.{compare_versions}
use tillit.Resolver.TrustSet.{contains}

pub data Status : Type 0 where
  allowed vetted rejected unknown : Status

pub data DecisionKind : Type 0 where
  exact delta : DecisionKind

pub record ContributingDecision : Type 0 where
  pub signer_id : Bytes
  pub path : List Bytes
  pub level : Bytes
  pub reason : Bytes
  pub signature_id : Bytes
  pub veto_only : Bool
  pub kind : DecisionKind
  pub version : Bytes
  pub from_version : Bytes
  pub to_version : Bytes

pub record Verdict : Type 0 where
  pub status : Status
  pub decisions : List ContributingDecision

pub record SigInfo : Type 0 where
  pub decision : ContributingDecision
  pub is_delta : Bool
  pub exact_version : Bytes
  pub from_version : Bytes
  pub to_version : Bytes

unfoldable pub status_from_level : Bytes → Status
status_from_level level =
    if level == level_rejected
    then rejected
    else if level == level_vetted
    then vetted
    else if level == level_allowed
    then allowed
    else unknown

-- The loop of aggregate with its two flags.
pub aggregate_from : Bool → Bool → List ContributingDecision → Status
aggregate_from has_vetted has_allowed [] =
    if has_vetted then vetted else if has_allowed then allowed else unknown
aggregate_from has_vetted has_allowed (d ∷ ds) =
    let rest =
      aggregate_from (has_vetted || d.level == level_vetted)
        (has_allowed || not (d.level == level_vetted) && d.level == level_allowed) ds in
    if d.level == level_rejected then rejected else rest

unfoldable pub aggregate : List ContributingDecision → Status
unfolding aggregate_from
aggregate ds = aggregate_from false false ds

-- `Status == StatusAllowed || Status == StatusVetted`
abbrev pub is_trusted : Status → Bool
is_trusted allowed = true
is_trusted vetted = true
is_trusted _ = false

abbrev pub is_gt : Ordering → Bool
is_gt Ordering.gt = true
is_gt _ = false

-- The version lies in [from, to].
pub covers : SigInfo → Bytes → Bool
covers sig version = not (
    is_gt (compare_versions sig.from_version version)
    || is_gt (compare_versions version sig.to_version))

abbrev pub Cache : Type 0
Cache = List (Bytes × Verdict)

unfoldable pub find : Bytes → Cache → Option Verdict
find k [] = none
find k ((j, v) ∷ c) = if j == k then some v else find k c

-- What one signature adds to the decisions: the body of the loop in resolveVersion.
pub contribution :
    (Cache → Bytes → Option (Verdict × Cache))
    → Bytes
    → SigInfo
    → Cache
    → Option (List ContributingDecision × Cache)
contribution resolve version sig cache =
    if not sig.is_delta
    then some ((if sig.exact_version == version then sig.decision ∷ [] else []), cache)
    else if not (covers sig version)
    then some ([], cache)
    else if sig.decision.level == level_rejected
    then some (sig.decision ∷ [], cache)
    else elim (resolve cache sig.from_version) [
      | none ↦ none
      | some (from, cache') ↦
          some ((if is_trusted from.status then sig.decision ∷ [] else []), cache')
    ]

-- The loop over the signatures.
pub gather :
    (Cache → Bytes → Option (Verdict × Cache))
    → Bytes
    → List SigInfo
    → Cache
    → Option (List ContributingDecision × Cache)
gather resolve version [] cache = some ([], cache)
gather resolve version (sig ∷ sigs) cache = elim (contribution resolve version sig cache) [
  | none ↦ none
  | some (ds, cache') ↦ elim (gather resolve version sigs cache') [
    | none ↦ none
    | some (rest, cache'') ↦ some (ds ++ rest, cache'')
  ]
]

abbrev unknown_verdict : Verdict
unknown_verdict = record { status = unknown; decisions = [] }

abbrev verdict_of : List ContributingDecision → Verdict
verdict_of ds = record { status = aggregate ds; decisions = ds }

-- resolveVersion on fuel; `none` means that the fuel ran out.
pub resolve_version : ℕ → List SigInfo → List Bytes → Cache → Bytes → Option (Verdict × Cache)
resolve_version zero sigs resolving cache version = none
resolve_version (suc fuel) sigs resolving cache version = elim (find version cache) [
  | some v ↦ some (v, cache)
  | none ↦
      if contains version resolving
      then some (unknown_verdict, cache)
      else elim (gather (resolve_version fuel sigs (version ∷ resolving)) version sigs cache) [
        | none ↦ none
        | some (ds, cache') ↦ some (verdict_of ds, (version, verdict_of ds) ∷ cache')
      ]
]

-- Calls nest at most once for each signature, and twice more.
abbrev pub enough_fuel : List SigInfo → ℕ
enough_fuel sigs = length sigs + 2

-- The call that Version makes, with an empty memo table.
pub version_verdict : List SigInfo → Bytes → Option Verdict
version_verdict sigs version = elim (resolve_version (enough_fuel sigs) sigs [] [] version) [
  | none ↦ none
  | some (v, cache) ↦ some v
]
