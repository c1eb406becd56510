-- ===== src/Resolver/Spans.antt =====
-- resolver/query.go: the spans of versions that Package reports, and how they are merged.
pub mod Merge
mod Examples
use Prim.Native.Nat.{Ordering}
use tillit.Base.{
  Bytes, ◌==◌, Bool, true, false, not, ◌&&◌, Option, none, some, List, [], ◌∷◌, ◌++◌, sort,
  if◌then◌else◌,
}
use tillit.Base.Order.{tie_break, at_most}
use tillit.Models.Payload.{level_rejected}
use tillit.Resolver.Version.{compare_versions}
use tillit.Resolver.Verdict.{
  Status, allowed, vetted, rejected, unknown, ContributingDecision, SigInfo, Verdict, Cache,
  status_from_level, is_trusted, resolve_version, enough_fuel,
}

pub record VersionSpan : Type 0 where
  pub from : Bytes
  pub to : Bytes
  pub status : Status
  pub decisions : List ContributingDecision

-- The less-function that mergeSpans sorts by.
pub less_span : VersionSpan → VersionSpan → Bool
less_span a b = elim (tie_break (compare_versions a.from b.from) (compare_versions a.to b.to)) [
  | Ordering.lt ↦ true
  | _ ↦ false
]

abbrev pub same_status : Status → Status → Bool
same_status allowed allowed = true
same_status vetted vetted = true
same_status rejected rejected = true
same_status unknown unknown = true
same_status _ _ = false

-- `last`, extended by a span that overlaps or touches it.
pub extend : VersionSpan → VersionSpan → VersionSpan
extend last s = record last {
  to = (if at_most (compare_versions s.to last.to) then last.to else s.to);
  decisions = last.decisions ++ s.decisions;
}

-- The loop over the sorted spans; `last` is the one that stands at the end of `out`.
pub merge_from : VersionSpan → List VersionSpan → List VersionSpan
merge_from last [] = last ∷ []
merge_from last (s ∷ spans) =
    let extended = merge_from (extend last s) spans in
    let separate = last ∷ merge_from s spans in
    if same_status last.status s.status && at_most (compare_versions s.from last.to)
    then extended
    else separate

pub merge_sorted : List VersionSpan → List VersionSpan
merge_sorted [] = []
merge_sorted (s ∷ spans) = merge_from s spans

pub merge_spans : List VersionSpan → List VersionSpan
merge_spans spans = merge_sorted (sort less_span spans)

abbrev pub exact_span : SigInfo → VersionSpan
exact_span sig = record {
  from = sig.exact_version;
  to = sig.exact_version;
  status = status_from_level sig.decision.level;
  decisions = sig.decision ∷ [];
}

abbrev pub delta_span : SigInfo → Status → VersionSpan
delta_span sig status = record {
  from = sig.from_version;
  to = sig.to_version;
  status = status;
  decisions = sig.decision ∷ [];
}

-- The loop of Package that builds the raw spans; the memo table goes from one to the next.
pub raw_spans : List SigInfo → Cache → List SigInfo → Option (List VersionSpan)
raw_spans all cache [] = some []
raw_spans all cache (sig ∷ sigs) =
    let plain = raw_spans all cache sigs in
    if not sig.is_delta
    then elim plain [ none ↦ none | some spans ↦ some (exact_span sig ∷ spans) ]
    else if sig.decision.level == level_rejected
    then elim plain [ none ↦ none | some spans ↦ some (delta_span sig rejected ∷ spans) ]
    else elim (resolve_version (enough_fuel all) all [] cache sig.from_version) [
      | none ↦ none
      | some (from, cache') ↦ elim (raw_spans all cache' sigs) [
        | none ↦ none
        | some spans ↦ some (
            if is_trusted from.status
            then delta_span sig (status_from_level sig.decision.level) ∷ spans
            else spans)
      ]
    ]

-- The spans of a package, from the signatures that collectMatching finds.
pub package_spans : List SigInfo → Option (List VersionSpan)
package_spans sigs = elim (raw_spans sigs [] sigs) [
  | none ↦ none
  | some spans ↦ some (merge_spans spans)
]
