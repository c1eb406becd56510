-- ===== src/Resolver/Collect.antt =====
-- resolver/query.go: collectMatching, the signatures of the trust set about one package, and the two
-- queries Version and Package.
-- Go ranges over the trust set, a map, in any order; the model takes the order of its list, and is
-- stated for every list.
pub mod Matching
pub mod Applies
mod Examples
use tillit.Base.{
  Bytes, ◌==◌, Bool, true, false, not, ◌&&◌, ◌||◌, Option, none, some, List, [], ◌∷◌, ◌++◌,
  if◌then◌else◌,
}
use tillit.Models.Payload.{
  Payload, Unmarshal, type_decision, type_delta_decision, type_revocation, level_rejected,
}
use tillit.Localstore.{Store, CachedSignature, get_cached_signatures_by_signer}
use tillit.Resolver.TrustSet.{TrustEntry, TrustMap, contains, build_trust_set}
use tillit.Resolver.Verdict.{
  DecisionKind, exact, delta, ContributingDecision, SigInfo, Verdict, version_verdict,
}
use tillit.Resolver.Spans.{VersionSpan, package_spans}

-- What becomes of one row: nothing, a signature that counts, or one that was revoked.
pub data Picked : Type 0 where
  skipped : Picked
  live : SigInfo → Picked
  withdrawn : ContributingDecision → Picked

abbrev pub decision_of : Bytes → TrustEntry → Bytes → Payload → DecisionKind → ContributingDecision
decision_of signer entry id p exact = record {
  signer_id = signer;
  path = entry.path;
  level = p.level;
  reason = p.reason;
  signature_id = id;
  veto_only = entry.veto_only;
  kind = exact;
  version = p.version;
  from_version = [];
  to_version = [];
}
decision_of signer entry id p delta = record {
  signer_id = signer;
  path = entry.path;
  level = p.level;
  reason = p.reason;
  signature_id = id;
  veto_only = entry.veto_only;
  kind = delta;
  version = [];
  from_version = p.from_version;
  to_version = p.to_version;
}

abbrev pub exact_sig : Bytes → TrustEntry → Bytes → Payload → SigInfo
exact_sig signer entry id p = record {
  decision = decision_of signer entry id p exact;
  is_delta = false;
  exact_version = p.version;
  from_version = [];
  to_version = [];
}

abbrev pub delta_sig : Bytes → TrustEntry → Bytes → Payload → SigInfo
delta_sig signer entry id p = record {
  decision = decision_of signer entry id p delta;
  is_delta = true;
  exact_version = [];
  from_version = p.from_version;
  to_version = p.to_version;
}

module _ (unmarshal : Unmarshal) where
  -- The first pass: the identifiers that the signer has revoked.
  pub revocation_targets : List CachedSignature → List Bytes
  revocation_targets [] = []
  revocation_targets (r ∷ rows) = elim (unmarshal r.payload) [
    | none ↦ revocation_targets rows
    | some p ↦
        if p.type == type_revocation
        then p.target_id ∷ revocation_targets rows
        else revocation_targets rows
  ]

  module _ (ecosystem package_id signer : Bytes) (entry : TrustEntry) (revoked : List Bytes) where
    pub pick_payload : Bytes → Payload → Picked
    pick_payload id p =
        if not (p.ecosystem == ecosystem) || not (p.package_id == package_id)
        then skipped
        else if entry.veto_only && not (p.level == level_rejected)
        then skipped
        else if p.type == type_decision
        then (if contains id revoked
            then withdrawn (decision_of signer entry id p exact)
            else live (exact_sig signer entry id p))
        else if p.type == type_delta_decision
        then (if contains id revoked
            then withdrawn (decision_of signer entry id p delta)
            else live (delta_sig signer entry id p))
        else skipped

    -- The body of the second pass.
    pub pick : CachedSignature → Picked
    pick row = elim (unmarshal row.payload) [ none ↦ skipped | some p ↦ pick_payload row.id p ]

    pub collect_rows : List CachedSignature → List SigInfo × List ContributingDecision
    collect_rows [] = ([], [])
    collect_rows (row ∷ rows) =
        let (out, withdrawals) = collect_rows rows in
        elim (pick row) [
          | skipped ↦ (out, withdrawals)
          | live s ↦ (s ∷ out, withdrawals)
          | withdrawn d ↦ (out, d ∷ withdrawals)
        ]

  module _ (store : Store) where
    pub collect_signer :
        Bytes → Bytes → Bytes × TrustEntry → List SigInfo × List ContributingDecision
    collect_signer ecosystem package_id (signer, entry) =
        let rows = get_cached_signatures_by_signer store signer in
        collect_rows ecosystem package_id signer entry (revocation_targets rows) rows

    pub collect_set : Bytes → Bytes → TrustMap → List SigInfo × List ContributingDecision
    collect_set ecosystem package_id [] = ([], [])
    collect_set ecosystem package_id (e ∷ m) =
        let (out, withdrawals) = collect_signer ecosystem package_id e in
        let (more_out, more_withdrawals) = collect_set ecosystem package_id m in
        (out ++ more_out, withdrawals ++ more_withdrawals)

    -- `none`, if the search for the trust set ran out of fuel; so below.
    unfoldable pub collect_matching :
        Bytes → Bytes → Bytes → Bytes → Option (List SigInfo × List ContributingDecision)
    collect_matching active viewer ecosystem package_id =
        elim (build_trust_set unmarshal store active viewer) [
          | none ↦ none
          | some m ↦ some (collect_set ecosystem package_id m)
        ]

    -- Resolver.Version
    unfoldable pub version : Bytes → Bytes → Bytes → Bytes → Bytes → Option Verdict
    version active viewer ecosystem package_id v =
        elim (collect_matching active viewer ecosystem package_id) [
          | none ↦ none
          | some (sigs, withdrawals) ↦ version_verdict sigs v
        ]

    -- Resolver.Package: the spans and the revoked decisions.
    pub package_verdict :
        Bytes → Bytes → Bytes → Bytes → Option (List VersionSpan × List ContributingDecision)
    package_verdict active viewer ecosystem package_id =
        elim (collect_matching active viewer ecosystem package_id) [
          | none ↦ none
          | some (sigs, withdrawals) ↦ elim (package_spans sigs) [
            | none ↦ none
            | some spans ↦ some (spans, withdrawals)
          ]
        ]
