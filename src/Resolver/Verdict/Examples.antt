-- ===== src/Resolver/Verdict/Examples.antt =====
-- resolver/query.go on a few concrete signatures.
use Prim.Native.Nat.{Ordering}
use tillit.Base.{
  Bytes, codes, ◌==◌, ℕ, Bool, true, false, Option, none, some, List, [], ◌∷◌, ◌++◌, In, here,
  there, ◌≡◌, refl, ◌≢◌, ◌↔◌, ◌⊎◌, inl, inr, any, length,
}
use tillit.Models.Payload.{level_allowed, level_vetted, level_rejected}
use tillit.Resolver.Version.{compare_versions}
use tillit.Resolver.Verdict.{
  allowed, vetted, rejected, DecisionKind, exact, delta, ContributingDecision, SigInfo, Verdict,
  is_trusted, aggregate, aggregate_from, covers, find, contribution, gather, resolve_version,
  version_verdict,
}
use tillit.Resolver.Verdict.Aggregate.{IsPositive, has_level, aggregate-precedence}
use tillit.Resolver.Verdict.Chain.{IsRejected, Counts}
use tillit.Resolver.Verdict.Terminates.{version_verdict_returns}
use tillit.Resolver.Verdict.Rejection.{rejected_iff, trusted-backed, exact-trusted}

abbrev v1 : Bytes
v1 = codes "1.0"

abbrev v2 : Bytes
v2 = codes "1.1"

abbrev decided : Bytes → DecisionKind → ContributingDecision
decided level kind = record {
  signer_id = codes "alice";
  path = codes "alice" ∷ [];
  level = level;
  reason = [];
  signature_id = codes "id";
  veto_only = false;
  kind = kind;
  version = [];
  from_version = [];
  to_version = [];
}

abbrev exactly_at : Bytes → Bytes → SigInfo
exactly_at level v = record {
  decision = decided level exact;
  is_delta = false;
  exact_version = v;
  from_version = [];
  to_version = [];
}

abbrev between : Bytes → Bytes → Bytes → SigInfo
between level from to = record {
  decision = decided level delta;
  is_delta = true;
  exact_version = [];
  from_version = from;
  to_version = to;
}

-- 1.0 is vetted, and the step from it to 1.1 allowed.
abbrev sigs : List SigInfo
sigs = exactly_at level_vetted v1 ∷ between level_allowed v1 v2 ∷ []

order_up : compare_versions v1 v2 ≡ Ordering.lt
unfolding compare_versions tillit.Resolver.Version.compare_numeric_dotted tillit.Base.Order.padded
    tillit.Base.split tillit.Resolver.Version.split_pre_release tillit.Base.cut
    tillit.Base.trim_prefix tillit.Resolver.Version.compare_segments tillit.Base.atoi
order_up = refl

answer_up :
    version_verdict sigs v2
    ≡ some (record { status = allowed; decisions = decided level_allowed delta ∷ [] })
unfolding version_verdict resolve_version find any gather contribution covers compare_versions
    tillit.Resolver.Version.compare_numeric_dotted tillit.Base.Order.padded tillit.Base.split
    tillit.Resolver.Version.split_pre_release tillit.Base.cut tillit.Base.trim_prefix
    tillit.Resolver.Version.compare_segments tillit.Base.atoi tillit.Resolver.Version.compare_pre
    tillit.Base.Release.empty_last tillit.Base.compare_bytes tillit.Base.digits
    tillit.Base.drop_prefix tillit.Base.is_digit tillit.Base.unsigned ◌==◌ aggregate aggregate_from
answer_up = refl

base_vetted :
    version_verdict sigs v1
    ≡ some (record { status = vetted; decisions = decided level_vetted exact ∷ [] })
unfolding version_verdict resolve_version find any gather contribution covers compare_versions
    tillit.Resolver.Version.compare_numeric_dotted tillit.Base.Order.padded tillit.Base.split
    tillit.Resolver.Version.split_pre_release tillit.Base.cut tillit.Base.trim_prefix
    tillit.Resolver.Version.compare_segments tillit.Base.atoi tillit.Resolver.Version.compare_pre
    tillit.Base.Release.empty_last tillit.Base.compare_bytes tillit.Base.digits
    tillit.Base.drop_prefix tillit.Base.is_digit tillit.Base.unsigned ◌==◌ aggregate aggregate_from
base_vetted = refl

-- 1.1 is rejected besides.
abbrev vetoed : List SigInfo
vetoed = exactly_at level_rejected v2 ∷ sigs

abbrev veto : Verdict
veto = record {
  status = rejected;
  decisions = decided level_rejected exact ∷ decided level_allowed delta ∷ [];
}

answer_veto : version_verdict vetoed v2 ≡ some veto
unfolding version_verdict resolve_version find any gather contribution covers compare_versions
    tillit.Resolver.Version.compare_numeric_dotted tillit.Base.Order.padded tillit.Base.split
    tillit.Resolver.Version.split_pre_release tillit.Base.cut tillit.Base.trim_prefix
    tillit.Resolver.Version.compare_segments tillit.Base.atoi tillit.Resolver.Version.compare_pre
    tillit.Base.Release.empty_last tillit.Base.compare_bytes tillit.Base.digits
    tillit.Base.drop_prefix tillit.Base.is_digit tillit.Base.unsigned ◌==◌ aggregate aggregate_from
answer_veto = refl

version_verdict_returns_example : (v : Verdict) × (version_verdict vetoed v2 ≡ some v)
version_verdict_returns_example = version_verdict_returns vetoed v2

rejected_iff_example : (veto.status ≡ rejected) ↔ IsRejected vetoed v2
rejected_iff_example = rejected_iff vetoed v2 veto answer_veto

trusted-backed_example :
    ((s : SigInfo) × Counts sigs v2 s × IsPositive s.decision.level) × ¬ IsRejected sigs v2
trusted-backed_example = trusted-backed sigs v2 _ answer_up refl

exact-trusted_example : is_trusted vetted ≡ true
exact-trusted_example =
    exact-trusted sigs v1 _ (exactly_at level_vetted v1) base_vetted (here refl) refl refl
      (inr refl) (trusted-backed sigs v1 _ base_vetted refl).1

aggregate-precedence_example :
    aggregate (decided level_allowed delta ∷ decided level_vetted exact ∷ []) ≡ vetted
unfolding aggregate has_level any ◌==◌
aggregate-precedence_example =
    aggregate-precedence (decided level_allowed delta ∷ decided level_vetted exact ∷ [])
