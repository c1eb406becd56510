-- ===== src/Resolver/Verdict/Aggregate.antt =====
-- resolver/query.go: the precedence of levels, whatever the order of the decisions.
use tillit.Base.{
  Bytes, ◌==◌, ==_iff, Bool, true, false, not, ◌&&◌, ◌||◌, List, [], ◌∷◌, In, any, any_iff, ◌≡◌,
  ◌≢◌, ◌↔◌, ◌⊎◌, inl, inr, if◌then◌else◌, arith, Bool-cases,
}
use tillit.Models.Payload.{level_allowed, level_vetted, level_rejected}
use tillit.Resolver.Verdict.{
  allowed, vetted, rejected, unknown, ContributingDecision, aggregate_from, aggregate, is_trusted,
}

-- Some decision has this level.
unfoldable pub has_level : Bytes → List ContributingDecision → Bool
has_level l ds = any (λ d. d.level == l) ds

aggregate_from-eq :
    (v a : Bool) (ds : List ContributingDecision)
    → aggregate_from v a ds ≡ (
        if has_level level_rejected ds
        then rejected
        else if v || has_level level_vetted ds
        then vetted
        else if a || has_level level_allowed ds
        then allowed
        else unknown)
unfolding aggregate_from has_level any
aggregate_from-eq v a [] = ground arith
aggregate_from-eq v a (d ∷ ds) = ground (
  arith,
  aggregate_from-eq (v || d.level == level_vetted)
      (a || not (d.level == level_vetted) && d.level == level_allowed) ds,
)

-- The status depends only on which levels occur among the decisions: rejected wins over vetted,
-- vetted over allowed, and without any of the three the status is unknown.
pub aggregate-precedence :
    (ds : List ContributingDecision)
    → aggregate ds ≡ (
        if has_level level_rejected ds
        then rejected
        else if has_level level_vetted ds
        then vetted
        else if has_level level_allowed ds
        then allowed
        else unknown)
unfolding aggregate
aggregate-precedence ds = aggregate_from-eq false false ds

-- Vetted or allowed.
abbrev pub IsPositive : Bytes → Type 0
IsPositive l = (l ≡ level_allowed) ⊎ (l ≡ level_vetted)

pub has_level_iff :
    (l : Bytes) (ds : List ContributingDecision)
    → (has_level l ds ≡ true) ↔ ((d : ContributingDecision) × In d ds × (d.level ≡ l))
unfolding has_level
has_level_iff l ds = (
  λ h.
      let (d, m, e) = (any_iff (λ (x : ContributingDecision). x.level == l) ds).0 h in
      (d, m, (==_iff d.level l).0 e),
  λ (d, m, e).
      (any_iff (λ (x : ContributingDecision). x.level == l) ds).1 (d, m, (==_iff d.level l).1 e),
)

pub aggregate-rejected_iff :
    (ds : List ContributingDecision)
    → (aggregate ds ≡ rejected)
      ↔ ((d : ContributingDecision) × In d ds × (d.level ≡ level_rejected))
aggregate-rejected_iff ds = (
  λ h. (has_level_iff level_rejected ds).0 (ground (arith, aggregate-precedence ds)),
  λ w. ground (arith, aggregate-precedence ds, (has_level_iff level_rejected ds).1 w),
)

pub aggregate-IsPositive :
    (ds : List ContributingDecision)
    → is_trusted (aggregate ds) ≡ true
    → (d : ContributingDecision) × In d ds × IsPositive d.level
aggregate-IsPositive ds h = elim (Bool-cases (has_level level_vetted ds)) [
  | inl e ↦ let (d, m, l) = (has_level_iff level_vetted ds).0 e in (d, m, inr l)
  | inr e ↦
      let (d, m, l) =
        (has_level_iff level_allowed ds).0 (ground (arith, aggregate-precedence ds)) in
      (d, m, inl l)
]

pub aggregate-trusted :
    (ds : List ContributingDecision) (d : ContributingDecision)
    → In d ds
    → IsPositive d.level
    → aggregate ds ≢ rejected
    → is_trusted (aggregate ds) ≡ true
aggregate-trusted ds d m (inl e) h =
    ground (arith, aggregate-precedence ds, (has_level_iff level_allowed ds).1 (d, m, e))
aggregate-trusted ds d m (inr e) h =
    ground (arith, aggregate-precedence ds, (has_level_iff level_vetted ds).1 (d, m, e))
