-- ===== src/Resolver/Verdict/Rejection.antt =====
-- resolver/query.go: what a verdict means.
use tillit.Base.{Bytes, true, false, some, List, In, ◌≡◌, ◌↔◌, inl}
use tillit.Models.Payload.{level_rejected}
use tillit.Resolver.Verdict.{SigInfo, rejected, Verdict, is_trusted, version_verdict}
use tillit.Resolver.Verdict.Aggregate.{IsPositive, aggregate-rejected_iff, aggregate-trusted}
use tillit.Resolver.Verdict.Chain.{
  IsRejected, rejects, exactly, within, Counts, exact, rejecting, chained,
}
use tillit.Resolver.Verdict.Answer.{aggregate_rejected, Answer-IsPositive}
use tillit.Resolver.Verdict.Sound.{version_verdict-IsFull}

module _ (sigs : List SigInfo) where
  Counts-IsRejected :
      {v : Bytes} {s : SigInfo}
      → Counts sigs v s
      → s.decision.level ≡ level_rejected
      → IsRejected sigs v
  Counts-IsRejected (exact {s = s} m plain e) l = rejects s m (exactly plain e) l
  Counts-IsRejected (rejecting {s = s} m delta c l) k = rejects s m (within delta c) l
  Counts-IsRejected (chained t m delta c not_rejected base p u) l = absurd (not_rejected l)

-- A version is rejected exactly if some signature of the trust set that is about it, exact or a
-- delta around it, rejects it: no positive decision and no order of the signatures changes that.
pub rejected_iff :
    (sigs : List SigInfo) (v : Bytes) (r : Verdict)
    → version_verdict sigs v ≡ some r
    → (r.status ≡ rejected) ↔ IsRejected sigs v
rejected_iff sigs v r e =
    let full = version_verdict-IsFull sigs v r e in
    (
      λ h.
          let (d, m, l) = (aggregate-rejected_iff r.decisions).0 (cc (h, full.answer.status)) in
          let (s, c, same) = full.answer.counted d m in Counts-IsRejected sigs c (rw (← same) at l),
      λ h. cc (full.answer.status, aggregate_rejected sigs v r.decisions full.must h),
    )

-- A version that comes out as vetted or allowed is backed: some signature that vets or allows counts
-- for it, by a finite chain of deltas that starts at an exact decision and passes only versions that
-- nobody rejects; and nobody rejects the version itself.
pub trusted-backed :
    (sigs : List SigInfo) (v : Bytes) (r : Verdict)
    → version_verdict sigs v ≡ some r
    → is_trusted r.status ≡ true
    → ((s : SigInfo) × Counts sigs v s × IsPositive s.decision.level) × ¬ IsRejected sigs v
trusted-backed sigs v r e t =
    let full = version_verdict-IsFull sigs v r e in
    (Answer-IsPositive sigs full.answer t, full.answer.unrejected t)

-- One exact decision that vets or allows is enough, unless some signature rejects the version.
pub exact-trusted :
    (sigs : List SigInfo) (v : Bytes) (r : Verdict) (s : SigInfo)
    → version_verdict sigs v ≡ some r
    → In s sigs
    → s.is_delta ≡ false
    → s.exact_version ≡ v
    → IsPositive s.decision.level
    → ¬ IsRejected sigs v
    → is_trusted r.status ≡ true
exact-trusted sigs v r s e m plain at positive unrejected =
    let full = version_verdict-IsFull sigs v r e in
    let counted = full.must s m (inl (plain, at)) in
    rw (full.answer.status) (
      aggregate-trusted r.decisions s.decision counted positive
        (λ h. unrejected ((rejected_iff sigs v r e).0 (cc (h, full.answer.status)))))
