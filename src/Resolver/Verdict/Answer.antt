-- ===== src/Resolver/Verdict/Answer.antt =====
-- resolver/query.go: what an answer of resolveVersion has to be.
use tillit.Base.{
  Bytes, ◌==◌, ==_iff, true, false, some, List, ◌∷◌, In, ◌≡◌, refl, ◌⊎◌, inl, inr, arith,
  Bool-cases,
}
use tillit.Models.Payload.{level_rejected}
use tillit.Resolver.Verdict.{
  SigInfo, rejected, Verdict, Cache, ContributingDecision, covers, find, aggregate, is_trusted,
}
use tillit.Resolver.Verdict.Aggregate.{IsPositive, aggregate-rejected_iff, aggregate-IsPositive}
use tillit.Resolver.Verdict.Chain.{exactly, within, IsRejected, rejects, Counts}

-- The signature counts for the version whatever is trusted: it is exact, or it rejects.
abbrev pub MustCount : SigInfo → Bytes → Type 0
MustCount s v =
    ((s.is_delta ≡ false) × (s.exact_version ≡ v))
    ⊎ ((s.is_delta ≡ true) × (covers s v ≡ true) × (s.decision.level ≡ level_rejected))

module _ (sigs : List SigInfo) where
  -- The decisions are those of signatures that count.
  abbrev pub AllCount : Bytes → List ContributingDecision → Type 0
  AllCount v ds =
      (d : ContributingDecision) → In d ds → (s : SigInfo) × Counts sigs v s × (s.decision ≡ d)

  pub record Answer (v : Bytes) (r : Verdict) : Type 0 where
    pub counted : AllCount v r.decisions
    pub status : r.status ≡ aggregate r.decisions
    pub unrejected : is_trusted r.status ≡ true → ¬ IsRejected sigs v

  pub record IsFull (v : Bytes) (r : Verdict) : Type 0 where
    pub answer : Answer v r
    pub must : (s : SigInfo) → In s sigs → MustCount s v → In s.decision r.decisions

  -- The memo table holds full answers only.
  abbrev pub CacheIsFull : Cache → Type 0
  CacheIsFull cache = (v : Bytes) (r : Verdict) → find v cache ≡ some r → IsFull v r

  rejected_must :
      {v : Bytes}
      → IsRejected sigs v
      → (s : SigInfo) × In s sigs × MustCount s v × (s.decision.level ≡ level_rejected)
  rejected_must (rejects s m (exactly d e) l) = (s, m, inl (d, e), l)
  rejected_must (rejects s m (within d c) l) = (s, m, inr (d, c, l), l)

  -- A list of decisions that has all that must count is rejected with the version.
  pub aggregate_rejected :
      (v : Bytes) (ds : List ContributingDecision)
      → ((s : SigInfo) → In s sigs → MustCount s v → In s.decision ds)
      → IsRejected sigs v
      → aggregate ds ≡ rejected
  aggregate_rejected v ds must r =
      let (s, m, n, l) = rejected_must r in
      (aggregate-rejected_iff ds).1 (s.decision, must s m n, l)

  pub verdict-IsFull :
      (v : Bytes) (ds : List ContributingDecision)
      → AllCount v ds
      → ((s : SigInfo) → In s sigs → MustCount s v → In s.decision ds)
      → IsFull v (record { status = aggregate ds; decisions = ds })
  verdict-IsFull v ds all must = record {
    answer = record {
      counted = all;
      status = refl;
      unrejected = λ t r. ground (arith, aggregate_rejected v ds must r);
    };
    must = must;
  }

  pub find-cons-IsFull :
      (k : Bytes) (r : Verdict) (cache : Cache)
      → IsFull k r
      → CacheIsFull cache
      → CacheIsFull ((k, r) ∷ cache)
  unfolding find
  find-cons-IsFull k r cache full h v q e = elim (Bool-cases (k == v)) [
    | inl same ↦ let found : r ≡ q = ground arith in rw (← (==_iff k v).0 same, ← found) full
    | inr other ↦ h v q (rw (other, find) at e)
  ]

  -- A trusted answer is a chain's foundation.
  pub Answer-IsPositive :
      {v : Bytes} {r : Verdict}
      → Answer v r
      → is_trusted r.status ≡ true
      → (t : SigInfo) × Counts sigs v t × IsPositive t.decision.level
  Answer-IsPositive a t =
      let (d, m, l) = aggregate-IsPositive _ (rw a.status at t) in
      let (s, c, e) = a.counted d m in (s, c, rw e l)
