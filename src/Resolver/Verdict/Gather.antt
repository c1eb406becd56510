-- ===== src/Resolver/Verdict/Gather.antt =====
-- resolver/query.go: what the loop over the signatures gathers.
use tillit.Base.{
  Bytes, ◌==◌, ==_iff, Bool, true, false, Option, some, List, [], ◌∷◌, ◌++◌, In, here, there,
  In-cons, In-append_left, In-append_right, In-append_cases, ◌≡◌, refl, sym, ◌≢◌, inl, inr, arith,
  Bool-cases, Option-cases, if◌then◌else◌,
}
use tillit.Models.Payload.{level_rejected}
use tillit.Resolver.Verdict.{
  SigInfo, Verdict, Cache, ContributingDecision, covers, contribution, gather, is_trusted,
}
use tillit.Resolver.Verdict.Chain.{Counts, exact, rejecting, chained}
use tillit.Resolver.Verdict.Answer.{MustCount, AllCount, Answer, CacheIsFull, Answer-IsPositive}

module _ (sigs : List SigInfo) where
  module _ (resolve : Cache → Bytes → Option (Verdict × Cache))
      (resolve_answers : (cache : Cache) (v : Bytes) (r : Verdict) (cache' : Cache)
        → CacheIsFull sigs cache
        → resolve cache v ≡ some (r, cache')
        → Answer sigs v r × CacheIsFull sigs cache')
      (version : Bytes) where
    pub record Gathered (part : List SigInfo) (ds : List ContributingDecision) (cache : Cache)
        : Type 0 where
      pub counted : AllCount sigs version ds
      pub must : (s : SigInfo) → In s part → MustCount s version → In s.decision ds
      pub full : CacheIsFull sigs cache

    -- The decision of a signature that counts, alone.
    one-Gathered :
        (s : SigInfo) (cache : Cache)
        → Counts sigs version s
        → CacheIsFull sigs cache
        → Gathered (s ∷ []) (s.decision ∷ []) cache
    one-Gathered s cache c h = record {
      counted = λ d m. elim (In-cons _ _ _ m) [ inl e ↦ (s, c, sym e) | inr n ↦ elim n [ ] ];
      must = λ t m n. elim (In-cons _ _ _ m) [ inl e ↦ rw e (here refl) | inr n' ↦ elim n' [ ] ];
      full = h;
    }

    none-Gathered :
        (s : SigInfo) (cache : Cache)
        → ¬ MustCount s version
        → CacheIsFull sigs cache
        → Gathered (s ∷ []) [] cache
    none-Gathered s cache no_must h = record {
      counted = λ d m. elim m [ ];
      must = λ t m n. elim (In-cons _ _ _ m) [
        | inl e ↦ absurd (no_must (rw e at n))
        | inr n' ↦ elim n' [ ]
      ];
      full = h;
    }

    -- A delta that does not reject counts if its first version is trusted.
    asked-Gathered :
        (s : SigInfo) (cache cache' : Cache) (r : Verdict)
        → In s sigs
        → s.is_delta ≡ true
        → covers s version ≡ true
        → s.decision.level ≢ level_rejected
        → CacheIsFull sigs cache
        → resolve cache s.from_version ≡ some (r, cache')
        → (trusted : Bool) → is_trusted r.status ≡ trusted
        → Gathered (s ∷ []) (if trusted then s.decision ∷ [] else []) cache'
    asked-Gathered s cache cache' r m delta c l h e true t =
        let (a, full) = resolve_answers cache s.from_version r cache' h e in
        let (base, counts, positive) = Answer-IsPositive sigs a t in
        one-Gathered s cache' (chained base m delta c l counts positive (a.unrejected t)) full
    asked-Gathered s cache cache' r m delta c l h e false t =
        let (a, full) = resolve_answers cache s.from_version r cache' h e in
        none-Gathered s cache' (λ n. ground arith) full

    contribution-Gathered :
        (s : SigInfo) (cache : Cache) (ds : List ContributingDecision) (cache' : Cache)
        → In s sigs
        → CacheIsFull sigs cache
        → contribution resolve version s cache ≡ some (ds, cache')
        → Gathered (s ∷ []) ds cache'
    unfolding contribution
    contribution-Gathered s cache ds cache' m h e = elim (Bool-cases s.is_delta) [
      | inr plain ↦
          let kept : cache ≡ cache' = ground arith in
          elim (Bool-cases (s.exact_version == version)) [
            | inl at ↦
                let one : s.decision ∷ [] ≡ ds = ground arith in
                rw (← one, ← kept) (one-Gathered s cache (exact m plain ((==_iff _ _).0 at)) h)
            | inr off ↦
                let nothing : [] ≡ ds = ground arith in
                rw (← nothing, ← kept)
                  (none-Gathered s cache (λ n. ground (arith, ==_iff s.exact_version version)) h)
          ]
      | inl delta ↦ elim (Bool-cases (covers s version)) [
        | inr out ↦
            let nothing : [] ≡ ds = ground arith in
            let kept : cache ≡ cache' = ground arith in
            rw (← nothing, ← kept) (none-Gathered s cache (λ n. ground arith) h)
        | inl c ↦ elim (Bool-cases (s.decision.level == level_rejected)) [
          | inl rej ↦
              let one : s.decision ∷ [] ≡ ds = ground arith in
              let kept : cache ≡ cache' = ground arith in
              rw (← one, ← kept) (one-Gathered s cache (rejecting m delta c ((==_iff _ _).0 rej)) h)
          | inr other ↦ elim (Option-cases (resolve cache s.from_version)) [
            | inl lost ↦ absurd (ground arith)
            | inr (answer, asked) ↦
                let result : (if is_trusted answer.0.status then s.decision ∷ [] else []) ≡ ds =
                  ground arith in
                let kept : answer.1 ≡ cache' = ground arith in
                rw (← result, ← kept)
                  (asked-Gathered s cache answer.1 answer.0 m delta c
                    (λ l. ground (arith, ==_iff s.decision.level level_rejected)) h asked
                    (is_trusted answer.0.status) refl)
          ]
        ]
      ]
    ]

    pub gather-Gathered :
        (part : List SigInfo) (cache : Cache) (ds : List ContributingDecision) (cache' : Cache)
        → ((s : SigInfo) → In s part → In s sigs)
        → CacheIsFull sigs cache
        → gather resolve version part cache ≡ some (ds, cache')
        → Gathered part ds cache'
    unfolding gather
    gather-Gathered [] cache ds cache' sub h e =
        let nothing : [] ≡ ds = cc e in
        let kept : cache ≡ cache' = cc e in
        rw (← nothing, ← kept)
          (record { counted = λ d m. elim m [ ]; must = λ s m n. elim m [ ]; full = h })
    gather-Gathered (s ∷ part) cache ds cache' sub h e =
        elim (Option-cases (contribution resolve version s cache)) [
          | inl lost ↦ absurd (ground arith)
          | inr ((first, middle), f) ↦ elim (Option-cases (gather resolve version part middle)) [
            | inl lost ↦ absurd (ground arith)
            | inr ((rest, last), g) ↦
                let all : first ++ rest ≡ ds = ground arith in
                let kept : last ≡ cache' = ground arith in
                let a = contribution-Gathered s cache first middle (sub s (here refl)) h f in
                let b = gather-Gathered part middle rest last (λ t m. sub t (there m)) a.full g in
                rw (← all, ← kept)
                  (record {
                    counted = λ d m. elim (In-append_cases first rest m) [
                      | inl left ↦ a.counted d left
                      | inr right ↦ b.counted d right
                    ];
                    must = λ t m n. elim (In-cons t s part m) [
                      | inl same ↦ In-append_left rest (a.must t (here same) n)
                      | inr later ↦ In-append_right first (b.must t later n)
                    ];
                    full = b.full;
                  })
          ]
        ]
