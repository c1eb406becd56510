-- ===== src/Resolver/Verdict/Sound.antt =====
-- resolver/query.go: what a verdict rests on.
use tillit.Base.{
  Bytes, ℕ, zero, suc, false, some, List, [], ◌∷◌, ◌≡◌, refl, inl, inr, arith, Bool-cases,
  Option-cases, any,
}
use tillit.Resolver.TrustSet.{contains}
use tillit.Resolver.Verdict.{
  SigInfo, Status, Verdict, Cache, find, gather, aggregate, resolve_version, version_verdict,
  enough_fuel,
}
use tillit.Resolver.Verdict.Answer.{Answer, IsFull, CacheIsFull, verdict-IsFull, find-cons-IsFull}
use tillit.Resolver.Verdict.Gather.{gather-Gathered}

module _ (sigs : List SigInfo) where
  -- What a call gives: an answer, a memo table of full answers, and a full answer unless the version
  -- was under way.
  record Resolved (resolving : List Bytes) (v : Bytes) (r : Verdict) (cache : Cache) : Type 0 where
    answer : Answer sigs v r
    full : CacheIsFull sigs cache
    top : contains v resolving ≡ false → IsFull sigs v r

  unknown-Answer : (v : Bytes) → Answer sigs v (record { status = Status.unknown; decisions = [] })
  unfolding aggregate
  unknown-Answer v = record { counted = λ d m. elim m [ ]; status = refl; unrejected = λ t. cc t }

  resolve_version-Resolved :
      (fuel : ℕ) (resolving : List Bytes) (cache : Cache) (v : Bytes) (r : Verdict) (cache' : Cache)
      → CacheIsFull sigs cache
      → resolve_version fuel sigs resolving cache v ≡ some (r, cache')
      → Resolved resolving v r cache'
  unfolding resolve_version
  resolve_version-Resolved zero resolving cache v r cache' h e = cc
  resolve_version-Resolved (suc fuel) resolving cache v r cache' h e =
      elim (Option-cases (find v cache)) [
        | inr (hit, f) ↦
            let same : hit ≡ r = ground arith in
            let kept : cache ≡ cache' = ground arith in
            let found = h v hit f in
            rw (← same, ← kept) (record { answer = found.answer; full = h; top = λ _. found })
        | inl miss ↦ elim (Bool-cases (contains v resolving)) [
          | inl under_way ↦
              let same : record { status = Status.unknown; decisions = [] } ≡ r = ground arith in
              let kept : cache ≡ cache' = ground arith in
              rw (← same, ← kept)
                (record { answer = unknown-Answer v; full = h; top = λ free. ground arith })
          | inr free ↦
              elim (Option-cases
                (gather (resolve_version fuel sigs (v ∷ resolving)) v sigs cache)) [
                  | inl lost ↦ absurd (ground arith)
                  | inr ((ds, middle), g) ↦
                      let gathered =
                        gather-Gathered sigs (resolve_version fuel sigs (v ∷ resolving))
                          (λ c w q c' full f.
                            let s = resolve_version-Resolved fuel (v ∷ resolving) c w q c' full f in
                            (s.answer, s.full))
                          v sigs cache ds middle (λ s m. m) h g in
                      let full = verdict-IsFull sigs v ds gathered.counted gathered.must in
                      let same : record { status = aggregate ds; decisions = ds } ≡ r =
                        ground arith in
                      let kept : (v, record { status = aggregate ds; decisions = ds }) ∷ middle
                          ≡ cache' =
                        ground arith in
                      rw (← same, ← kept)
                        (record {
                          answer = full.answer;
                          full = find-cons-IsFull sigs v _ middle full gathered.full;
                          top = λ _. full;
                        })
                ]
        ]
      ]

  pub version_verdict-IsFull :
      (v : Bytes) (r : Verdict) → version_verdict sigs v ≡ some r → IsFull sigs v r
  unfolding version_verdict find any
  version_verdict-IsFull v r e =
      elim (Option-cases (resolve_version (enough_fuel sigs) sigs [] [] v)) [
        | inl lost ↦ absurd (ground arith)
        | inr ((q, cache), f) ↦
            let same : q ≡ r = ground arith in
            rw (← same) (
              (resolve_version-Resolved (enough_fuel sigs) [] [] v q cache (λ w p g. cc g) f).top
                refl)
      ]
