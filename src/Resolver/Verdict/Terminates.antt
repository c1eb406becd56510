-- ===== src/Resolver/Verdict/Terminates.antt =====
-- resolver/query.go: resolveVersion ends, cycles among the deltas included.
use tillit.Base.{
  Bytes, ◌==◌, ==_refl, ℕ, zero, suc, ◌+◌, ◌≤◌, ◌<◌, true, false, not, Option, some, List, [], ◌∷◌,
  In, here, there, length, keep, length-keep, any, ◌≡◌, refl, ◌⊎◌, inl, inr, arith, Bool-cases,
  Option-cases,
}
use tillit.Models.Payload.{level_rejected}
use tillit.Resolver.TrustSet.{contains}
use tillit.Resolver.Verdict.{
  SigInfo, Verdict, Cache, ContributingDecision, covers, find, contribution, gather,
  resolve_version, enough_fuel, version_verdict,
}

-- The signatures whose first version is not under way yet.
open_sigs : List SigInfo → List Bytes → ℕ
open_sigs sigs resolving = length (keep (λ s. not (contains s.from_version resolving)) sigs)

open_sigs-cons-le :
    (sigs : List SigInfo) (v : Bytes) (resolving : List Bytes)
    → open_sigs sigs (v ∷ resolving) ≤ open_sigs sigs resolving
unfolding open_sigs keep any
open_sigs-cons-le [] v resolving = omega arith
open_sigs-cons-le (s ∷ sigs) v resolving = ground (arith, open_sigs-cons-le sigs v resolving)

open_sigs-cons-lt :
    (sigs : List SigInfo) (s : SigInfo) (resolving : List Bytes)
    → In s sigs
    → contains s.from_version resolving ≡ false
    → open_sigs sigs (s.from_version ∷ resolving) < open_sigs sigs resolving
unfolding open_sigs keep any
open_sigs-cons-lt [] s resolving m h = elim m [ ]
open_sigs-cons-lt (x ∷ sigs) s resolving (here e) h =
    rw (← e)
      (ground (arith, ==_refl s.from_version, open_sigs-cons-le sigs s.from_version resolving))
open_sigs-cons-lt (x ∷ sigs) s resolving (there m) h =
    ground (arith, open_sigs-cons-lt sigs s resolving m h)

abbrev Resolve : Type 0
Resolve = Cache → Bytes → Option (Verdict × Cache)

abbrev Returns : Resolve → SigInfo → Type 0
Returns resolve s =
    (cache : Cache) → (r : Verdict × Cache) × (resolve cache s.from_version ≡ some r)

contribution-Returns :
    (resolve : Resolve) (version : Bytes) (s : SigInfo) (cache : Cache)
    → Returns resolve s
    → (r : List ContributingDecision × Cache) × (contribution resolve version s cache ≡ some r)
unfolding contribution
contribution-Returns resolve version s cache h = elim (Bool-cases s.is_delta) [
  | inr e ↦ rw (e, contribution) (_, refl)
  | inl d ↦ elim (Bool-cases (covers s version)) [
    | inr e ↦ rw (e, d, contribution) (_, refl)
    | inl c ↦ elim (Bool-cases (s.decision.level == level_rejected)) [
      | inl e ↦ rw (c, e, d, contribution) (_, refl)
      | inr e ↦ let (r, called) = h cache in rw (c, e, called, d, contribution) (_, refl)
    ]
  ]
]

gather-Returns :
    (resolve : Resolve) (version : Bytes) (sigs : List SigInfo) (cache : Cache)
    → ((s : SigInfo) → In s sigs → Returns resolve s)
    → (r : List ContributingDecision × Cache) × (gather resolve version sigs cache ≡ some r)
unfolding gather
gather-Returns resolve version [] cache h = (_, refl)
gather-Returns resolve version (s ∷ sigs) cache h =
    let (r, e) = contribution-Returns resolve version s cache (h s (here refl)) in
    let (q, f) = gather-Returns resolve version sigs r.1 (λ t m. h t (there m)) in
    rw (e, f, gather) (_, refl)

-- The version is under way already, or there is fuel for all that may still get under way.
abbrev HasFuel : ℕ → List SigInfo → List Bytes → Bytes → Type 0
HasFuel fuel sigs resolving version =
    ((contains version resolving ≡ true) × (0 < fuel))
    ⊎ (open_sigs sigs (version ∷ resolving) + 1 < fuel)

resolve_version_returns :
    (fuel : ℕ) (sigs : List SigInfo) (resolving : List Bytes) (cache : Cache) (version : Bytes)
    → HasFuel fuel sigs resolving version
    → (r : Verdict × Cache) × (resolve_version fuel sigs resolving cache version ≡ some r)
unfolding resolve_version
resolve_version_returns zero sigs resolving cache version h = absurd (omega arith)
resolve_version_returns (suc fuel) sigs resolving cache version h =
    elim (Option-cases (find version cache)) [
      | inr (v, e) ↦ rw (e, resolve_version) (_, refl)
      | inl miss ↦ elim (Bool-cases (contains version resolving)) [
        | inl e ↦ rw (miss, e, resolve_version) (_, refl)
        | inr e ↦
            let more : open_sigs sigs (version ∷ resolving) < fuel = ground arith in
            let (r, f) =
              gather-Returns (resolve_version fuel sigs (version ∷ resolving)) version sigs cache
                (λ s m c.
                  resolve_version_returns fuel sigs (version ∷ resolving) c s.from_version
                    (elim (Bool-cases (contains s.from_version (version ∷ resolving))) [
                      | inl under_way ↦ inl (under_way, omega arith)
                      | inr new ↦
                          inr (omega (arith, open_sigs-cons-lt sigs s (version ∷ resolving) m new))
                    ])) in
            rw (miss, e, f, resolve_version) (_, refl)
      ]
    ]

enough :
    (sigs : List SigInfo) (resolving : List Bytes) (version : Bytes)
    → open_sigs sigs (version ∷ resolving) + 1 < enough_fuel sigs
unfolding open_sigs
enough sigs resolving version =
    omega (
      arith,
      length-keep (λ (s : SigInfo). not (contains s.from_version (version ∷ resolving))) sigs,
    )

-- Every version gets a verdict: the recursion ends, whatever the deltas are.
pub version_verdict_returns :
    (sigs : List SigInfo) (version : Bytes)
    → (v : Verdict) × (version_verdict sigs version ≡ some v)
unfolding version_verdict
version_verdict_returns sigs version =
    let (r, e) =
      resolve_version_returns (enough_fuel sigs) sigs [] [] version
        (inr (enough sigs [] version)) in
    rw (e, version_verdict) (_, refl)
