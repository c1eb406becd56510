-- ===== src/Commands/Check/Gate.antt =====
-- cmd/tillit/commands/check.go: what the gate says of a lockfile's packages.
use tillit.Base.{
  Bytes, Bool, true, false, ◌||◌, Option, some, List, [], ◌∷◌, any, map, In, here, there, In-cons,
  ◌≡◌, refl, sym, ◌∙◌, ◌↔◌, ◌≢◌, ◌⊎◌, inl, inr, arith, Bool-cases,
}
use tillit.Models.Payload.{Unmarshal, level_rejected}
use tillit.Localstore.{Store}
use tillit.Resolver.TrustSet.{TrustMap, build_trust_set}
use tillit.Resolver.TrustSet.Loop.{build_trust_set_terminates}
use tillit.Resolver.Verdict.{Status, allowed, vetted, rejected, unknown, Verdict, SigInfo}
use tillit.Resolver.Verdict.Chain.{Matches, IsRejected, rejects}
use tillit.Resolver.Verdict.Terminates.{version_verdict_returns}
use tillit.Resolver.Verdict.Rejection.{rejected_iff}
use tillit.Resolver.Collect.{collect_set, collect_matching, version}
use tillit.Resolver.Collect.Applies.{Applies, collect_set_iff}
use tillit.Commands.Snapshot.{KeyTools}
use tillit.Commands.Check.{
  PackageRef, Edges, Row, row_of, check_rows, is_rejecting, is_rejected, exit_status, checked,
  check_packages, active_user_id,
}

module _ (unmarshal : Unmarshal) (s : Store) (user_id : Bytes) where
  -- A signature that applies to the package, by the user's trust set, is about its version and
  -- rejects it.
  pub record IsVetoed (p : PackageRef) : Type 0 where
    pub trusted : TrustMap
    pub found : build_trust_set unmarshal s user_id user_id ≡ some trusted
    pub sig : SigInfo
    pub applies : Applies unmarshal p.ecosystem p.package_id s trusted sig
    pub about : Matches sig p.version
    pub level : sig.decision.level ≡ level_rejected

  -- The verdict on a package is there, and is a rejection exactly if the package is vetoed.
  version-IsVetoed :
      (p : PackageRef)
      → (v : Verdict) × (version unmarshal s user_id user_id p.ecosystem p.package_id p.version
          ≡ some v)
        × ((v.status ≡ rejected) ↔ IsVetoed p)
  unfolding version collect_matching
  version-IsVetoed p =
      let (m, f) = build_trust_set_terminates unmarshal s user_id user_id in
      let sigs : List SigInfo = (collect_set unmarshal s p.ecosystem p.package_id m).0 in
      let (v, e) = version_verdict_returns sigs p.version in
      let iff = rejected_iff sigs p.version v e in
      (
        v,
        rw (version, collect_matching, f) e,
        (
          (λ r. vetoed m f (iff.0 r)),
          (λ w.
              let same : w.trusted ≡ m = cc (w.found, f) in
              iff.1 (
                rejects w.sig
                  ((collect_set_iff unmarshal s p.ecosystem p.package_id m w.sig).1
                    (rw (← same) w.applies))
                  w.about w.level)),
        ),
      )
    where
      vetoed :
          (m : TrustMap)
          → build_trust_set unmarshal s user_id user_id ≡ some m
          → IsRejected (collect_set unmarshal s p.ecosystem p.package_id m).0 p.version
          → IsVetoed p
      vetoed m f (rejects sig i about level) = record {
        trusted = m;
        found = f;
        sig = sig;
        applies = (collect_set_iff unmarshal s p.ecosystem p.package_id m sig).0 i;
        about = about;
        level = level;
      }

  -- Some package of the list is vetoed.
  abbrev pub SomeVetoed : List PackageRef → Type 0
  SomeVetoed pkgs = (p : PackageRef) × In p pkgs × IsVetoed p

  SomeVetoed-cons :
      (p : PackageRef) (pkgs : List PackageRef)
      → SomeVetoed (p ∷ pkgs)
      → IsVetoed p ⊎ SomeVetoed pkgs
  SomeVetoed-cons p pkgs (q, i, w) = elim (In-cons q p pkgs i) [
    | inl same ↦ inl (rw (← same) w)
    | inr rest ↦ inr (q, rest, w)
  ]

  is_rejecting_iff : (status : Status) → (is_rejecting status ≡ true) ↔ (status ≡ rejected)
  is_rejecting_iff rejected = ((λ h. refl), (λ h. refl))
  is_rejecting_iff allowed = ((λ h. absurd (ground arith)), (λ h. absurd (ground arith)))
  is_rejecting_iff vetted = ((λ h. absurd (ground arith)), (λ h. absurd (ground arith)))
  is_rejecting_iff unknown = ((λ h. absurd (ground arith)), (λ h. absurd (ground arith)))

  any_cons :
      (r : Row) (rows : List Row) (b : Bool)
      → is_rejected r ≡ b
      → any is_rejected (r ∷ rows) ≡ (b || any is_rejected rows)
  unfolding any
  any_cons r rows true e = rw (any, e) refl
  any_cons r rows false e = rw (any, e) refl

  -- The row has the verdict that the user's signatures give on its package.
  pub record IsJudged (r : Row) : Type 0 where
    pub verdict :
        version unmarshal s user_id user_id r.pkg.ecosystem r.pkg.package_id r.pkg.version
        ≡ some r.verdict
    pub status : r.status ≡ r.verdict.status

  -- The packages of the list, in order, each with its verdict.
  pub record AreJudged (pkgs : List PackageRef) (rows : List Row) : Type 0 where
    pub packages : map (λ r. r.pkg) rows ≡ pkgs
    pub judged : (r : Row) → In r rows → IsJudged r

  AreJudged-cons :
      (p : PackageRef) (pkgs : List PackageRef) (v : Verdict) (rows : List Row)
      → version unmarshal s user_id user_id p.ecosystem p.package_id p.version ≡ some v
      → AreJudged pkgs rows
      → AreJudged (p ∷ pkgs) (row_of p v ∷ rows)
  AreJudged-cons p pkgs v rows e rest = record {
    packages = rw (rest.packages) refl;
    judged = λ r i. elim (In-cons r (row_of p v) rows i) [
      | inl same ↦ rw (same) (record { verdict = e; status = refl })
      | inr other ↦ rest.judged r other
    ];
  }

  -- Every package gets its row with its verdict, and some row is rejected exactly if some package is vetoed.
  check_rows-SomeVetoed :
      (pkgs : List PackageRef)
      → (rows : List Row) × (check_rows unmarshal s user_id pkgs ≡ some rows)
        × AreJudged pkgs rows
        × ((any is_rejected rows ≡ true) ↔ SomeVetoed pkgs)
  unfolding check_rows any
  check_rows-SomeVetoed [] = (
    [],
    refl,
    record { packages = refl; judged = λ r i. elim i [ ] },
    ((λ h. absurd (ground arith)), (λ (q, i, w). elim i [ ])),
  )
  check_rows-SomeVetoed (p ∷ pkgs) =
      let (v, e, iff) = version-IsVetoed p in
      let (rows, r, judged, rest) = check_rows-SomeVetoed pkgs in
      (
        row_of p v ∷ rows,
        rw (check_rows, e, r) refl,
        AreJudged-cons p pkgs v rows e judged,
        (
          (λ h. elim (Bool-cases (is_rejecting v.status)) [
            | inl t ↦ (p, here refl, iff.0 ((is_rejecting_iff v.status).0 t))
            | inr t ↦
                let (q, i, w) = rest.0 (sym (any_cons (row_of p v) rows false t) ∙ h) in
                (q, there i, w)
          ]),
          (λ w. elim (SomeVetoed-cons p pkgs w) [
            | inl own ↦ any_cons (row_of p v) rows true ((is_rejecting_iff v.status).1 (iff.1 own))
            | inr other ↦ elim (Bool-cases (is_rejecting v.status)) [
              | inl t ↦ any_cons (row_of p v) rows true t
              | inr t ↦ any_cons (row_of p v) rows false t ∙ rest.1 other
            ]
          ]),
        ),
      )

-- For an active user, the check of a list of packages that is not empty ends with a row for each
-- package, in order, with the verdict that the user's signatures give on it. Then, and for an empty
-- list as well, it exits with 1 exactly if some package is vetoed: a signature that applies to it by
-- the user's trust set is about its version and rejects it. Else it exits with 0.
pub check_packages_iff :
    (unmarshal : Unmarshal) (tools : KeyTools) (s : Store) (user_id : Bytes)
    (pkgs : List PackageRef) (edges : Option Edges)
    → active_user_id tools s ≡ some user_id
    → ((pkgs ≡ [])
        ⊎ ((rows : List Row) × (check_packages unmarshal tools s pkgs edges ≡ checked rows edges)
            × AreJudged unmarshal s user_id pkgs rows))
      × ((exit_status (check_packages unmarshal tools s pkgs edges) ≡ 1)
          ↔ SomeVetoed unmarshal s user_id pkgs)
      × ((exit_status (check_packages unmarshal tools s pkgs edges) ≡ 0)
          ⊎ (exit_status (check_packages unmarshal tools s pkgs edges) ≡ 1))
unfolding check_packages exit_status
check_packages_iff unmarshal tools s user_id [] edges u =
    (inl refl, ((λ h. absurd (ground arith)), (λ (q, i, w). elim i [ ])), inl refl)
check_packages_iff unmarshal tools s user_id (p ∷ pkgs) edges u =
    let (rows, r, judged, iff) = check_rows-SomeVetoed unmarshal s user_id (p ∷ pkgs) in
    let ends : check_packages unmarshal tools s (p ∷ pkgs) edges ≡ checked rows edges =
      rw (check_packages, u, r) refl in
    elim (Bool-cases (any is_rejected rows)) [
      | inl t ↦
          rw (ends, exit_status, t)
            (inr (rows, refl, judged), ((λ h. iff.0 t), (λ w. refl)), inr refl)
      | inr t ↦
          rw (ends, exit_status, t)
            (
              inr (rows, refl, judged),
              ((λ h. absurd (ground arith)), (λ w. absurd (no_veto rows t (iff.1 w)))),
              inl refl,
            )
    ]
  where
    no_veto : (rows : List Row) → any is_rejected rows ≡ false → any is_rejected rows ≢ true
    no_veto rows t h = absurd (ground arith)
