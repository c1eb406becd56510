-- ===== src/Resolver/Collect/Applies.antt =====
-- resolver/query.go: what collectMatching returns, row by row.
use tillit.Base.{
  Bytes, ◌==◌, ==_iff, ltb, false, List, [], ◌∷◌, keep, In, here, there, In-cons, In-keep_iff,
  In-sort_iff, In-append_left, In-append_right, In-append_cases, ◌≡◌, refl, ◌↔◌, ◌⊎◌, inl, inr,
  arith, Bool-cases,
}
use tillit.Models.Payload.{Unmarshal}
use tillit.Localstore.{Store, CachedSignature, get_cached_signatures_by_signer}
use tillit.Resolver.TrustSet.{TrustEntry, TrustMap, contains}
use tillit.Resolver.Verdict.{SigInfo, ContributingDecision}
use tillit.Resolver.Collect.{
  Picked, skipped, live, withdrawn, revocation_targets, pick, collect_rows, collect_signer,
  collect_set,
}
use tillit.Resolver.Collect.Matching.{
  IsRevokedIn, targets_sound, targets_complete, Says, pick_sound, pick_complete,
}

In-rows_iff :
    (store : Store) (signer : Bytes) (row : CachedSignature)
    → In row (get_cached_signatures_by_signer store signer)
      ↔ (In row store.signatures × (row.signer ≡ signer))
unfolding get_cached_signatures_by_signer
In-rows_iff store signer row =
    let own = λ (q : CachedSignature). q.signer == signer in
    let sorted =
      In-sort_iff (λ (p q : CachedSignature). ltb p.uploaded_at q.uploaded_at) row
        (keep own store.signatures) in
    let kept = In-keep_iff own row store.signatures in
    (
      λ m. let (k, e) = kept.0 (sorted.0 m) in (k, (==_iff row.signer signer).0 e),
      λ (m, e). sorted.1 (kept.1 (m, (==_iff row.signer signer).1 e)),
    )

module _ (unmarshal : Unmarshal) (ecosystem package_id : Bytes) where
  Picked-cases :
      (x : Picked)
      → (x ≡ skipped)
        ⊎ (((s : SigInfo) × (x ≡ live s)) ⊎ ((d : ContributingDecision) × (x ≡ withdrawn d)))
  Picked-cases skipped = inl refl
  Picked-cases (live s) = inr (inl (s, refl))
  Picked-cases (withdrawn d) = inr (inr (d, refl))

  module _ (signer : Bytes) (entry : TrustEntry) (revoked : List Bytes) where
    abbrev PickedFrom : List CachedSignature → SigInfo → Type 0
    PickedFrom rows s =
        (row : CachedSignature) × In row rows
        × (pick unmarshal ecosystem package_id signer entry revoked row ≡ live s)

    collect_rows_sound :
        (rows : List CachedSignature) (s : SigInfo)
        → In s (collect_rows unmarshal ecosystem package_id signer entry revoked rows).0
        → PickedFrom rows s
    unfolding collect_rows
    collect_rows_sound [] s m = elim m [ ]
    collect_rows_sound (r ∷ rows) s m =
        elim (Picked-cases (pick unmarshal ecosystem package_id signer entry revoked r)) [
          | inl e ↦
              let (q, n, f) = collect_rows_sound rows s (rw (e, collect_rows) at m) in
              (q, there n, f)
          | inr (inl (x, e)) ↦ elim (In-cons s x _ (rw (e, collect_rows) at m)) [
            | inl same ↦ (r, here refl, rw same e)
            | inr rest ↦ let (q, n, f) = collect_rows_sound rows s rest in (q, there n, f)
          ]
          | inr (inr (d, e)) ↦
              let (q, n, f) = collect_rows_sound rows s (rw (e, collect_rows) at m) in
              (q, there n, f)
        ]

    collect_rows_complete :
        (rows : List CachedSignature) (s : SigInfo)
        → PickedFrom rows s
        → In s (collect_rows unmarshal ecosystem package_id signer entry revoked rows).0
    unfolding collect_rows
    collect_rows_complete [] s (q, m, f) = elim m [ ]
    collect_rows_complete (r ∷ rows) s (q, m, f) = elim (In-cons q r rows m) [
      | inl same ↦
          let picked : pick unmarshal ecosystem package_id signer entry revoked r ≡ live s =
            rw (← same) f in
          rw (picked, collect_rows) (here refl)
      | inr later ↦
          let ih = collect_rows_complete rows s (q, later, f) in
          elim (Picked-cases (pick unmarshal ecosystem package_id signer entry revoked r)) [
            | inl e ↦ rw (e, collect_rows) ih
            | inr (inl (x, e)) ↦ rw (e, collect_rows) (there ih)
            | inr (inr (d, e)) ↦ rw (e, collect_rows) ih
          ]
    ]

  -- Why a signature takes part: some row of a trusted signer, of his own signing, is about the
  -- package, says what the signer's entry lets through, and is not revoked by that signer.
  pub record Applies (store : Store) (m : TrustMap) (s : SigInfo) : Type 0 where
    pub signer : Bytes
    pub entry : TrustEntry
    pub trusted : In (signer, entry) m
    pub row : CachedSignature
    pub stored : In row store.signatures
    pub own : row.signer ≡ signer
    pub says : Says unmarshal ecosystem package_id signer entry row s
    pub standing : ¬ IsRevokedIn unmarshal (get_cached_signatures_by_signer store signer) row.id

  Applies-cons :
      {store : Store} {e : Bytes × TrustEntry} {m : TrustMap} {s : SigInfo}
      → Applies store m s
      → Applies store (e ∷ m) s
  Applies-cons a = record {
    signer = a.signer;
    entry = a.entry;
    trusted = there a.trusted;
    row = a.row;
    stored = a.stored;
    own = a.own;
    says = a.says;
    standing = a.standing;
  }

  module _ (store : Store) where
    collect_set_sound :
        (m : TrustMap) (s : SigInfo)
        → In s (collect_set unmarshal store ecosystem package_id m).0
        → Applies store m s
    unfolding collect_set collect_signer
    collect_set_sound [] s i = elim i [ ]
    collect_set_sound ((signer, entry) ∷ m) s i =
        let rows = get_cached_signatures_by_signer store signer in
        elim (In-append_cases _ _ i) [
          | inl mine ↦
              let (row, n, f) =
                collect_rows_sound signer entry (revocation_targets unmarshal rows) rows s mine in
              let (stored, own) = (In-rows_iff store signer row).0 n in
              let (says, free) =
                pick_sound unmarshal ecosystem package_id signer entry
                  (revocation_targets unmarshal rows) row s f in
              record {
                signer = signer;
                entry = entry;
                trusted = here refl;
                row = row;
                stored = stored;
                own = own;
                says = says;
                standing = λ r. ground (arith, targets_complete unmarshal rows row.id r);
              }
          | inr others ↦ Applies-cons (collect_set_sound m s others)
        ]

    collect_signer_complete :
        (signer : Bytes) (entry : TrustEntry) (row : CachedSignature) (s : SigInfo)
        → In row store.signatures
        → row.signer ≡ signer
        → Says unmarshal ecosystem package_id signer entry row s
        → ¬ IsRevokedIn unmarshal (get_cached_signatures_by_signer store signer) row.id
        → In s (collect_signer unmarshal store ecosystem package_id (signer, entry)).0
    unfolding collect_signer
    collect_signer_complete signer entry row s stored own says standing =
        let rows = get_cached_signatures_by_signer store signer in
        let targets = revocation_targets unmarshal rows in
        let free : contains row.id targets ≡ false = elim (Bool-cases (contains row.id targets)) [
          | inl e ↦ absurd (standing (targets_sound unmarshal rows row.id e))
          | inr e ↦ e
        ] in
        collect_rows_complete signer entry targets rows s (
          row,
          (In-rows_iff store signer row).1 (stored, own),
          pick_complete unmarshal ecosystem package_id signer entry targets row s says free,
        )

    collect_set_complete :
        (m : TrustMap) (s : SigInfo) (a : Applies store m s)
        → In s (collect_set unmarshal store ecosystem package_id m).0
    unfolding collect_set
    collect_set_complete [] s a = elim a.trusted [ ]
    collect_set_complete (e ∷ m) s a = elim (In-cons _ _ _ a.trusted) [
      | inl same ↦
          let mine : In s (collect_signer unmarshal store ecosystem package_id e).0 =
            rw (← same)
              (collect_signer_complete a.signer a.entry a.row s a.stored a.own a.says a.standing) in
          In-append_left _ mine
      | inr later ↦ In-append_right _ (
          collect_set_complete m s (record {
            signer = a.signer;
            entry = a.entry;
            trusted = later;
            row = a.row;
            stored = a.stored;
            own = a.own;
            says = a.says;
            standing = a.standing;
          }))
    ]

-- The signatures that count for a package are exactly those of trusted signers, in their own rows,
-- that name the ecosystem and the package, reject if the signer's entry is limited to vetoes, and
-- are not revoked by a revocation of the same signer. Nothing else gets in, and none is lost.
pub collect_set_iff :
    (unmarshal : Unmarshal) (store : Store) (ecosystem package_id : Bytes) (m : TrustMap)
    (s : SigInfo)
    → In s (collect_set unmarshal store ecosystem package_id m).0
      ↔ Applies unmarshal ecosystem package_id store m s
collect_set_iff unmarshal store ecosystem package_id m s = (
  collect_set_sound unmarshal ecosystem package_id store m s,
  collect_set_complete unmarshal ecosystem package_id store m s,
)
