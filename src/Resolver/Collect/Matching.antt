-- ===== src/Resolver/Collect/Matching.antt =====
-- resolver/query.go: which rows of the cache take part in a verdict.
use tillit.Base.{
  Bytes, ◌==◌, ==_iff, true, false, some, List, [], ◌∷◌, any, In, here, there, In-cons, ◌≡◌, refl,
  ◌⊎◌, inl, inr, arith, Bool-cases, Option-cases,
}
use tillit.Models.Payload.{
  Payload, Unmarshal, type_decision, type_delta_decision, type_revocation, level_rejected,
}
use tillit.Localstore.{CachedSignature}
use tillit.Resolver.TrustSet.{TrustEntry, contains}
use tillit.Resolver.Verdict.{SigInfo}
use tillit.Resolver.Collect.{live, exact_sig, delta_sig, revocation_targets, pick_payload, pick}

module _ (unmarshal : Unmarshal) where
  -- A revocation of the row with this identifier stands among the rows.
  pub data IsRevokedIn (rows : List CachedSignature) (id : Bytes) : Type 0 where
    revoked_by :
        (row : CachedSignature) (p : Payload)
        → In row rows
        → unmarshal row.payload ≡ some p
        → p.type ≡ type_revocation
        → p.target_id ≡ id
        → IsRevokedIn rows id

  IsRevokedIn-cons :
      {row : CachedSignature} {rows : List CachedSignature} {id : Bytes}
      → IsRevokedIn rows id
      → IsRevokedIn (row ∷ rows) id
  IsRevokedIn-cons (revoked_by r p m e t i) = revoked_by r p (there m) e t i

  pub targets_sound :
      (rows : List CachedSignature) (id : Bytes)
      → contains id (revocation_targets unmarshal rows) ≡ true
      → IsRevokedIn rows id
  unfolding revocation_targets any
  targets_sound [] id h = absurd (ground arith)
  targets_sound (r ∷ rows) id h = elim (Option-cases (unmarshal r.payload)) [
    | inl e ↦ IsRevokedIn-cons (targets_sound rows id (rw (e, revocation_targets) at h))
    | inr (p, e) ↦ elim (Bool-cases (p.type == type_revocation)) [
      | inr other ↦ IsRevokedIn-cons (targets_sound rows id (ground arith))
      | inl t ↦ elim (Bool-cases (p.target_id == id)) [
        | inl i ↦ revoked_by r p (here refl) e ((==_iff _ _).0 t) ((==_iff _ _).0 i)
        | inr i ↦ IsRevokedIn-cons (targets_sound rows id (ground arith))
      ]
    ]
  ]

  pub targets_complete :
      (rows : List CachedSignature) (id : Bytes)
      → IsRevokedIn rows id
      → contains id (revocation_targets unmarshal rows) ≡ true
  unfolding revocation_targets any
  targets_complete [] id (revoked_by r p m e t i) = elim m [ ]
  targets_complete (x ∷ rows) id (revoked_by r p m e t i) = elim (In-cons r x rows m) [
    | inl same ↦
        let parsed : unmarshal x.payload ≡ some p = rw (← same) e in
        ground (arith, ==_iff p.type type_revocation, ==_iff p.target_id id)
    | inr later ↦
        let rest = targets_complete rows id (revoked_by r p later e t i) in ground (arith, rest)
  ]

  module _ (ecosystem package_id signer : Bytes) (entry : TrustEntry) where
    -- The row is about the package, says what the entry lets through, and became this signature.
    pub record Says (row : CachedSignature) (s : SigInfo) : Type 0 where
      pub payload : Payload
      pub parses : unmarshal row.payload ≡ some payload
      pub same_ecosystem : payload.ecosystem ≡ ecosystem
      pub same_package : payload.package_id ≡ package_id
      pub vetoes : entry.veto_only ≡ true → payload.level ≡ level_rejected
      pub content :
          ((payload.type ≡ type_decision) × (s ≡ exact_sig signer entry row.id payload))
          ⊎ ((payload.type ≡ type_delta_decision) × (s ≡ delta_sig signer entry row.id payload))

    pub pick_sound :
        (revoked : List Bytes) (row : CachedSignature) (s : SigInfo)
        → pick unmarshal ecosystem package_id signer entry revoked row ≡ live s
        → Says row s × (contains row.id revoked ≡ false)
    unfolding pick pick_payload
    pick_sound revoked row s h = elim (Option-cases (unmarshal row.payload)) [
      | inl e ↦ absurd (ground arith)
      | inr (p, e) ↦
          let picked : pick_payload unmarshal ecosystem package_id signer entry revoked row.id p
              ≡ live s =
            rw (e, pick) at h in
          (
            record {
              payload = p;
              parses = e;
              same_ecosystem = ground (arith, ==_iff p.ecosystem ecosystem);
              same_package = ground (arith, ==_iff p.package_id package_id);
              vetoes = ground (arith, ==_iff p.level level_rejected);
              content = elim (Bool-cases (p.type == type_decision)) [
                | inl t ↦ inl ((==_iff _ _).0 t, ground arith)
                | inr t ↦ inr (ground (arith, ==_iff p.type type_delta_decision), ground arith)
              ];
            },
            ground arith,
          )
    ]

    pub pick_complete :
        (revoked : List Bytes) (row : CachedSignature) (s : SigInfo)
        → Says row s
        → contains row.id revoked ≡ false
        → pick unmarshal ecosystem package_id signer entry revoked row ≡ live s
    unfolding pick pick_payload ◌==◌
    pick_complete revoked row s w h = elim w.content [
      | inl (t, e) ↦ ground (
        arith,
        w.parses,
        w.vetoes,
        ==_iff w.payload.ecosystem ecosystem,
        ==_iff w.payload.package_id package_id,
        ==_iff w.payload.level level_rejected,
        ==_iff w.payload.type type_decision,
        w.same_ecosystem,
        w.same_package,
      )
      | inr (t, e) ↦ ground (
        arith,
        w.parses,
        w.vetoes,
        ==_iff w.payload.ecosystem ecosystem,
        ==_iff w.payload.package_id package_id,
        ==_iff w.payload.level level_rejected,
        ==_iff w.payload.type type_decision,
        ==_iff w.payload.type type_delta_decision,
        w.same_ecosystem,
        w.same_package,
      )
    ]
