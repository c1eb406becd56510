-- ===== src/Models/Payload/Validity.antt =====
-- models/payload.go: Validate accepts exactly the well-formed payloads.
use tillit.Base.{
  Bytes, ◌==◌, ==_iff, ◌≡◌, ◌≢◌, ◌⊎◌, inl, inr, ◌↔◌, true, none, [], arith, Bool-cases,
}
use tillit.Models.Payload.{
  Payload, type_decision, type_delta_decision, type_revocation, type_connection,
  type_connection_revocation, level_allowed, level_vetted, level_rejected, valid_level, validate,
}

abbrev pub IsLevel : Bytes → Type 0
IsLevel l = (l ≡ level_allowed) ⊎ ((l ≡ level_vetted) ⊎ (l ≡ level_rejected))

-- What each type of payload has to say.
pub data IsWellFormed (p : Payload) : Type 0 where
  decision :
      p.type ≡ type_decision
      → p.ecosystem ≢ []
      → p.package_id ≢ []
      → p.version ≢ []
      → IsLevel p.level
      → IsWellFormed p
  delta_decision :
      p.type ≡ type_delta_decision
      → p.ecosystem ≢ []
      → p.package_id ≢ []
      → p.from_version ≢ []
      → p.to_version ≢ []
      → p.from_version ≢ p.to_version
      → IsLevel p.level
      → IsWellFormed p
  revocation : p.type ≡ type_revocation → p.target_id ≢ [] → IsWellFormed p
  connection : p.type ≡ type_connection → p.other_id ≢ [] → IsWellFormed p
  connection_revocation : p.type ≡ type_connection_revocation → p.target_id ≢ [] → IsWellFormed p

valid_level_iff : (l : Bytes) → (valid_level l ≡ true) ↔ IsLevel l
unfolding valid_level
valid_level_iff l =
    ground (arith, ==_iff l level_allowed, ==_iff l level_vetted, ==_iff l level_rejected)

module _ (p : Payload) where
  validate_sound : validate p ≡ none → (p.signer ≢ []) × IsWellFormed p
  unfolding validate
  validate_sound h = (
    ground (arith, ==_iff p.signer []),
    elim (Bool-cases (p.type == type_decision)) [
      | inl e ↦
          decision ((==_iff _ _).0 e) (ground (arith, ==_iff p.ecosystem []))
            (ground (arith, ==_iff p.package_id [])) (ground (arith, ==_iff p.version []))
            ((valid_level_iff p.level).0 (ground arith))
      | inr n1 ↦ elim (Bool-cases (p.type == type_delta_decision)) [
        | inl e ↦
            delta_decision ((==_iff _ _).0 e) (ground (arith, ==_iff p.ecosystem []))
              (ground (arith, ==_iff p.package_id [])) (ground (arith, ==_iff p.from_version []))
              (ground (arith, ==_iff p.to_version []))
              (ground (arith, ==_iff p.from_version p.to_version))
              ((valid_level_iff p.level).0 (ground arith))
        | inr n2 ↦ elim (Bool-cases (p.type == type_revocation)) [
          | inl e ↦ revocation ((==_iff _ _).0 e) (ground (arith, ==_iff p.target_id []))
          | inr n3 ↦ elim (Bool-cases (p.type == type_connection)) [
            | inl e ↦ connection ((==_iff _ _).0 e) (ground (arith, ==_iff p.other_id []))
            | inr n4 ↦
                connection_revocation (ground (arith, ==_iff p.type type_connection_revocation))
                  (ground (arith, ==_iff p.target_id []))
          ]
        ]
      ]
    ],
  )

  validate_complete : p.signer ≢ [] → IsWellFormed p → validate p ≡ none
  unfolding validate
  validate_complete s (decision e eco pkg v l) = ground (
    arith,
    ==_iff p.signer [],
    ==_iff p.type type_decision,
    ==_iff p.ecosystem [],
    ==_iff p.package_id [],
    ==_iff p.version [],
    (valid_level_iff p.level).1 l,
  )
  validate_complete s (delta_decision e eco pkg f t d l) = ground (
    arith,
    ==_iff p.signer [],
    ==_iff p.type type_decision,
    ==_iff p.type type_delta_decision,
    ==_iff p.ecosystem [],
    ==_iff p.package_id [],
    ==_iff p.from_version [],
    ==_iff p.to_version [],
    ==_iff p.from_version p.to_version,
    (valid_level_iff p.level).1 l,
  )
  validate_complete s (revocation e t) = ground (
    arith,
    ==_iff p.signer [],
    ==_iff p.type type_decision,
    ==_iff p.type type_delta_decision,
    ==_iff p.type type_revocation,
    ==_iff p.target_id [],
  )
  validate_complete s (connection e o) = ground (
    arith,
    ==_iff p.signer [],
    ==_iff p.type type_decision,
    ==_iff p.type type_delta_decision,
    ==_iff p.type type_revocation,
    ==_iff p.type type_connection,
    ==_iff p.other_id [],
  )
  validate_complete s (connection_revocation e t) = ground (
    arith,
    ==_iff p.signer [],
    ==_iff p.type type_decision,
    ==_iff p.type type_delta_decision,
    ==_iff p.type type_revocation,
    ==_iff p.type type_connection,
    ==_iff p.type type_connection_revocation,
    ==_iff p.target_id [],
  )

-- Validate accepts a payload exactly if it names a signer and says all that its type asks for: the
-- package, the versions (two different ones for a delta) and a level, a target, or another user.
pub validate_iff : (p : Payload) → (validate p ≡ none) ↔ ((p.signer ≢ []) × IsWellFormed p)
validate_iff p = (validate_sound p, λ w. validate_complete p w.0 w.1)
