-- ===== src/Commands/Sign.antt =====
-- cmd/tillit/commands/sign.go: signing decisions and revocations. What is printed is left out; the
-- adapters of the ecosystems are a parameter.
pub mod Revokes
mod Examples
use Prim.Native.Nat.{Ordering}
use tillit.Base.{
  Bytes, codes, ◌==◌, ℕ, Bool, true, false, not, Option, none, some, List, [], ◌∷◌, first, pos,
  if◌then◌else◌,
}
use tillit.Models.Payload.{Payload, type_decision, type_delta_decision, type_revocation}
use tillit.Localstore.{Store, CachedSignature, save_cached_signature}
use tillit.Commands.Signing.{Signer, SignTools, SignedItem, active_signer_and_id, sign_payload}

-- What the commands use of an adapter; `resolve_version` is whether the version is there.
pub record VersionRules : Type 0 where
  pub ecosystem : Bytes
  pub validate_version : Bytes → Bool
  pub compare_versions : Bytes → Bytes → Ordering
  pub resolve_version : Bytes → Bytes → Bool

-- The level, the reason, and whether to skip the check that the version exists.
abbrev pub SignFlags : Type 0
SignFlags = Bytes × Bytes × Bool

abbrev pub with_level : SignFlags → Option SignFlags
with_level (level, reason, skip) = if level == [] then none else some (level, reason, skip)

-- The loop of parseSignFlags, with the flags so far.
pub parse_sign_flags_from : SignFlags → List Bytes → Option SignFlags
parse_sign_flags_from flags [] = with_level flags
parse_sign_flags_from (level, reason, skip) (a ∷ []) =
    if a == codes "--skip-verify" then with_level (level, reason, true) else none
parse_sign_flags_from (level, reason, skip) (a ∷ b ∷ args) =
    let as_level = parse_sign_flags_from (b, reason, skip) args in
    let as_reason = parse_sign_flags_from (level, b, skip) args in
    let as_skip = parse_sign_flags_from (level, reason, true) (b ∷ args) in
    if a == codes "--level"
    then as_level
    else if a == codes "--reason"
    then as_reason
    else if a == codes "--skip-verify"
    then as_skip
    else none

abbrev pub parse_sign_flags : List Bytes → Option SignFlags
parse_sign_flags args = parse_sign_flags_from ([], [], false) args

pub adapter_for_ecosystem : List VersionRules → Bytes → Option VersionRules
adapter_for_ecosystem adapters name = first (λ a. a.ecosystem == name) adapters

-- The checks of the two commands; `true` is no error.
pub version_is_valid : Option VersionRules → Bytes → Bytes → Bool → Bool
version_is_valid none package_id v skip = true
version_is_valid (some a) package_id v skip =
    if not (a.validate_version v)
    then false
    else if skip
    then true
    else a.resolve_version package_id v

abbrev pub precedes : VersionRules → Bytes → Bytes → Bool
precedes a from_version to_version = elim (a.compare_versions from_version to_version) [
  | Ordering.lt ↦ true
  | _ ↦ false
]

pub delta_is_valid : Option VersionRules → Bytes → Bytes → Bytes → Bool → Bool
delta_is_valid none package_id from_version to_version skip = true
delta_is_valid (some a) package_id from_version to_version skip =
    if not (a.validate_version from_version)
    then false
    else if not (a.validate_version to_version)
    then false
    else if not (precedes a from_version to_version)
    then false
    else if skip
    then true
    else if not (a.resolve_version package_id from_version)
    then false
    else a.resolve_version package_id to_version

abbrev pub empty_payload : Bytes → Bytes → Payload
empty_payload type signer = record {
  type = type;
  signer = signer;
  ecosystem = [];
  package_id = [];
  level = [];
  reason = [];
  target_id = [];
  version = [];
  from_version = [];
  to_version = [];
  other_id = [];
  public = false;
  trust = false;
  trust_extends = pos 0;
}

abbrev pub revocation : Bytes → Bytes → Payload
revocation user_id target_id = record (empty_payload type_revocation user_id) {
  target_id = target_id;
}

abbrev pub signed_row : Bytes → ℕ → SignedItem → CachedSignature
signed_row user_id now item = record {
  id = item.id;
  signer = user_id;
  payload = item.payload;
  algorithm = item.algorithm;
  sig = item.sig;
  uploaded_at = now;
  revoked = false;
  revoked_at = none;
  fetched_at = now;
}

module _ (tools : SignTools) (now nonce : ℕ) where
  -- signAndCache: the new signature's id, and the store.
  pub sign_and_cache : Store → Signer → Bytes → Payload → Option (Bytes × Store)
  sign_and_cache s signer user_id p = elim (sign_payload tools signer nonce p) [
    | none ↦ none
    | some item ↦ some (item.id, save_cached_signature s (signed_row user_id now item))
  ]

  pub sign_version : List VersionRules → Store → List Bytes → Option (Bytes × Store)
  sign_version adapters s (ecosystem ∷ package_id ∷ v ∷ args) = elim (parse_sign_flags args) [
    | none ↦ none
    | some (level, reason, skip) ↦
        if not (version_is_valid (adapter_for_ecosystem adapters ecosystem) package_id v skip)
        then none
        else elim (active_signer_and_id tools s) [
          | none ↦ none
          | some (signer, user_id) ↦
              sign_and_cache s signer user_id (record (empty_payload type_decision user_id) {
                ecosystem = ecosystem;
                package_id = package_id;
                version = v;
                level = level;
                reason = reason;
              })
        ]
  ]
  sign_version adapters s _ = none

  pub sign_delta : List VersionRules → Store → List Bytes → Option (Bytes × Store)
  sign_delta adapters s (ecosystem ∷ package_id ∷ from_version ∷ to_version ∷ args) =
      elim (parse_sign_flags args) [
        | none ↦ none
        | some (level, reason, skip) ↦
            if not (
              delta_is_valid (adapter_for_ecosystem adapters ecosystem) package_id from_version
                to_version skip)
            then none
            else elim (active_signer_and_id tools s) [
              | none ↦ none
              | some (signer, user_id) ↦
                  sign_and_cache s signer user_id
                    (record (empty_payload type_delta_decision user_id) {
                      ecosystem = ecosystem;
                      package_id = package_id;
                      from_version = from_version;
                      to_version = to_version;
                      level = level;
                      reason = reason;
                    })
            ]
      ]
  sign_delta adapters s _ = none

  -- Sign
  pub sign : List VersionRules → Store → List Bytes → Option (Bytes × Store)
  sign adapters s [] = none
  sign adapters s (sub ∷ rest) =
      if sub == codes "version"
      then sign_version adapters s rest
      else if sub == codes "delta"
      then sign_delta adapters s rest
      else none

  -- Revoke of one argument; more of them are not read.
  pub revoke : Store → Bytes → Option (Bytes × Store)
  revoke s target_id = elim (active_signer_and_id tools s) [
    | none ↦ none
    | some (signer, user_id) ↦ sign_and_cache s signer user_id (revocation user_id target_id)
  ]
