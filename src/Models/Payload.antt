-- ===== src/Models/Payload.antt =====
-- models/payload.go: what a signed payload says, and when it is well formed.
-- `json.Unmarshal` is not modelled: it is the parameter `Unmarshal` of the parts that read payloads.
pub mod Validity
mod Examples
use Prim.Native.Nat.{ℕ}
use tillit.Base.{
  Bytes, codes, ◌==◌, ℤ, Bool, true, false, not, ◌||◌, Option, none, some, [], if◌then◌else◌,
}

abbrev pub type_decision : Bytes
type_decision = codes "decision"

abbrev pub type_delta_decision : Bytes
type_delta_decision = codes "delta_decision"

abbrev pub type_revocation : Bytes
type_revocation = codes "revocation"

abbrev pub type_connection : Bytes
type_connection = codes "connection"

abbrev pub type_connection_revocation : Bytes
type_connection_revocation = codes "connection_revocation"

abbrev pub level_allowed : Bytes
level_allowed = codes "allowed"

abbrev pub level_vetted : Bytes
level_vetted = codes "vetted"

abbrev pub level_rejected : Bytes
level_rejected = codes "rejected"

-- `level` and `type` are strings in the source: any text may stand there.
pub record Payload : Type 0 where
  pub type : Bytes
  pub signer : Bytes
  pub ecosystem : Bytes
  pub package_id : Bytes
  pub level : Bytes
  pub reason : Bytes
  pub target_id : Bytes
  pub version : Bytes
  pub from_version : Bytes
  pub to_version : Bytes
  pub other_id : Bytes
  pub public : Bool
  pub trust : Bool
  pub trust_extends : ℤ

-- `json.Unmarshal` into a Payload, `none` on an error.
abbrev pub Unmarshal : Type 0
Unmarshal = Bytes → Option Payload

-- What Validate complains about; `nil` is `none`.
pub data PayloadError : Type 0 where
  signer_missing ecosystem_missing package_id_missing version_missing : PayloadError
  from_version_missing to_version_missing versions_equal : PayloadError
  target_id_missing other_id_missing : PayloadError
  level_invalid type_unknown : Bytes → PayloadError

pub valid_level : Bytes → Bool
valid_level l = l == level_allowed || l == level_vetted || l == level_rejected

unfoldable pub is_revocation : Payload → Bool
is_revocation p = p.type == type_revocation

-- A check of Validate: an error if the test fails, else the checks below it.
abbrev require : Bool → PayloadError → Option PayloadError → Option PayloadError
require ok e rest = if ok then rest else some e

unfoldable pub validate : Payload → Option PayloadError
unfolding valid_level
validate p = require (not (p.signer == [])) signer_missing (
    if p.type == type_decision
    then require (not (p.ecosystem == [])) ecosystem_missing (
        require (not (p.package_id == [])) package_id_missing (
          require (not (p.version == [])) version_missing
            (require (valid_level p.level) (level_invalid p.level) none)))
    else if p.type == type_delta_decision
    then require (not (p.ecosystem == [])) ecosystem_missing (
        require (not (p.package_id == [])) package_id_missing (
          require (not (p.from_version == [])) from_version_missing (
            require (not (p.to_version == [])) to_version_missing (
              require (not (p.from_version == p.to_version)) versions_equal
                (require (valid_level p.level) (level_invalid p.level) none)))))
    else if p.type == type_revocation
    then require (not (p.target_id == [])) target_id_missing none
    else if p.type == type_connection
    then require (not (p.other_id == [])) other_id_missing none
    else if p.type == type_connection_revocation
    then require (not (p.target_id == [])) target_id_missing none
    else some (type_unknown p.type))
