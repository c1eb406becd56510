-- ===== src/Models/Payload/Examples.antt =====
-- models/payload.go: a well-formed decision.
use tillit.Base.{Bytes, codes, Bool, true, false, none, some, [], ◌≡◌, refl, ◌≢◌, ◌↔◌, pos}
use tillit.Models.Payload.{Payload, validate, type_decision, level_vetted, level_invalid}
use tillit.Models.Payload.Validity.{IsWellFormed, validate_iff}

abbrev decision : Bytes → Payload
decision level = record {
  type = type_decision;
  signer = codes "alice";
  ecosystem = codes "go";
  package_id = codes "p";
  level = level;
  reason = [];
  target_id = [];
  version = codes "1";
  from_version = [];
  to_version = [];
  other_id = [];
  public = true;
  trust = false;
  trust_extends = pos 0;
}

accepted : validate (decision level_vetted) ≡ none
unfolding validate tillit.Base.◌==◌
accepted = refl

refused : validate (decision (codes "fine")) ≡ some (level_invalid (codes "fine"))
unfolding validate tillit.Base.◌==◌
refused = refl

validate_iff_example :
    (validate (decision level_vetted) ≡ none)
    ↔ (((decision level_vetted).signer ≢ []) × IsWellFormed (decision level_vetted))
validate_iff_example = validate_iff (decision level_vetted)
