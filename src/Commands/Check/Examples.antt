-- ===== src/Commands/Check/Examples.antt =====
-- cmd/tillit/commands/check.go on a store where the user's own signature rejects a version.
use tillit.Base.{
  Bytes, codes, ◌==◌, ℕ, Bool, true, false, Option, none, some, List, [], ◌∷◌, ◌≡◌, refl, ◌↔◌, ◌⊎◌,
  pos, if◌then◌else◌,
}
use tillit.Models.Payload.{Payload, Unmarshal, type_decision, level_vetted, level_rejected}
use tillit.Localstore.{CachedSignature, Store, Key}
use tillit.Commands.Snapshot.{KeyTools}
use tillit.Commands.Check.{
  PackageRef, Row, checked, exit_status, check_packages, parse_check_args, matching_files,
  find_lockfile, Files, Adapter,
}
use tillit.Commands.Check.Gate.{AreJudged, SomeVetoed, check_packages_iff}

abbrev alice : Bytes
alice = codes "alice"

abbrev decides : Bytes → Payload
decides level = record {
  type = type_decision;
  signer = alice;
  ecosystem = codes "go";
  package_id = codes "p";
  level = level;
  reason = [];
  target_id = [];
  version = codes "1";
  from_version = [];
  to_version = [];
  other_id = [];
  public = true;
  trust = false;
  trust_extends = pos 0;
}

abbrev parse : Unmarshal
parse text =
    if text == codes "yes"
    then some (decides level_vetted)
    else if text == codes "no"
    then some (decides level_rejected)
    else none

abbrev row : Bytes → Bytes → CachedSignature
row id payload = record {
  id = id;
  signer = alice;
  payload = payload;
  algorithm = [];
  sig = [];
  uploaded_at = 0;
  revoked = false;
  revoked_at = none;
  fetched_at = 0;
}

abbrev store : Store
store = record {
  keys = record { name = codes "k"; algorithm = []; pubkey = alice; privkey = [] } ∷ [];
  active_key = some (codes "k");
  servers = [];
  peers = [];
  signatures = row (codes "1") (codes "yes") ∷ row (codes "2") (codes "no") ∷ [];
  connections = [];
  users = [];
  push_state = [];
}

abbrev tools : KeyTools
tools = record {
  decode_base64 = λ text. some text;
  encode_base64 = λ text. text;
  sha256 = λ text. text;
  load_signer = λ algorithm key. some key;
}

abbrev item : PackageRef
item = record {
  ecosystem = codes "go";
  package_id = codes "p";
  version = codes "1";
  direct = true;
  hash = [];
  source = [];
}

flags :
    parse_check_args (codes "-e" ∷ codes "go" ∷ codes "go.sum" ∷ [])
    ≡ some (codes "go", codes "go.sum")
unfolding tillit.Commands.Check.parse_check_args_from ◌==◌ tillit.Base.has_prefix
flags = refl

no_value : parse_check_args (codes "-e" ∷ []) ≡ none
unfolding tillit.Commands.Check.parse_check_args_from ◌==◌
no_value = refl

check_packages_iff_example :
    (((item ∷ []) ≡ [])
      ⊎ ((rows : List Row) × (check_packages parse tools store (item ∷ []) none ≡ checked rows none)
          × AreJudged parse store alice (item ∷ []) rows))
    × ((exit_status (check_packages parse tools store (item ∷ []) none) ≡ 1)
        ↔ SomeVetoed parse store alice (item ∷ []))
    × ((exit_status (check_packages parse tools store (item ∷ []) none) ≡ 0)
        ⊎ (exit_status (check_packages parse tools store (item ∷ []) none) ≡ 1))
unfolding tillit.Commands.Check.active_user_id tillit.Localstore.Settings.get_active_key
    tillit.Localstore.Settings.get_key tillit.Base.first ◌==◌
check_packages_iff_example = check_packages_iff parse tools store alice (item ∷ []) none refl
