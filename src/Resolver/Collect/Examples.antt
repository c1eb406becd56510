-- ===== src/Resolver/Collect/Examples.antt =====
-- resolver/query.go: collecting from a store with a veto-only signer.
use tillit.Base.{
  Bytes, codes, ◌==◌, Bool, true, false, Option, none, some, List, [], ◌∷◌, In, ◌≡◌, refl, ◌↔◌, pos,
  if◌then◌else◌,
}
use tillit.Models.Payload.{Payload, Unmarshal, type_decision, level_vetted, level_rejected}
use tillit.Localstore.{CachedSignature, Store}
use tillit.Resolver.TrustSet.{TrustEntry, TrustMap}
use tillit.Resolver.Verdict.{SigInfo}
use tillit.Resolver.Collect.{exact_sig, collect_set}
use tillit.Resolver.Collect.Applies.{Applies, collect_set_iff}

abbrev alice : Bytes
alice = codes "alice"

abbrev decides : Bytes → Payload
decides level = record {
  type = type_decision;
  signer = alice;
  ecosystem = codes "go";
  package_id = codes "p";
  level = level;
  reason = [];
  target_id = [];
  version = codes "1";
  from_version = [];
  to_version = [];
  other_id = [];
  public = true;
  trust = false;
  trust_extends = pos 0;
}

abbrev parse : Unmarshal
parse text =
    if text == codes "yes"
    then some (decides level_vetted)
    else if text == codes "no"
    then some (decides level_rejected)
    else none

abbrev row : Bytes → Bytes → CachedSignature
row id payload = record {
  id = id;
  signer = alice;
  payload = payload;
  algorithm = [];
  sig = [];
  uploaded_at = 0;
  revoked = false;
  revoked_at = none;
  fetched_at = 0;
}

abbrev store : Store
store = record {
  keys = [];
  active_key = none;
  servers = [];
  peers = [];
  signatures = row (codes "1") (codes "yes") ∷ row (codes "2") (codes "no") ∷ [];
  connections = [];
  users = [];
  push_state = [];
}

abbrev entry : TrustEntry
entry = record { path = alice ∷ []; veto_only = true }

abbrev trusted : TrustMap
trusted = (alice, entry) ∷ []

abbrev no : SigInfo
no = exact_sig alice entry (codes "2") (decides level_rejected)

only_veto : (collect_set parse store (codes "go") (codes "p") trusted).0 ≡ no ∷ []
unfolding collect_set tillit.Resolver.Collect.collect_signer tillit.Resolver.Collect.collect_rows
    tillit.Localstore.get_cached_signatures_by_signer tillit.Base.sort tillit.Base.keep ◌==◌
    tillit.Resolver.Collect.pick tillit.Resolver.Collect.pick_payload tillit.Base.any
    tillit.Resolver.Collect.revocation_targets
only_veto = refl

collect_set_iff_example :
    In no (collect_set parse store (codes "go") (codes "p") trusted).0
    ↔ Applies parse (codes "go") (codes "p") store trusted no
collect_set_iff_example = collect_set_iff parse store (codes "go") (codes "p") trusted no
