-- ===== src/Commands/Snapshot/Examples.antt =====
-- cmd/tillit/commands/export.go on a small store.
use tillit.Base.{
  Bytes, codes, ℕ, Bool, true, false, Option, none, some, List, [], ◌∷◌, ◌≡◌, refl, pos,
}
use tillit.Localstore.{Store, Key, CachedSignature, CachedUser, PushStateRow, item_signature}
use tillit.Commands.Signing.{SignTools}
use tillit.Commands.Snapshot.{
  ExportDoc, KeyTools, scope_all, build_export_doc, apply_import, import_doc,
}
use tillit.Commands.Snapshot.Merge.{IsMerged, apply_import-IsMerged}
use tillit.Commands.Snapshot.RoundTrip.{empty_store, HasDistinctRows, IsRestored, import-export}

abbrev tools : KeyTools
tools = record {
  decode_base64 = λ text. some text;
  encode_base64 = λ text. text;
  sha256 = λ text. text;
  load_signer = λ algorithm key. some key;
}

abbrev key : Bytes → Key
key name = record { name = name; algorithm = codes "toy"; pubkey = name; privkey = name }

abbrev row : Bytes → ℕ → CachedSignature
row id at = record {
  id = id;
  signer = codes "alice";
  payload = [];
  algorithm = [];
  sig = [];
  uploaded_at = at;
  revoked = false;
  revoked_at = none;
  fetched_at = 0;
}

abbrev user : Bytes → CachedUser
user id = record {
  id = id;
  username = id;
  pubkey = id;
  algorithm = codes "toy";
  fetched_at = 1000000000;
}

abbrev push_to : Bytes → PushStateRow
push_to url = record {
  item_id = codes "1";
  item_type = item_signature;
  server_url = url;
  pushed_at = 3000000000;
}

abbrev store : Store
store = record {
  keys = key (codes "b") ∷ key (codes "a") ∷ [];
  active_key = some (codes "a");
  servers = [];
  peers = [];
  signatures = row (codes "1") 2000000000 ∷ row (codes "2") 1000000000 ∷ [];
  connections = [];
  users = user (codes "alice") ∷ user (codes "bob") ∷ [];
  push_state = push_to (codes "s") ∷ push_to (codes "t") ∷ [];
}

store-HasDistinctRows : HasDistinctRows store
unfolding tillit.Base.any tillit.Base.◌==◌
store-HasDistinctRows = record {
  keys = (refl, (refl, tt));
  peers = tt;
  servers = tt;
  signatures = (refl, (refl, tt));
  connections = tt;
  users = (refl, (refl, tt));
  push_state = (refl, (refl, tt));
}

import-export_example :
    (doc : ExportDoc) × (build_export_doc (λ text. none) tools store scope_all [] 0 ≡ some doc)
    × IsRestored store (apply_import empty_store doc).0
import-export_example = import-export (λ text. none) tools store 0 store-HasDistinctRows

abbrev doc : ExportDoc
doc = record {
  version = 1;
  exported_at = 0;
  active_key = codes "c";
  keys = key (codes "c") ∷ [];
  peers = [];
  servers = [];
  cached_signatures = row (codes "1") 0 ∷ [];
  cached_connections = [];
  cached_users = [];
  push_state = [];
}

refused : (sign_tools : SignTools) → import_doc sign_tools store (record doc { version = 2 }) ≡ none
unfolding import_doc
refused sign_tools = refl

apply_import-IsMerged_example : IsMerged store doc (apply_import store doc).0
apply_import-IsMerged_example = apply_import-IsMerged store doc
