-- ===== src/Commands/Publish/Examples.antt =====
-- cmd/tillit/commands/sync.go, Publish, on a store with one server.
use tillit.Base.{
  Bytes, codes, ◌==◌, ℕ, Bool, true, false, Option, none, some, List, [], ◌∷◌, ◌≡◌, ◌≢◌, refl,
  arith, map, In, pos, not, if◌then◌else◌,
}
use tillit.Models.Payload.{Payload, Unmarshal}
use tillit.Localstore.{CachedSignature, CachedConnection, Store, ItemType, item_signature}
use tillit.Localstore.Settings.{list_servers}
use tillit.Commands.Snapshot.{KeyTools}
use tillit.Commands.Publish.{Upload, Answers, Run, publish, should_be_pushed}
use tillit.Commands.Publish.Due.{Grows, publish-Grows}
use tillit.Commands.Publish.Again.{starting, Achieves, publish_again}
use tillit.Commands.Publish.Settled.{IsAnswered}

abbrev alice : Bytes
alice = codes "alice"

abbrev tools : KeyTools
tools = record {
  decode_base64 = λ text. some text;
  encode_base64 = λ text. text;
  sha256 = λ text. text;
  load_signer = λ algorithm key. some key;
}

abbrev connects : Bool → Payload
connects public = record {
  type = codes "connection";
  signer = alice;
  ecosystem = [];
  package_id = [];
  level = [];
  reason = [];
  target_id = [];
  version = [];
  from_version = [];
  to_version = [];
  other_id = codes "bob";
  public = public;
  trust = true;
  trust_extends = pos 1;
}

abbrev parse : Unmarshal
parse text =
    if text == codes "public"
    then some (connects true)
    else if text == codes "private"
    then some (connects false)
    else none

abbrev conn : Bytes → CachedConnection
conn payload = record {
  id = payload;
  signer = alice;
  other_id = codes "bob";
  payload = payload;
  algorithm = [];
  sig = [];
  created_at = 0;
  revoked = false;
  revoked_at = none;
  fetched_at = 0;
}

abbrev row : Bytes → CachedSignature
row id = record {
  id = id;
  signer = alice;
  payload = id;
  algorithm = [];
  sig = [];
  uploaded_at = 0;
  revoked = false;
  revoked_at = none;
  fetched_at = 0;
}

abbrev store : Store
store = record {
  keys = record { name = codes "k"; algorithm = []; pubkey = alice; privkey = [] } ∷ [];
  active_key = some (codes "k");
  servers = record { url = codes "s"; alias = []; user_id = []; last_synced_at = none } ∷ [];
  peers = [];
  signatures = row (codes "1") ∷ row (codes "2") ∷ [];
  connections = conn (codes "public") ∷ conn (codes "private") ∷ [];
  users = [];
  push_state =
      record {
        item_id = codes "1";
        item_type = item_signature;
        server_url = codes "s";
        pushed_at = 0;
      }
      ∷ [];
}

abbrev start : Run
start = record { store = store; sent = [] }

-- An upload needs an id, as the server's check of a signature has it.
abbrev requires_id : Answers
requires_id sent u = not (u.request.id == [])

sends : List Bytes
sends = elim (publish parse tools requires_id 0 start) [
  | none ↦ []
  | some run ↦ map (λ u. u.request.payload) run.sent
]

-- The private connection is not sent, nor the signature that was pushed.
sends_the_rest : sends ≡ codes "public" ∷ codes "2" ∷ []
unfolding sends publish tillit.Commands.Check.active_user_id
    tillit.Localstore.Settings.get_active_key tillit.Localstore.Settings.get_key tillit.Base.first
    ◌==◌ list_servers tillit.Base.sort tillit.Base.Keyed.each tillit.Commands.Publish.push_server
    tillit.Localstore.get_cached_connections_by_signer tillit.Base.keep
    tillit.Localstore.get_cached_signatures_by_signer tillit.Commands.Publish.push_signature
    tillit.Localstore.is_pushed tillit.Base.any tillit.Base.insert tillit.Base.compare_bytes
    tillit.Commands.Publish.push tillit.Commands.Publish.push_connection should_be_pushed
    tillit.Localstore.record_push
sends_the_rest = refl

records : List Bytes
records = elim (publish parse tools requires_id 0 start) [
  | none ↦ []
  | some run ↦ map (λ r. r.item_id) run.store.push_state
]

-- The signature is sent without an id, and so refused.
records_the_connection : records ≡ codes "1" ∷ codes "public" ∷ []
unfolding records publish tillit.Commands.Check.active_user_id
    tillit.Localstore.Settings.get_active_key tillit.Localstore.Settings.get_key tillit.Base.first
    ◌==◌ list_servers tillit.Base.sort tillit.Base.Keyed.each tillit.Commands.Publish.push_server
    tillit.Localstore.get_cached_connections_by_signer tillit.Base.keep
    tillit.Localstore.get_cached_signatures_by_signer tillit.Commands.Publish.push_signature
    tillit.Localstore.is_pushed tillit.Base.any tillit.Base.insert tillit.Base.compare_bytes
    tillit.Commands.Publish.push tillit.Commands.Publish.push_connection should_be_pushed
    tillit.Localstore.record_push
records_the_connection = refl

one_server : list_servers store ≢ []
unfolding list_servers tillit.Base.sort tillit.Base.insert
one_server e = absurd (ground arith)

publish-Grows_example :
    (run : Run) × (publish parse tools requires_id 0 start ≡ some run) × Grows parse alice start run
unfolding tillit.Commands.Check.active_user_id tillit.Localstore.Settings.get_active_key
    tillit.Localstore.Settings.get_key tillit.Base.first ◌==◌
publish-Grows_example = publish-Grows parse tools requires_id 0 start alice refl one_server

publish_again_example :
    (run : Run) × (publish parse tools requires_id 0 (starting store) ≡ some run)
    × Achieves requires_id parse alice store run
    × ((answers : Answers) (later : ℕ)
        → (next : Run) × (publish parse tools answers later (starting run.store) ≡ some next)
          × ((w : Upload) → In w next.sent → IsAnswered requires_id false w run.sent))
unfolding tillit.Commands.Check.active_user_id tillit.Localstore.Settings.get_active_key
    tillit.Localstore.Settings.get_key tillit.Base.first ◌==◌
publish_again_example = publish_again parse tools requires_id 0 store alice refl one_server
