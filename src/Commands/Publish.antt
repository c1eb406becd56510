-- ===== src/Commands/Publish.antt =====
-- cmd/tillit/commands/sync.go, Publish: uploading the user's own rows to the registered servers. What
-- servers answer is a parameter, which may depend on all that was sent before. What is printed is
-- left out.
pub mod Due
pub mod Settled
pub mod Recorded
pub mod Again
mod Examples
use tillit.Base.{
  Bytes, ◌==◌, ℕ, Bool, true, false, Option, none, some, List, [], ◌∷◌, if◌then◌else◌,
}
use tillit.Base.Keyed.{each}
use tillit.Models.Payload.{Payload, Unmarshal, type_connection, type_connection_revocation}
use tillit.Localstore.{
  Store, Server, CachedSignature, CachedConnection, ItemType, item_signature, item_connection,
  get_cached_signatures_by_signer, get_cached_connections_by_signer, is_pushed, record_push,
}
use tillit.Localstore.Settings.{list_servers}
use tillit.Commands.Snapshot.{KeyTools}
use tillit.Commands.Check.{active_user_id}

-- sigUploadRequest and connUploadRequest
pub record UploadRequest : Type 0 where
  pub id : Bytes
  pub payload : Bytes
  pub algorithm : Bytes
  pub sig : Bytes

-- One upload: what it is, the server, the user and the request.
pub record Upload : Type 0 where
  pub item_type : ItemType
  pub server_url : Bytes
  pub user_id : Bytes
  pub request : UploadRequest

-- Whether an upload is accepted, by all that was sent before it, the newest first.
abbrev pub Answers : Type 0
Answers = List Upload → Upload → Bool

-- The client's store, and what was sent, the newest first.
pub record Run : Type 0 where
  pub store : Store
  pub sent : List Upload

-- The uploads of uploadSignature, which has no id in its request, and uploadConnection.
abbrev pub signature_upload : Bytes → Bytes → CachedSignature → Upload
signature_upload user_id url c = record {
  item_type = item_signature;
  server_url = url;
  user_id = user_id;
  request = record { id = []; payload = c.payload; algorithm = c.algorithm; sig = c.sig };
}

abbrev pub connection_upload : Bytes → Bytes → CachedConnection → Upload
connection_upload user_id url c = record {
  item_type = item_connection;
  server_url = url;
  user_id = user_id;
  request = record { id = c.id; payload = c.payload; algorithm = c.algorithm; sig = c.sig };
}

-- connectionShouldBePushed
unfoldable pub should_be_pushed : Option Payload → Bool
should_be_pushed none = false
should_be_pushed (some p) =
    if p.type == type_connection_revocation
    then true
    else if p.type == type_connection
    then p.public
    else false

abbrev pub connection_should_be_pushed : Unmarshal → CachedConnection → Bool
connection_should_be_pushed unmarshal c = should_be_pushed (unmarshal c.payload)

module _ (unmarshal : Unmarshal) (answers : Answers) (now : ℕ) (user_id : Bytes) where
  -- An item that is due: sent, and recorded as pushed if it was accepted.
  pub push : ItemType → Bytes → Upload → Run → Run
  push type id u run =
      if answers run.sent u
      then record { store = record_push run.store id type u.server_url now; sent = u ∷ run.sent }
      else record { store = run.store; sent = u ∷ run.sent }

  -- The rounds of the two loops for a server.
  pub push_signature : Bytes → Run → CachedSignature → Run
  push_signature url run c =
      if is_pushed run.store c.id item_signature url
      then run
      else push item_signature c.id (signature_upload user_id url c) run

  pub push_connection : Bytes → Run → CachedConnection → Run
  push_connection url run c =
      if connection_should_be_pushed unmarshal c
      then if is_pushed run.store c.id item_connection url
        then run
        else push item_connection c.id (connection_upload user_id url c) run
      else run

  pub push_server : List CachedSignature → List CachedConnection → Run → Server → Run
  push_server sigs conns run server =
      each (push_connection server.url) (each (push_signature server.url) run sigs) conns

-- The rows are read once, before the first upload. `none` is an error; with no rows nothing is done.
pub publish : Unmarshal → KeyTools → Answers → ℕ → Run → Option Run
publish unmarshal tools answers now run = elim (active_user_id tools run.store) [
  | none ↦ none
  | some user_id ↦
      let sigs = get_cached_signatures_by_signer run.store user_id in
      let conns = get_cached_connections_by_signer run.store user_id in
      elim (list_servers run.store) [
        | [] ↦ none
        | v ∷ servers ↦
            some (each (push_server unmarshal answers now user_id sigs conns) run (v ∷ servers))
      ]
]
