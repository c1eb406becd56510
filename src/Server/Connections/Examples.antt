-- ===== src/Server/Connections/Examples.antt =====
-- handlers/connectionhandler.go: one upload, with a key that signs by repeating the text.
use tillit.Base.{
  Bytes, codes, ◌==◌, ℕ, Bool, true, false, Option, none, some, List, [], ◌∷◌, In, here, ◌≡◌, refl,
  pos, if◌then◌else◌,
}
use tillit.Models.Payload.{Payload, Unmarshal, type_connection}
use tillit.Models.Signature.{frame}
use tillit.Server.Database.{User, Connection, Database}
use tillit.Server.Signatures.{Crypto}
use tillit.Server.Connections.{ConnInput, new_connection, create_connection_handler}
use tillit.Server.Connections.Faithful.{IsFaithful, create_connection_handler-IsFaithful}

abbrev toy : Crypto
toy = record {
  decode_base64 = λ text. some text;
  verifier = λ user. some (λ text sig. text == sig);
  digest = λ text. text;
}

abbrev alice : User
alice = record {
  id = codes "alice";
  username = codes "Alice";
  pubkey = codes "key";
  algorithm = codes "toy";
  is_admin = false;
}

abbrev trusting : Payload
trusting = record {
  type = type_connection;
  signer = codes "alice";
  ecosystem = [];
  package_id = [];
  level = [];
  reason = [];
  target_id = [];
  version = [];
  from_version = [];
  to_version = [];
  other_id = codes "bob";
  public = true;
  trust = true;
  trust_extends = pos 2;
}

abbrev parse : Unmarshal
parse text = if text == codes "trust" then some trusting else none

abbrev upload : ConnInput
upload = record {
  id = frame (codes "trust") (codes "trust");
  payload = codes "trust";
  algorithm = [];
  sig = codes "trust";
}

abbrev before : Database
before = record { users = alice ∷ []; signatures = []; connections = [] }

abbrev stored_row : Connection
stored_row = record {
  id = frame (codes "trust") (codes "trust");
  owner = codes "alice";
  other_id = codes "bob";
  public = true;
  trust = true;
  trust_extends = pos 2;
  payload = codes "trust";
  algorithm = [];
  sig = codes "trust";
  created_at = 0;
  revoked = false;
  revoked_at = none;
}

row_stored :
    In stored_row
      (create_connection_handler toy parse before (codes "alice") (some upload) 0).1.connections
unfolding create_connection_handler tillit.Server.Database.get_user tillit.Base.first ◌==◌
    tillit.Server.Signatures.check_signature frame tillit.Models.Signature.signature_id
    tillit.Server.Signatures.read_payload tillit.Models.Payload.validate
    tillit.Server.Connections.apply_payload tillit.Server.Database.create_connection tillit.Base.any
    new_connection
row_stored = here refl

create_connection_handler-IsFaithful_example :
    IsFaithful toy parse
      (create_connection_handler toy parse before (codes "alice") (some upload) 0).1
      stored_row
create_connection_handler-IsFaithful_example =
    create_connection_handler-IsFaithful toy parse before (codes "alice") (some upload) 0
      (λ r m. elim m [ ]) stored_row row_stored
