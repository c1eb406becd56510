-- ===== src/Server/Connections.antt =====
-- handlers/connectionhandler.go: uploading, revoking and listing connections.
-- Parameters as in handlers/signaturehandler.go's model.
pub mod Faithful
mod Examples
use tillit.Base.{Bytes, ◌==◌, ℕ, Bool, true, false, not, Option, none, some, List, if◌then◌else◌}
use tillit.Models.Payload.{Payload, Unmarshal, type_connection, type_connection_revocation}
use tillit.Server.Database.{
  User, Connection, Database, get_user, get_connection, create_connection, revoke_connection,
  get_user_public_connections,
}
use tillit.Server.Signatures.{Crypto, is_user, check_signature, read_payload}

-- The request's body.
pub record ConnInput : Type 0 where
  pub id : Bytes
  pub payload : Bytes
  pub algorithm : Bytes
  pub sig : Bytes

-- An HTTP status with an error text, 201 with the new connection, or 204.
pub data ConnResponse : Type 0 where
  failed : ℕ → ConnResponse
  created_connection : Connection → ConnResponse
  no_content : ConnResponse

pub new_connection : Bytes → ConnInput → Payload → ℕ → Connection
new_connection user_id input p now = record {
  id = input.id;
  owner = user_id;
  other_id = p.other_id;
  public = p.public;
  trust = p.trust;
  trust_extends = p.trust_extends;
  payload = input.payload;
  algorithm = input.algorithm;
  sig = input.sig;
  created_at = now;
  revoked = false;
  revoked_at = none;
}

-- The branch of a connection revocation.
pub revoke_branch : Database → Bytes → Payload → ℕ → ConnResponse × Database
revoke_branch d user_id p now = elim (get_connection d p.target_id) [
  | none ↦ (failed 404, d)
  | some target ↦
      if not (target.owner == user_id)
      then (failed 403, d)
      else elim (revoke_connection d p.target_id now) [
        | none ↦ (failed 404, d)
        | some d' ↦ (no_content, d')
      ]
]

-- The switch on the payload's type.
pub apply_payload : Database → Bytes → ConnInput → Payload → ℕ → ConnResponse × Database
apply_payload d user_id input p now =
    if p.type == type_connection
    then (
      created_connection (new_connection user_id input p now),
      create_connection d (new_connection user_id input p now),
    )
    else if p.type == type_connection_revocation
    then revoke_branch d user_id p now
    else (failed 400, d)

module _ (crypto : Crypto) (unmarshal : Unmarshal) where
  -- CreateConnectionHandler. `body` is `none` where the body does not decode, and `now` is the clock.
  pub create_connection_handler : Database → Bytes → Option ConnInput → ℕ → ConnResponse × Database
  create_connection_handler d user_id body now = elim (get_user d user_id) [
    | none ↦ (failed 404, d)
    | some user ↦ elim body [
      | none ↦ (failed 400, d)
      | some input ↦ elim (check_signature crypto unmarshal user input.id input.payload input.sig) [
        | some code ↦ (failed code, d)
        | none ↦ elim (read_payload crypto unmarshal input.payload) [
          | none ↦ (failed 400, d)
          | some p ↦
              if not (p.signer == user_id)
              then (failed 400, d)
              else apply_payload d user_id input p now
        ]
      ]
    ]
  ]

-- GetUserConnectionsHandler, where the `since` parameter parses.
pub get_user_connections_handler : Database → Bytes → Option User → Option ℕ → List Connection
get_user_connections_handler d user_id authed since =
    get_user_public_connections d user_id since (is_user authed user_id)
