-- ===== src/Server/Auth.antt =====
-- middleware/auth.go: who a request comes from.
-- Decoding base64, building a verifier from a user's key and reading JSON are parameters.
pub mod Identity
mod Examples
use tillit.Base.{
  Bytes, codes, ◌==◌, ℕ, has_prefix, trim_prefix, Bool, Option, none, some, List, [], if◌then◌else◌,
}
use tillit.Models.AuthToken.{AuthToken, validate}
use tillit.Server.Database.{User, Database, get_user}
use tillit.Server.Signatures.{Crypto}

abbrev pub auth_scheme : Bytes
auth_scheme = codes "Tillit "

pub record SignedAuthEnvelope : Type 0 where
  pub payload : Bytes
  pub algorithm : Bytes
  pub sig : Bytes

-- `json.Unmarshal` into an envelope and into a token, and `time.Parse` with the RFC 3339 layout.
pub record Reader : Type 0 where
  pub read_envelope : Bytes → Option SignedAuthEnvelope
  pub read_token : Bytes → Option AuthToken
  pub parse_time : Bytes → Option ℕ

module _ (crypto : Crypto) (reader : Reader) where
  -- The user's key has signed this envelope.
  pub check_envelope : User → SignedAuthEnvelope → Option User
  check_envelope user env = elim (crypto.verifier user) [
    | none ↦ none
    | some verify ↦ elim (crypto.decode_base64 env.sig) [
      | none ↦ none
      | some sig_bytes ↦ if verify env.payload sig_bytes then some user else none
    ]
  ]

  -- authenticateRequest; every error is `none`.
  pub authenticate_request : Bytes → Database → Bytes → ℕ → Option User
  authenticate_request header d expected_server now =
      if has_prefix auth_scheme header
      then (elim (crypto.decode_base64 (trim_prefix auth_scheme header)) [
        | none ↦ none
        | some text ↦ elim (reader.read_envelope text) [
          | none ↦ none
          | some env ↦ elim (reader.read_token env.payload) [
            | none ↦ none
            | some token ↦ elim (validate reader.parse_time token now expected_server) [
              | some e ↦ none
              | none ↦ elim (get_user d token.signer) [
                | none ↦ none
                | some user ↦ check_envelope user env
              ]
            ]
          ]
        ]
      ])
      else none

  -- Authenticate: what the next handler is run with, the user of the request or nobody;
  -- `none` is the answer 401 in its place.
  pub authenticate : Bytes → Database → Bytes → ℕ → Option (Option User)
  authenticate header d expected_server now =
      if header == [] then some none else elim (authenticate_request header d expected_server now) [
        | none ↦ none
        | some user ↦ some (some user)
      ]
