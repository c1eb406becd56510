-- ===== src/Models/AuthToken.antt =====
-- models/authtoken.go: the token that authenticates a request.
-- Instants are counted in nanoseconds. `time.Parse` with the RFC 3339 layout is the parameter
-- `parse_time`.
pub mod Window
mod Examples
use tillit.Base.{
  Bytes, codes, ◌==◌, ℕ, ◌+◌, ◌*◌, ◌^◌, ltb, not, Option, none, some, [], if◌then◌else◌,
}

abbrev pub second : ℕ
second = 1000000000

abbrev pub auth_token_type : Bytes
auth_token_type = codes "auth"

abbrev pub auth_token_clock_skew : ℕ
auth_token_clock_skew = 60 * second

abbrev pub max_auth_token_lifetime : ℕ
max_auth_token_lifetime = 5 * 60 * second

pub record AuthToken : Type 0 where
  pub type : Bytes
  pub signer : Bytes
  pub server : Bytes
  pub iat : Bytes
  pub exp : Bytes

pub data TokenError : Type 0 where
  wrong_type signer_empty wrong_server iat_invalid exp_invalid : TokenError
  expired in_the_future lifetime_exceeded exp_not_after_iat : TokenError

-- The checks on the two instants. `exp.Sub(iat) > max` is read as `iat + max < exp`.
unfoldable pub validate_times : ℕ → ℕ → ℕ → Option TokenError
validate_times now iat exp =
    if ltb exp now
    then some expired
    else if ltb (now + auth_token_clock_skew) iat
    then some in_the_future
    else if ltb (iat + max_auth_token_lifetime) exp
    then some lifetime_exceeded
    else if not (ltb iat exp)
    then some exp_not_after_iat
    else none

module _ (parse_time : Bytes → Option ℕ) where
  unfoldable pub validate : AuthToken → ℕ → Bytes → Option TokenError
  validate a now expected_server =
      if not (a.type == auth_token_type)
      then some wrong_type
      else if a.signer == []
      then some signer_empty
      else if not (a.server == expected_server)
      then some wrong_server
      else elim (parse_time a.iat) [
        | none ↦ some iat_invalid
        | some iat ↦ elim (parse_time a.exp) [
          | none ↦ some exp_invalid
          | some exp ↦ validate_times now iat exp
        ]
      ]
