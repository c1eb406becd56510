-- ===== src/Models/AuthToken/Window.antt =====
-- models/authtoken.go: when a token is accepted.
use tillit.Base.{
  Bytes, ==_iff, ℕ, ◌+◌, ◌≤◌, ◌<◌, ◌≡◌, ◌≢◌, ◌↔◌, inl, inr, Option, none, some, [], arith,
  Option-cases,
}
use tillit.Models.AuthToken.{
  AuthToken, auth_token_type, auth_token_clock_skew, max_auth_token_lifetime, validate_times,
  validate,
}

-- The instants of a token that is accepted at `now`.
pub record IsWithin (now iat exp : ℕ) : Type 0 where
  pub unexpired : now ≤ exp
  pub started : iat ≤ now + auth_token_clock_skew
  pub brief : exp ≤ iat + max_auth_token_lifetime
  pub forward : iat < exp

validate_times_iff : (now iat exp : ℕ) → (validate_times now iat exp ≡ none) ↔ IsWithin now iat exp
unfolding validate_times
validate_times_iff now iat exp = (λ h. ground arith, λ w. ground arith)

module _ (parse_time : Bytes → Option ℕ) (a : AuthToken) (now : ℕ) (server : Bytes) where
  pub record IsAccepted : Type 0 where
    pub type : a.type ≡ auth_token_type
    pub signer : a.signer ≢ []
    pub server_matches : a.server ≡ server
    pub iat : ℕ
    pub iat_parses : parse_time a.iat ≡ some iat
    pub exp : ℕ
    pub exp_parses : parse_time a.exp ≡ some exp
    pub within : IsWithin now iat exp

  validate_sound : validate parse_time a now server ≡ none → IsAccepted
  unfolding validate
  validate_sound h = elim (Option-cases (parse_time a.iat)) [
    | inl e ↦ absurd (ground arith)
    | inr (iat, i) ↦ elim (Option-cases (parse_time a.exp)) [
      | inl e ↦ absurd (ground arith)
      | inr (exp, x) ↦ record {
        type = ground (arith, ==_iff a.type auth_token_type);
        signer = ground (arith, ==_iff a.signer []);
        server_matches = ground (arith, ==_iff a.server server);
        iat = iat;
        iat_parses = i;
        exp = exp;
        exp_parses = x;
        within = (validate_times_iff now iat exp).0 (ground arith);
      }
    ]
  ]

  validate_complete : IsAccepted → validate parse_time a now server ≡ none
  unfolding validate
  validate_complete w =
      let ok = (validate_times_iff now w.iat w.exp).1 w.within in
      ground (
        arith,
        ==_iff a.type auth_token_type,
        ==_iff a.signer [],
        ==_iff a.server server,
        w.type,
        w.signer,
        w.server_matches,
        w.iat_parses,
        w.exp_parses,
      )

-- A token is accepted exactly if it is of the right type, names a signer and this server, and its
-- two instants parse, lie around `now` up to the skew, and are at most the maximal lifetime apart.
pub validate-IsAccepted_iff :
    (parse_time : Bytes → Option ℕ) (a : AuthToken) (now : ℕ) (server : Bytes)
    → (validate parse_time a now server ≡ none) ↔ IsAccepted parse_time a now server
validate-IsAccepted_iff parse_time a now server =
    (validate_sound parse_time a now server, validate_complete parse_time a now server)

-- The instants at which one token is accepted lie at most the lifetime
-- and the skew apart: a token that leaks is of use for at most six minutes.
pub validate-window :
    (parse_time : Bytes → Option ℕ) (a : AuthToken) (now later : ℕ) (server : Bytes)
    → validate parse_time a now server ≡ none
    → validate parse_time a later server ≡ none
    → later ≤ now + (auth_token_clock_skew + max_auth_token_lifetime)
validate-window parse_time a now later server h k =
    let w = validate_sound parse_time a now server h in
    let v = validate_sound parse_time a later server k in
    ground (arith, w.iat_parses, w.exp_parses, v.iat_parses, v.exp_parses, w.within, v.within)
