-- ===== src/Models/AuthToken/Examples.antt =====
-- models/authtoken.go: a token that is issued at one instant, for one minute.
use tillit.Base.{Bytes, codes, ◌==◌, ℕ, ◌*◌, Option, none, some, ◌≡◌, refl, ◌↔◌, if◌then◌else◌}
use tillit.Models.AuthToken.{
  AuthToken, auth_token_type, auth_token_clock_skew, max_auth_token_lifetime, second, validate,
}
use tillit.Models.AuthToken.Window.{IsAccepted, validate-IsAccepted_iff}

abbrev clock : Bytes → Option ℕ
clock text =
    if text == codes "noon"
    then some (1000 * second)
    else if text == codes "later"
    then some (1060 * second)
    else none

abbrev token : AuthToken
token = record {
  type = auth_token_type;
  signer = codes "alice";
  server = codes "here";
  iat = codes "noon";
  exp = codes "later";
}

at_once : validate clock token (1000 * second) (codes "here") ≡ none
unfolding validate ◌==◌ tillit.Models.AuthToken.validate_times
at_once = refl

at_the_end : validate clock token (1060 * second) (codes "here") ≡ none
unfolding validate ◌==◌ tillit.Models.AuthToken.validate_times
at_the_end = refl

validate-IsAccepted_iff_example :
    (validate clock token (1000 * second) (codes "here") ≡ none)
    ↔ IsAccepted clock token (1000 * second) (codes "here")
validate-IsAccepted_iff_example = validate-IsAccepted_iff clock token (1000 * second) (codes "here")
