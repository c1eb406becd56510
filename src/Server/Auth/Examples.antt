-- ===== src/Server/Auth/Examples.antt =====
-- middleware/auth.go: one header, with a key that signs by repeating the text.
use tillit.Base.{
  Bytes, codes, ◌==◌, ℕ, ◌+◌, ◌*◌, ◌≤◌, Bool, true, false, Option, none, some, List, [], ◌∷◌, ◌≡◌,
  refl, ◌≢◌, ◌↔◌, if◌then◌else◌,
}
use tillit.Models.AuthToken.{
  AuthToken, auth_token_type, auth_token_clock_skew, max_auth_token_lifetime, second,
}
use tillit.Server.Database.{User, Database}
use tillit.Server.Signatures.{Crypto}
use tillit.Server.Auth.{SignedAuthEnvelope, Reader, authenticate}
use tillit.Server.Auth.Identity.{IsSignedBy, authenticate_iff, authenticate-window}

abbrev toy : Crypto
toy = record {
  decode_base64 = λ text. some text;
  verifier = λ user. some (λ text sig. text == sig);
  digest = λ text. text;
}

abbrev alice : User
alice = record {
  id = codes "alice";
  username = codes "Alice";
  pubkey = codes "key";
  algorithm = codes "toy";
  is_admin = false;
}

abbrev token : AuthToken
token = record {
  type = auth_token_type;
  signer = codes "alice";
  server = codes "here";
  iat = codes "noon";
  exp = codes "later";
}

abbrev env : SignedAuthEnvelope
env = record { payload = codes "token"; algorithm = []; sig = codes "token" }

abbrev reader : Reader
reader = record {
  read_envelope = λ text. if text == codes "env" then some env else none;
  read_token = λ text. if text == codes "token" then some token else none;
  parse_time = λ text.
      if text == codes "noon"
      then some (1000 * second)
      else if text == codes "later"
      then some (1060 * second)
      else none;
}

abbrev d : Database
d = record { users = alice ∷ []; signatures = []; connections = [] }

abbrev header : Bytes
header = codes "Tillit env"

served : authenticate toy reader header d (codes "here") (1000 * second) ≡ some (some alice)
unfolding authenticate ◌==◌ tillit.Server.Auth.authenticate_request tillit.Base.has_prefix
    tillit.Base.trim_prefix tillit.Models.AuthToken.validate tillit.Models.AuthToken.validate_times
    tillit.Server.Database.get_user tillit.Base.first tillit.Server.Auth.check_envelope
served = refl

served_later : authenticate toy reader header d (codes "here") (1060 * second) ≡ some (some alice)
unfolding authenticate ◌==◌ tillit.Server.Auth.authenticate_request tillit.Base.has_prefix
    tillit.Base.trim_prefix tillit.Models.AuthToken.validate tillit.Models.AuthToken.validate_times
    tillit.Server.Database.get_user tillit.Base.first tillit.Server.Auth.check_envelope
served_later = refl

elsewhere : authenticate toy reader header d (codes "there") (1000 * second) ≡ none
unfolding authenticate ◌==◌ tillit.Server.Auth.authenticate_request tillit.Base.has_prefix
    tillit.Base.trim_prefix tillit.Models.AuthToken.validate
elsewhere = refl

authenticate_iff_example :
    ((user : User)
      → (authenticate toy reader header d (codes "here") (1000 * second) ≡ some (some user))
        ↔ ((header ≢ []) × IsSignedBy toy reader header d (codes "here") (1000 * second) user))
    × ((authenticate toy reader header d (codes "here") (1000 * second) ≡ some none)
        ↔ (header ≡ []))
authenticate_iff_example = authenticate_iff toy reader header d (codes "here") (1000 * second)

authenticate-window_example :
    1060 * second ≤ 1000 * second + (auth_token_clock_skew + max_auth_token_lifetime)
authenticate-window_example =
    authenticate-window toy reader header d d (codes "here") (1000 * second) (1060 * second) alice
      alice served served_later
