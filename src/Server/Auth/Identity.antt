-- ===== src/Server/Auth/Identity.antt =====
-- middleware/auth.go: what a request has shown that is served as a user's.
use tillit.Base.{
  Bytes, ◌==◌, ==_iff, ℕ, ◌+◌, ◌≤◌, has_prefix, trim_prefix, Bool, true, none, some, List, [], ◌∷◌,
  first, ◌≡◌, refl, sym, ◌≢◌, ◌↔◌, inl, inr, arith, Bool-cases, Option-cases,
}
use tillit.Models.AuthToken.{AuthToken, validate, auth_token_clock_skew, max_auth_token_lifetime}
use tillit.Models.AuthToken.Window.{validate-window}
use tillit.Server.Database.{User, Database, get_user}
use tillit.Server.Signatures.{Crypto}
use tillit.Server.Auth.{
  auth_scheme, SignedAuthEnvelope, Reader, check_envelope, authenticate_request, authenticate,
}

first-test :
    (test : User → Bool) (users : List User) (u : User) → first test users ≡ some u → test u ≡ true
unfolding first
first-test test [] u h = absurd (ground arith)
first-test test (x ∷ users) u h = elim (Bool-cases (test x)) [
  | inl e ↦ ground arith
  | inr e ↦ first-test test users u (rw (first, e) at h)
]

get_user-id : (d : Database) (id : Bytes) (u : User) → get_user d id ≡ some u → u.id ≡ id
unfolding get_user
get_user-id d id u h = (==_iff u.id id).0 (first-test (λ (x : User). x.id == id) d.users u h)

module _ (crypto : Crypto) (reader : Reader) (header : Bytes) (d : Database)
    (expected_server : Bytes) (now : ℕ) where
  -- What the header shows for this user: a token for this server that is accepted now, whose
  -- signer is the user, in an envelope that the user's key has signed.
  pub record IsSignedBy (user : User) : Type 0 where
    pub text : Bytes
    pub env : SignedAuthEnvelope
    pub token : AuthToken
    pub verify : Bytes → Bytes → Bool
    pub sig_bytes : Bytes
    pub scheme : has_prefix auth_scheme header ≡ true
    pub decodes : crypto.decode_base64 (trim_prefix auth_scheme header) ≡ some text
    pub env_reads : reader.read_envelope text ≡ some env
    pub token_reads : reader.read_token env.payload ≡ some token
    pub accepted : validate reader.parse_time token now expected_server ≡ none
    pub registered : get_user d token.signer ≡ some user
    pub key : crypto.verifier user ≡ some verify
    pub sig_decodes : crypto.decode_base64 env.sig ≡ some sig_bytes
    pub verifies : verify env.payload sig_bytes ≡ true

  check_envelope-some :
      (user found : User) (env : SignedAuthEnvelope)
      → check_envelope crypto reader found env ≡ some user
      → (found ≡ user)
        × (verify : Bytes → Bytes → Bool) × (sig_bytes : Bytes) × (crypto.verifier found
            ≡ some verify)
        × (crypto.decode_base64 env.sig ≡ some sig_bytes)
        × (verify env.payload sig_bytes ≡ true)
  unfolding check_envelope
  check_envelope-some user found env h = elim (Option-cases (crypto.verifier found)) [
    | inl k ↦ absurd (ground arith)
    | inr (verify, k) ↦ elim (Option-cases (crypto.decode_base64 env.sig)) [
      | inl s ↦ absurd (ground arith)
      | inr (sig_bytes, s) ↦ (ground arith, verify, sig_bytes, k, s, ground arith)
    ]
  ]

  request-IsSignedBy :
      (user : User)
      → authenticate_request crypto reader header d expected_server now ≡ some user
      → IsSignedBy user
  unfolding authenticate_request
  request-IsSignedBy user h = elim (Bool-cases (has_prefix auth_scheme header)) [
    | inr p ↦ absurd (ground arith)
    | inl p ↦ elim (Option-cases (crypto.decode_base64 (trim_prefix auth_scheme header))) [
      | inl t ↦ absurd (ground arith)
      | inr (text, t) ↦ elim (Option-cases (reader.read_envelope text)) [
        | inl e ↦ absurd (ground arith)
        | inr (env, e) ↦ elim (Option-cases (reader.read_token env.payload)) [
          | inl k ↦ absurd (ground arith)
          | inr (token, k) ↦
              elim (Option-cases (validate reader.parse_time token now expected_server)) [
                | inr (bad, v) ↦ absurd (ground arith)
                | inl v ↦ elim (Option-cases (get_user d token.signer)) [
                  | inl g ↦ absurd (ground arith)
                  | inr (found, g) ↦
                      let (same, verify, sig_bytes, a, b, c) =
                        check_envelope-some user found env
                          (rw (authenticate_request, p, t, e, k, v, g) at h) in
                      record {
                        text = text;
                        env = env;
                        token = token;
                        verify = verify;
                        sig_bytes = sig_bytes;
                        scheme = p;
                        decodes = t;
                        env_reads = e;
                        token_reads = k;
                        accepted = v;
                        registered = rw (sym same) g;
                        key = rw (sym same) a;
                        sig_decodes = b;
                        verifies = c;
                      }
                ]
              ]
        ]
      ]
    ]
  ]

  IsSignedBy-request :
      (user : User)
      → IsSignedBy user
      → authenticate_request crypto reader header d expected_server now ≡ some user
  unfolding authenticate_request check_envelope
  IsSignedBy-request user w =
      rw
        (
          authenticate_request, w.scheme, w.decodes, w.env_reads, w.token_reads, w.accepted,
          w.registered, check_envelope, w.key, w.sig_decodes, w.verifies,
        )
        refl

  -- A request is served as a user's exactly if it has a header that shows this: an accepted token
  -- for this server, whose signer is this registered user, under the signature of the user's key.
  -- It is served as nobody's exactly if it has no header.
  pub authenticate_iff :
      ((user : User)
        → (authenticate crypto reader header d expected_server now ≡ some (some user))
          ↔ ((header ≢ []) × IsSignedBy user))
      × ((authenticate crypto reader header d expected_server now ≡ some none) ↔ (header ≡ []))
  unfolding authenticate
  authenticate_iff = elim (Bool-cases (header == [])) [
    | inl e ↦
        let empty = (==_iff header []).0 e in
        (
          λ user. (λ h. absurd (ground arith), λ w. absurd (w.0 empty)),
          (λ h. empty, λ h. ground arith),
        )
    | inr e ↦
        elim (Option-cases (authenticate_request crypto reader header d expected_server now)) [
          | inl r ↦ (
            λ user. (
              λ h. absurd (ground arith),
              λ w. absurd (ground (arith, IsSignedBy-request user w.1)),
            ),
            (λ h. absurd (ground arith), λ h. absurd (ground (arith, ==_iff header []))),
          )
          | inr (found, r) ↦ (
            λ user. (
              λ h. (
                (λ h'. absurd (ground (arith, ==_iff header []))),
                request-IsSignedBy user (ground arith),
              ),
              λ w. ground (arith, IsSignedBy-request user w.1),
            ),
            (λ h. absurd (ground arith), λ h. absurd (ground (arith, ==_iff header []))),
          )
        ]
  ]

  -- The user that a request is served as is the one of the token it carries.
  pub authenticate-user :
      (user : User)
      → authenticate crypto reader header d expected_server now ≡ some (some user)
      → (w : IsSignedBy user) × (w.token.signer ≡ user.id)
  authenticate-user user h =
      let w = ((authenticate_iff.0 user).0 h).1 in
      (w, sym (get_user-id d w.token.signer user w.registered))

-- The instants at which one header is served as a user's lie at most the lifetime and the skew
-- apart: a header that leaks is of use for at most six minutes.
pub authenticate-window :
    (crypto : Crypto) (reader : Reader) (header : Bytes) (d e : Database) (server : Bytes)
    (now later : ℕ) (user other : User)
    → authenticate crypto reader header d server now ≡ some (some user)
    → authenticate crypto reader header e server later ≡ some (some other)
    → later ≤ now + (auth_token_clock_skew + max_auth_token_lifetime)
authenticate-window crypto reader header d e server now later user other h k =
    let w = ((authenticate_iff crypto reader header d server now).0 user).0 h in
    let v = ((authenticate_iff crypto reader header e server later).0 other).0 k in
    same-token w.1 v.1
  where
    same-token :
        IsSignedBy crypto reader header d server now user
        → IsSignedBy crypto reader header e server later other
        → later ≤ now + (auth_token_clock_skew + max_auth_token_lifetime)
    same-token w v =
        let texts : w.text ≡ v.text = cc (w.decodes, v.decodes) in
        let envs : w.env ≡ v.env = cc (w.env_reads, v.env_reads, texts) in
        let tokens : w.token ≡ v.token = cc (w.token_reads, v.token_reads, envs) in
        validate-window reader.parse_time v.token now later server (rw (tokens) at w.accepted)
          v.accepted
