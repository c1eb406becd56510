-- ===== src/Server/Signatures/Authentic.antt =====
-- handlers/signaturehandler.go: what an upload has been checked for once its row is stored.
use tillit.Base.{
  Bytes, ==_iff, ℕ, Bool, true, Option, none, some, In, ◌≡◌, refl, ◌⊎◌, inl, inr, arith, Bool-cases,
  Option-cases,
}
use tillit.Models.Payload.{Payload, Unmarshal, validate, is_revocation}
use tillit.Models.Signature.{Signature, signature_id}
use tillit.Server.Database.{User, Database, get_user, create_signature, revoke_signature}
use tillit.Server.Database.Rows.{stored, marked, In-create_signature, In-mark_signature}
use tillit.Server.Signatures.{
  Crypto, SigInput, error, created, is_user, public_or_default, check_signature, read_payload,
  check_revocation, store_signature, new_signature, create_signature_handler,
}

module _ (crypto : Crypto) (unmarshal : Unmarshal) where
  open crypto use {decode_base64, verifier, digest}

  -- The signature is one of this user's key over the payload.
  abbrev pub Verifies : User → Bytes → Bytes → Type 0
  Verifies u payload sig =
      (sig_bytes : Bytes) × (verify : Bytes → Bytes → Bool) × (decode_base64 sig ≡ some sig_bytes)
      × (verifier u ≡ some verify)
      × (verify payload sig_bytes ≡ true)

  -- The payload parses and is valid.
  abbrev pub Reads : Bytes → Payload → Type 0
  Reads text p = (unmarshal text ≡ some p) × (validate p ≡ none)

  pub check_signature-none :
      (user : User) (id payload sig : Bytes)
      → check_signature crypto unmarshal user id payload sig ≡ none
      → (id ≡ signature_id digest payload sig) × Verifies user payload sig
  unfolding check_signature
  check_signature-none user id payload sig h = elim (Option-cases (decode_base64 sig)) [
    | inl d ↦ absurd (ground arith)
    | inr (sig_bytes, d) ↦ elim (Option-cases (verifier user)) [
      | inl v ↦ absurd (ground arith)
      | inr (verify, v) ↦ (
        ground (arith, ==_iff id (signature_id digest payload sig)),
        (sig_bytes, verify, d, v, ground arith),
      )
    ]
  ]

  pub read_payload-some :
      (text : Bytes) (p : Payload) → read_payload crypto unmarshal text ≡ some p → Reads text p
  unfolding read_payload
  read_payload-some text p h = elim (Option-cases (unmarshal text)) [
    | inl u ↦ absurd (ground arith)
    | inr (q, u) ↦ elim (Option-cases (validate q)) [
      | inl v ↦ (ground arith, ground arith)
      | inr (e, v) ↦ absurd (ground arith)
    ]
  ]

  -- What an upload has passed when it is stored.
  abbrev pub IsAccepted : Database → Bytes → Option User → User → SigInput → Payload → Type 0
  IsAccepted d user_id authed user input p =
      (get_user d user_id ≡ some user)
      × (check_signature crypto unmarshal user input.id input.payload input.sig ≡ none)
      × (read_payload crypto unmarshal input.payload ≡ some p)
      × (check_revocation crypto unmarshal d user_id p ≡ none)
      × ((public_or_default input.public ≡ true) ⊎ (is_user authed user_id ≡ true))

  -- Either nothing is stored, or the upload has passed every check.
  pub create_signature_handler-cases :
      (d : Database) (user_id : Bytes) (authed : Option User) (body : Option SigInput) (now : ℕ)
      → ((code : ℕ) × (create_signature_handler crypto unmarshal d user_id authed body now
            ≡ (error code, d)))
        ⊎ ((user : User) × (input : SigInput) × (p : Payload) × (body ≡ some input)
            × IsAccepted d user_id authed user input p
            × (create_signature_handler crypto unmarshal d user_id authed body now ≡ (
              created (new_signature crypto unmarshal user_id input now),
              store_signature crypto unmarshal d
                  (new_signature crypto unmarshal user_id input now)
                  p
                  now,
            )))
  unfolding create_signature_handler
  create_signature_handler-cases d user_id authed none now =
      elim (Option-cases (get_user d user_id)) [
        | inl u ↦ inl (404, rw (create_signature_handler, u) refl)
        | inr (user, u) ↦ inl (400, rw (create_signature_handler, u) refl)
      ]
  create_signature_handler-cases d user_id authed (some input) now =
      elim (Option-cases (get_user d user_id)) [
        | inl u ↦ inl (404, rw (create_signature_handler, u) refl)
        | inr (user, u) ↦
            elim (Option-cases
              (check_signature crypto unmarshal user input.id input.payload input.sig)) [
                | inr (code, c) ↦ inl (code, rw (create_signature_handler, u, c) refl)
                | inl c ↦ elim (Option-cases (read_payload crypto unmarshal input.payload)) [
                  | inl r ↦ inl (400, rw (create_signature_handler, u, c, r) refl)
                  | inr (p, r) ↦
                      elim (Option-cases (check_revocation crypto unmarshal d user_id p)) [
                        | inr (code, v) ↦ inl (code, rw (create_signature_handler, u, c, r, v) refl)
                        | inl v ↦ elim (Bool-cases (public_or_default input.public)) [
                          | inl q ↦ inr (
                            user,
                            input,
                            p,
                            refl,
                            (u, c, r, v, inl q),
                            rw (create_signature_handler, u, c, r, v, q) refl,
                          )
                          | inr q ↦ elim (Bool-cases (is_user authed user_id)) [
                            | inl a ↦ inr (
                              user,
                              input,
                              p,
                              refl,
                              (u, c, r, v, inr a),
                              rw (create_signature_handler, u, c, r, v, q, a) refl,
                            )
                            | inr a ↦
                                inl (401, rw (create_signature_handler, u, c, r, v, q, a) refl)
                          ]
                        ]
                      ]
                ]
              ]
      ]

  -- The row comes from its signer's key, its content has its identifier, and its payload is valid.
  abbrev pub IsAuthentic : Database → Signature → Type 0
  IsAuthentic d r =
      (u : User) × (p : Payload) × (get_user d r.signer ≡ some u)
      × (r.id ≡ signature_id digest r.payload r.sig)
      × Verifies u r.payload r.sig
      × Reads r.payload p

  store_signature-In :
      (d : Database) (s r : Signature) (p : Payload) (now : ℕ)
      → In r (store_signature crypto unmarshal d s p now).signatures
      → (q : Signature) × (In q d.signatures ⊎ (q ≡ stored s))
        × ((r ≡ q) ⊎ ((is_revocation p ≡ true) × (q.id ≡ p.target_id) × (r ≡ marked now q)))
  unfolding store_signature revoke_signature
  store_signature-In d s r p now m = elim (Bool-cases (is_revocation p)) [
    | inr e ↦ (r, In-create_signature d s r (rw (store_signature, e) at m), inl refl)
    | inl e ↦
        let (q, n, h) =
          In-mark_signature p.target_id now (create_signature d s).signatures r
            (rw (store_signature, e, revoke_signature) at m) in
        (
          q,
          In-create_signature d s q n,
          elim h [ inl same ↦ inl same | inr (i, k) ↦ inr (e, i, k) ],
        )
  ]

  store_signature-users :
      (d : Database) (s : Signature) (p : Payload) (now : ℕ)
      → (store_signature crypto unmarshal d s p now).users ≡ d.users
  unfolding store_signature create_signature revoke_signature
  store_signature-users d s p now = ground arith

  IsAuthentic-users :
      (d e : Database) (r : Signature) → e.users ≡ d.users → IsAuthentic d r → IsAuthentic e r
  unfolding get_user
  IsAuthentic-users d e r h (u, p, found, i, w, t) = (u, p, rw (get_user, h) found, i, w, t)

  -- If every stored signature verifies under its signer's key, has the identifier of its content and
  -- has a valid payload, this is so after any upload request too.
  pub create_signature_handler-IsAuthentic :
      (d : Database) (user_id : Bytes) (authed : Option User) (body : Option SigInput) (now : ℕ)
      → ((r : Signature) → In r d.signatures → IsAuthentic d r)
      → (r : Signature)
      → In r (create_signature_handler crypto unmarshal d user_id authed body now).1.signatures
      → IsAuthentic (create_signature_handler crypto unmarshal d user_id authed body now).1 r
  unfolding new_signature
  create_signature_handler-IsAuthentic d user_id authed body now good r m =
      elim (create_signature_handler-cases d user_id authed body now) [
        | inl (code, e) ↦ rw (e) (good r (rw (e) at m))
        | inr (user, input, p, b, (u, c, t, v, a), e) ↦
            let s = new_signature crypto unmarshal user_id input now in
            let (q, source, h) = store_signature-In d s r p now (rw (e) at m) in
            let before : IsAuthentic d q = elim source [
              | inl old ↦ good q old
              | inr new ↦
                  let (i, w) = check_signature-none user input.id input.payload input.sig c in
                  rw (new) (user, p, u, i, w, read_payload-some input.payload p t)
            ] in
            rw (e) (
              IsAuthentic-users d _ r (store_signature-users d s p now)
                (elim h [ inl same ↦ rw (same) before | inr (k, j, same) ↦ rw (same) before ]))
      ]
