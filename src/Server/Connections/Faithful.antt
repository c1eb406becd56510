-- ===== src/Server/Connections/Faithful.antt =====
-- handlers/connectionhandler.go: a stored connection says what its owner has signed.
use tillit.Base.{
  Bytes, ◌==◌, ==_iff, ℕ, true, false, Option, none, some, List, [], ◌∷◌, any, In, here, there,
  In-cons, In-append_cases, ◌≡◌, refl, ◌⊎◌, inl, inr, arith, Bool-cases, Option-cases,
}
use tillit.Models.Payload.{Payload, Unmarshal, type_connection, type_connection_revocation}
use tillit.Models.Signature.{signature_id}
use tillit.Localstore.{to_seconds}
use tillit.Server.Database.{
  User, Connection, Database, get_user, get_connection, create_connection, mark_connection,
  revoke_connection,
}
use tillit.Server.Signatures.{Crypto, check_signature, read_payload}
use tillit.Server.Signatures.Authentic.{Verifies, Reads, check_signature-none, read_payload-some}
use tillit.Server.Connections.{
  ConnInput, failed, new_connection, revoke_branch, apply_payload, create_connection_handler,
}

In-mark_connection :
    (id : Bytes) (t : ℕ) (rows : List Connection) (r : Connection)
    → In r (mark_connection id t rows)
    → (q : Connection) × In q rows
      × ((r ≡ q) ⊎ (r ≡ record q { revoked = true; revoked_at = some (to_seconds t) }))
unfolding mark_connection
In-mark_connection id t [] r m = elim m [ ]
In-mark_connection id t (x ∷ rows) r m = elim (In-cons r _ _ m) [
  | inl same ↦ elim (Bool-cases (x.id == id)) [
    | inl e ↦ (x, here refl, inr (ground arith))
    | inr e ↦ (x, here refl, inl (ground arith))
  ]
  | inr rest ↦ let (q, n, h) = In-mark_connection id t rows r rest in (q, there n, h)
]

-- The row that a new connection becomes.
abbrev stored_connection : Connection → Connection
stored_connection c = record c {
  created_at = to_seconds c.created_at;
  revoked = false;
  revoked_at = none;
}

abbrev revoked_connection : ℕ → Connection → Connection
revoked_connection t c = record c { revoked = true; revoked_at = some (to_seconds t) }

In-create_connection :
    (d : Database) (c r : Connection)
    → In r (create_connection d c).connections
    → In r d.connections ⊎ (r ≡ stored_connection c)
unfolding create_connection
In-create_connection d c r m =
    elim (Bool-cases (any (λ (q : Connection). q.id == c.id) d.connections)) [
      | inl e ↦ inl (rw (e, create_connection) at m)
      | inr e ↦ elim (In-append_cases d.connections _ (rw (e, create_connection) at m)) [
        | inl old ↦ inl old
        | inr new ↦ elim (In-cons _ _ _ new) [
          | inl same ↦ inr same
          | inr nothing ↦ elim nothing [ ]
        ]
      ]
    ]

-- A row afterwards is one from before, or one from before that is marked.
abbrev IsKept : Database → ℕ → Connection → Type 0
IsKept d t r = (q : Connection) × In q d.connections × ((r ≡ q) ⊎ (r ≡ revoked_connection t q))

In-revoke_branch :
    (d : Database) (user_id : Bytes) (p : Payload) (now : ℕ) (r : Connection)
    → In r (revoke_branch d user_id p now).1.connections
    → IsKept d now r
unfolding revoke_branch revoke_connection
In-revoke_branch d user_id p now r m = elim (Option-cases (get_connection d p.target_id)) [
  | inl g ↦ (r, rw (revoke_branch, g) at m, inl refl)
  | inr (target, g) ↦ elim (Bool-cases (target.owner == user_id)) [
    | inr o ↦ (r, rw (revoke_branch, g, o) at m, inl refl)
    | inl o ↦ elim (Bool-cases (any (λ (q : Connection). q.id == p.target_id) d.connections)) [
      | inr a ↦ (r, rw (revoke_branch, g, o, revoke_connection, a) at m, inl refl)
      | inl a ↦
          In-mark_connection p.target_id now d.connections r
            (rw (revoke_branch, g, o, revoke_connection, a) at m)
    ]
  ]
]

In-apply_payload :
    (d : Database) (user_id : Bytes) (input : ConnInput) (p : Payload) (now : ℕ) (r : Connection)
    → In r (apply_payload d user_id input p now).1.connections
    → IsKept d now r
      ⊎ ((p.type ≡ type_connection) × (r ≡ stored_connection (new_connection user_id input p now)))
unfolding apply_payload
In-apply_payload d user_id input p now r m = elim (Bool-cases (p.type == type_connection)) [
  | inl c ↦
      elim (In-create_connection d (new_connection user_id input p now) r
        (rw (apply_payload, c) at m)) [
          | inl old ↦ inl (r, old, inl refl)
          | inr new ↦ inr ((==_iff p.type type_connection).0 c, new)
        ]
  | inr c ↦ elim (Bool-cases (p.type == type_connection_revocation)) [
    | inl v ↦ inl (In-revoke_branch d user_id p now r (rw (apply_payload, c, v) at m))
    | inr v ↦ inl (r, rw (apply_payload, c, v) at m, inl refl)
  ]
]

apply_payload-users :
    (d : Database) (user_id : Bytes) (input : ConnInput) (p : Payload) (now : ℕ)
    → (apply_payload d user_id input p now).1.users ≡ d.users
unfolding apply_payload revoke_branch create_connection revoke_connection
apply_payload-users d user_id input p now = ground arith

module _ (crypto : Crypto) (unmarshal : Unmarshal) where
  -- The columns of a row are those of its payload, a valid connection that its owner's key has
  -- signed.
  pub record IsFaithful (d : Database) (c : Connection) : Type 0 where
    pub user : User
    pub p : Payload
    pub registered : get_user d c.owner ≡ some user
    pub identified : c.id ≡ signature_id crypto.digest c.payload c.sig
    pub verifies : Verifies crypto unmarshal user c.payload c.sig
    pub reads : Reads crypto unmarshal c.payload p
    pub is_connection : p.type ≡ type_connection
    pub same_signer : p.signer ≡ c.owner
    pub same_other : p.other_id ≡ c.other_id
    pub same_public : p.public ≡ c.public
    pub same_trust : p.trust ≡ c.trust
    pub same_extends : p.trust_extends ≡ c.trust_extends

  IsFaithful-users :
      (d e : Database) (r : Connection) → e.users ≡ d.users → IsFaithful d r → IsFaithful e r
  unfolding get_user
  IsFaithful-users d e r h f = record {
    user = f.user;
    p = f.p;
    registered = rw (get_user, h) f.registered;
    identified = f.identified;
    verifies = f.verifies;
    reads = f.reads;
    is_connection = f.is_connection;
    same_signer = f.same_signer;
    same_other = f.same_other;
    same_public = f.same_public;
    same_trust = f.same_trust;
    same_extends = f.same_extends;
  }

  -- Either the database stays, or the upload has passed every check and its payload is applied.
  pub create_connection_handler-cases :
      (d : Database) (user_id : Bytes) (body : Option ConnInput) (now : ℕ)
      → ((code : ℕ) × (create_connection_handler crypto unmarshal d user_id body now
            ≡ (failed code, d)))
        ⊎ ((user : User) × (input : ConnInput) × (p : Payload) × (get_user d user_id ≡ some user)
            × (check_signature crypto unmarshal user input.id input.payload input.sig ≡ none)
            × (read_payload crypto unmarshal input.payload ≡ some p)
            × (p.signer ≡ user_id)
            × (create_connection_handler crypto unmarshal d user_id body now
                ≡ apply_payload d user_id input p now))
  unfolding create_connection_handler
  create_connection_handler-cases d user_id none now = elim (Option-cases (get_user d user_id)) [
    | inl u ↦ inl (404, rw (create_connection_handler, u) refl)
    | inr (user, u) ↦ inl (400, rw (create_connection_handler, u) refl)
  ]
  create_connection_handler-cases d user_id (some input) now =
      elim (Option-cases (get_user d user_id)) [
        | inl u ↦ inl (404, rw (create_connection_handler, u) refl)
        | inr (user, u) ↦
            elim (Option-cases
              (check_signature crypto unmarshal user input.id input.payload input.sig)) [
                | inr (code, c) ↦ inl (code, rw (create_connection_handler, u, c) refl)
                | inl c ↦ elim (Option-cases (read_payload crypto unmarshal input.payload)) [
                  | inl r ↦ inl (400, rw (create_connection_handler, u, c, r) refl)
                  | inr (p, r) ↦ elim (Bool-cases (p.signer == user_id)) [
                    | inr s ↦ inl (400, rw (create_connection_handler, u, c, r, s) refl)
                    | inl s ↦ inr (
                      user,
                      input,
                      p,
                      u,
                      c,
                      r,
                      (==_iff p.signer user_id).0 s,
                      rw (create_connection_handler, u, c, r, s) refl,
                    )
                  ]
                ]
              ]
      ]

  -- If every stored connection says what its owner has signed, this is so after any request too:
  -- a row's other user, trust, depth and visibility are those of a valid payload of its owner, whose
  -- key has signed it.
  pub create_connection_handler-IsFaithful :
      (d : Database) (user_id : Bytes) (body : Option ConnInput) (now : ℕ)
      → ((r : Connection) → In r d.connections → IsFaithful d r)
      → (r : Connection)
      → In r (create_connection_handler crypto unmarshal d user_id body now).1.connections
      → IsFaithful (create_connection_handler crypto unmarshal d user_id body now).1 r
  unfolding new_connection
  create_connection_handler-IsFaithful d user_id body now good r m =
      elim (create_connection_handler-cases d user_id body now) [
        | inl (code, e) ↦ rw (e) (good r (rw (e) at m))
        | inr (user, input, p, u, c, t, s, e) ↦
            let before : IsFaithful d r =
              elim (In-apply_payload d user_id input p now r (rw (e) at m)) [
                | inl (q, n, inl same) ↦ rw (same) (good q n)
                | inl (q, n, inr same) ↦ rw (same) (marked_lem q (good q n))
                | inr (k, new) ↦
                    let (i, w) =
                      check_signature-none crypto unmarshal user input.id input.payload input.sig
                        c in
                    rw (new) (record {
                      user = user;
                      p = p;
                      registered = u;
                      identified = i;
                      verifies = w;
                      reads = read_payload-some crypto unmarshal input.payload p t;
                      is_connection = k;
                      same_signer = s;
                      same_other = refl;
                      same_public = refl;
                      same_trust = refl;
                      same_extends = refl;
                    })
              ] in
            rw (e) (IsFaithful-users d _ r (apply_payload-users d user_id input p now) before)
      ]
    where
      marked_lem : (q : Connection) → IsFaithful d q → IsFaithful d (revoked_connection now q)
      marked_lem q f = record {
        user = f.user;
        p = f.p;
        registered = f.registered;
        identified = f.identified;
        verifies = f.verifies;
        reads = f.reads;
        is_connection = f.is_connection;
        same_signer = f.same_signer;
        same_other = f.same_other;
        same_public = f.same_public;
        same_trust = f.same_trust;
        same_extends = f.same_extends;
      }
