-- ===== src/Commands/Trust/Revoked.antt =====
-- cmd/tillit/commands/trust.go: what a trust change revokes, and what stays revoked.
use tillit.Base.{
  Bytes, ◌==◌, ==_iff, ==_refl, ℕ, Bool, true, false, not, ◌&&◌, Option, none, some, [], ◌∷◌, any,
  In, here, In-cons, In-append_left, In-append_right, In-append_cases, any_iff, ◌≡◌, ◌≢◌, refl, ◌∙◌,
  ◌⊎◌, inl, inr, arith, Bool-cases, Option-cases,
}
use tillit.Models.Payload.{validate}
use tillit.Localstore.{
  Store, CachedConnection, save_cached_connection, to_seconds, option_to_seconds,
}
use tillit.Localstore.Revocation.{Kind, revokes, is_connection, get_active_connection}
use tillit.Localstore.Revocation.Active.{IsActive, get_active_connection-latest}
use tillit.Commands.Signing.{Signer, SignTools, signed_item, sign_payload}
use tillit.Commands.Sign.Revokes.{kind_of}
use tillit.Commands.Trust.{connection_revocation, connection_row, revoke_active_connection}

-- A row in the form that it is stored in.
abbrev pub stored_connection : CachedConnection → CachedConnection
stored_connection r = record r {
  created_at = to_seconds r.created_at;
  revoked_at = option_to_seconds r.revoked_at;
  fetched_at = to_seconds r.fetched_at;
}

pub In-save_cached_connection :
    (s : Store) (n r : CachedConnection)
    → In r s.connections
    → In r (save_cached_connection s n).connections
unfolding save_cached_connection
In-save_cached_connection s n r m =
    elim (Bool-cases (any (λ (q : CachedConnection). q.id == n.id) s.connections)) [
      | inl e ↦ rw (e) m
      | inr e ↦ rw (e) (In-append_left _ m)
    ]

pub save_cached_connection-In :
    (s : Store) (n r : CachedConnection)
    → In r (save_cached_connection s n).connections
    → In r s.connections ⊎ (r ≡ stored_connection n)
unfolding save_cached_connection
save_cached_connection-In s n r =
    elim (Bool-cases (any (λ (q : CachedConnection). q.id == n.id) s.connections)) [
      | inl e ↦ rw (e) (λ m. inl m)
      | inr e ↦ rw (e) (λ m. elim (In-append_cases s.connections (stored_connection n ∷ []) m) [
        | inl old ↦ inl old
        | inr new ↦ elim (In-cons r (stored_connection n) [] new) [
          | inl same ↦ inr same
          | inr none_left ↦ elim none_left [ ]
        ]
      ])
    ]

-- After a save there is a row of its id: one that was there, or the new one.
pub saved_connection :
    (s : Store) (n : CachedConnection)
    → (c : CachedConnection) × In c (save_cached_connection s n).connections
      × (c.id ≡ n.id)
      × (In c s.connections ⊎ (c ≡ stored_connection n))
unfolding save_cached_connection
saved_connection s n =
    elim (Bool-cases (any (λ (q : CachedConnection). q.id == n.id) s.connections)) [
      | inl e ↦
          let (c, m, v) = (any_iff (λ (q : CachedConnection). q.id == n.id) s.connections).0 e in
          rw (e) (c, m, (==_iff c.id n.id).0 v, inl m)
      | inr e ↦ rw (e) (_, In-append_right s.connections (here refl), refl, inr refl)
    ]

pub peers-save_cached_connection :
    (s : Store) (n : CachedConnection) → (save_cached_connection s n).peers ≡ s.peers
unfolding save_cached_connection
peers-save_cached_connection s n =
    elim (Bool-cases (any (λ (q : CachedConnection). q.id == n.id) s.connections)) [
      | inl e ↦ rw (e) refl
      | inr e ↦ rw (e) refl
    ]

-- A save under an id that is taken does nothing.
pub save_cached_connection_taken :
    (s : Store) (n c : CachedConnection)
    → In c s.connections
    → c.id ≡ n.id
    → save_cached_connection s n ≡ s
unfolding save_cached_connection
save_cached_connection_taken s n c m e =
    rw
      ((any_iff (λ (q : CachedConnection). q.id == n.id) s.connections).1
        (c, m, (==_iff c.id n.id).1 e))
      refl

validate-connection_revocation :
    (user_id target_id : Bytes)
    → user_id ≢ []
    → target_id ≢ []
    → validate (connection_revocation user_id target_id) ≡ none
unfolding validate ◌==◌
validate-connection_revocation [] target_id u t = absurd (u refl)
validate-connection_revocation (a ∷ user_id) [] u t = absurd (t refl)
validate-connection_revocation (a ∷ user_id) (b ∷ target_id) u t = refl

module _ (read_kind : Bytes → Option Kind) (s : Store) (user_id other_id : Bytes) where
  -- What revoking leaves: every row and the peers; and of the active connections, those that are
  -- not the one it found.
  pub record IsRevoked (s' : Store) : Type 0 where
    pub kept : (r : CachedConnection) → In r s.connections → In r s'.connections
    pub peers : s'.peers ≡ s.peers
    pub standing :
        (x : CachedConnection)
        → IsActive read_kind s' user_id other_id x
        → IsActive read_kind s user_id other_id x
    pub revoked :
        (c x : CachedConnection)
        → get_active_connection read_kind s user_id other_id ≡ some c
        → IsActive read_kind s' user_id other_id x
        → x.id ≢ c.id

-- The JSON of the revocation of a connection.
abbrev pub revocation_text : SignTools → Bytes → CachedConnection → Bytes
revocation_text tools user_id c = tools.marshal (connection_revocation user_id c.id)

-- The id of that revocation, signed so.
abbrev pub revocation_id : SignTools → Signer → Bytes → CachedConnection → Bytes → Bytes
revocation_id tools signer user_id c sig =
    (signed_item tools signer (revocation_text tools user_id c) sig).id

module _ (read_kind : Bytes → Option Kind) (tools : SignTools) (user_id other_id : Bytes)
    (s : Store) (c : CachedConnection) (named : c.id ≢ [])
    (reads : read_kind (revocation_text tools user_id c)
      ≡ some (kind_of (connection_revocation user_id c.id))) where
  -- A row with the JSON of the revocation revokes the connection, and is none.
  revokes_target :
      (r : CachedConnection)
      → r.payload ≡ revocation_text tools user_id c
      → (revokes read_kind c.id r ≡ true) × (is_connection read_kind r ≡ false)
  unfolding revokes is_connection ◌==◌
  revokes_target r e = rw (revokes, is_connection, e, reads) (test c.id named, refl)
    where
      test : (id : Bytes) → id ≢ [] → (not (id == []) && id == id) ≡ true
      test [] n = absurd (n refl)
      test (b ∷ id) n = ==_refl (b ∷ id)

  module _ (now : ℕ) (signer : Signer) (sig : Bytes)
      (active : get_active_connection read_kind s user_id other_id ≡ some c)
      (addressed : (r : CachedConnection)
        → In r s.connections
        → r.id ≡ revocation_id tools signer user_id c sig
        → (r.signer ≡ user_id) × (r.payload ≡ revocation_text tools user_id c)) where
    abbrev pub revoking : CachedConnection
    revoking =
        connection_row user_id other_id now
          (signed_item tools signer (revocation_text tools user_id c) sig)

    -- There is a row that revokes the connection.
    revoking_row :
        (r : CachedConnection) × In r (save_cached_connection s revoking).connections
        × (r.signer ≡ user_id)
        × (revokes read_kind c.id r ≡ true)
    revoking_row =
        let (r, m, e, or) = saved_connection s revoking in
        let (own, says) = content r e or in (r, m, own, (revokes_target r says).0)
      where
        content :
            (r : CachedConnection)
            → r.id ≡ revocation_id tools signer user_id c sig
            → In r s.connections ⊎ (r ≡ stored_connection revoking)
            → (r.signer ≡ user_id) × (r.payload ≡ revocation_text tools user_id c)
        content r e (inl m) = addressed r m e
        content r e (inr same) = rw (same) (refl, refl)

    IsActive-before :
        (x : CachedConnection)
        → IsActive read_kind (save_cached_connection s revoking) user_id other_id x
        → IsActive read_kind s user_id other_id x
    IsActive-before x a = elim (save_cached_connection-In s revoking x a.cached) [
      | inl old ↦ record {
        cached = old;
        same_signer = a.same_signer;
        same_other = a.same_other;
        says_connection = a.says_connection;
        standing = λ r m. a.standing r (In-save_cached_connection s revoking r m);
      }
      | inr new ↦ absurd (true_or_false _ a.says_connection (revokes_target x (rw (new) refl)).1)
    ]
      where
        true_or_false : (b : Bool) → b ≡ true → b ≢ false
        true_or_false b h e = absurd (ground arith)

    IsRevoked-row : IsRevoked read_kind s user_id other_id (save_cached_connection s revoking)
    IsRevoked-row = record {
      kept = λ r m. In-save_cached_connection s revoking r m;
      peers = peers-save_cached_connection s revoking;
      standing = IsActive-before;
      revoked = λ d x found a e.
          let (r, m, own, v) = revoking_row in
          let same : d.id ≡ c.id = cc (found, active) in a.standing r m own (rw (e ∙ same) v);
    }

-- Revoking of a user that signs returns, and the connection that it finds is no more.
pub revoke_active_connection-IsRevoked :
    (read_kind : Bytes → Option Kind) (tools : SignTools) (now nonce : ℕ) (s : Store)
    (signer : Signer) (user_id other_id : Bytes)
    → user_id ≢ []
    → ((c : CachedConnection)
        → get_active_connection read_kind s user_id other_id ≡ some c
        → c.id ≢ [])
    → ((c : CachedConnection)
        → get_active_connection read_kind s user_id other_id ≡ some c
        → read_kind (revocation_text tools user_id c)
          ≡ some (kind_of (connection_revocation user_id c.id)))
    → ((c : CachedConnection)
        → get_active_connection read_kind s user_id other_id ≡ some c
        → (sig : Bytes) × (signer.sign nonce (revocation_text tools user_id c) ≡ some sig))
    → ((c r : CachedConnection) (sig : Bytes)
        → get_active_connection read_kind s user_id other_id ≡ some c
        → signer.sign nonce (revocation_text tools user_id c) ≡ some sig
        → In r s.connections
        → r.id ≡ revocation_id tools signer user_id c sig
        → (r.signer ≡ user_id) × (r.payload ≡ revocation_text tools user_id c))
    → (s' : Store) × (revoke_active_connection read_kind tools now nonce s signer user_id other_id
        ≡ some s')
      × IsRevoked read_kind s user_id other_id s'
unfolding revoke_active_connection sign_payload
revoke_active_connection-IsRevoked read_kind tools now nonce s signer user_id other_id user named
      reads signs addressed =
    elim (Option-cases (get_active_connection read_kind s user_id other_id)) [
      | inl e ↦ (
        s,
        rw (revoke_active_connection, e) refl,
        record {
          kept = λ r m. m;
          peers = refl;
          standing = λ x a. a;
          revoked = λ c x found a. absurd (ground arith);
        },
      )
      | inr (c, e) ↦
          let cached =
            (((get_active_connection-latest read_kind s user_id other_id).0 c e).0).cached in
          let (sig, signed) = signs c e in
          let known = λ (r : CachedConnection). addressed c r sig e signed in
          let n =
            revoking read_kind tools user_id other_id s c (named c e) (reads c e) now signer sig e
              known in
          (
            save_cached_connection s n,
            rw
                (
                  revoke_active_connection,
                  e,
                  sign_payload,
                  validate-connection_revocation user_id c.id user (named c e),
                  signed,
                  save_cached_connection_taken (save_cached_connection s n)
                      (record c { revoked = true; revoked_at = some now }) c
                      (In-save_cached_connection s n c cached) refl,
                )
                refl,
            IsRevoked-row read_kind tools user_id other_id s c (named c e) (reads c e) now signer
                sig e known,
          )
    ]
