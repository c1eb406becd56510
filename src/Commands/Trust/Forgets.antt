-- ===== src/Commands/Trust/Forgets.antt =====
-- cmd/tillit/commands/trust.go: the store after a peer is forgotten, and after its trust has changed.
use tillit.Base.{
  Bytes, ◌==◌, ==_refl, ℕ, true, not, Option, none, some, List, [], ◌∷◌, keep, first, In, ◌≡◌, ◌≢◌,
  refl, ◌⊎◌, inl, inr, arith, Bool-cases,
}
use tillit.Models.Payload.{validate}
use tillit.Localstore.{
  Store, Peer, CachedConnection, put_peer, save_cached_connection, save_peer, get_peer, remove_peer,
}
use tillit.Localstore.Revocation.{Kind, revokes, get_active_connection}
use tillit.Localstore.Revocation.Active.{IsActive}
use tillit.Commands.Signing.{Signer, SignTools, signed_item, active_signer_and_id, sign_payload}
use tillit.Commands.Sign.Revokes.{kind_of}
use tillit.Commands.Trust.{
  connection_revocation, connection_payload, connection_row, forget, record_trust_change,
}
use tillit.Commands.Trust.Revoked.{
  revocation_text, revocation_id, In-save_cached_connection, save_cached_connection-In,
  revoke_active_connection-IsRevoked,
}

first-keep :
    (id : Bytes) (peers : List Peer)
    → first (λ p. p.id == id) (keep (λ p. not (p.id == id)) peers) ≡ none
unfolding first keep
first-keep id [] = refl
first-keep id (p ∷ peers) = ground (arith, first-keep id peers)

get_peer-remove_peer : (s : Store) (id : Bytes) → get_peer (remove_peer s id) id ≡ none
unfolding get_peer remove_peer
get_peer-remove_peer s id = first-keep id s.peers

-- A save of a peer sets all but the time of the last sync.
first-put_peer :
    (p : Peer) (peers : List Peer)
    → (t : Option ℕ) × (first (λ q. q.id == p.id) (put_peer p peers)
        ≡ some (record p { last_synced_at = t }))
unfolding first
first-put_peer p [] = (none, rw (first, ==_refl p.id) refl)
first-put_peer p (q ∷ peers) = elim (Bool-cases (q.id == p.id)) [
  | inl e ↦ (q.last_synced_at, rw (e, first, ==_refl p.id) refl)
  | inr e ↦ rw (e, first, e) (first-put_peer p peers)
]

get_peer-save_peer :
    (s : Store) (p : Peer)
    → (t : Option ℕ) × (get_peer (save_peer s p) p.id ≡ some (record p { last_synced_at = t }))
unfolding get_peer save_peer
get_peer-save_peer s p = first-put_peer p s.peers

-- Only the connections matter to what is active.
IsActive-same :
    (read_kind : Bytes → Option Kind) (s s' : Store) (user_id other_id : Bytes)
    (x : CachedConnection)
    → s'.connections ≡ s.connections
    → IsActive read_kind s' user_id other_id x
    → IsActive read_kind s user_id other_id x
IsActive-same read_kind s s' user_id other_id x e a = record {
  cached = rw (← e) a.cached;
  same_signer = a.same_signer;
  same_other = a.same_other;
  says_connection = a.says_connection;
  standing = λ r m. a.standing r (rw (e) m);
}

validate-connection_payload :
    (user_id : Bytes) (peer : Peer)
    → user_id ≢ []
    → peer.id ≢ []
    → validate (connection_payload user_id peer) ≡ none
unfolding validate ◌==◌
validate-connection_payload [] peer u t = absurd (u refl)
validate-connection_payload (a ∷ user_id) peer u t = nonempty peer.id t
  where
    nonempty :
        (id : Bytes)
        → id ≢ []
        → validate (connection_payload (a ∷ user_id) (record peer { id = id })) ≡ none
    nonempty [] t = absurd (t refl)
    nonempty (b ∷ id) t = refl

-- For an active user, whose id is not empty, forget of a peer returns. Afterwards there is no such
-- peer, and an active connection to it, if there is one, was active before and is not the one that
-- was found and revoked. The conditions are on the one connection that is found, if there is one:
-- it has an id, the revocation of it signs, the kind of the revocation is read back from its JSON,
-- and a row that is cached under the id of the revocation is the same revocation.
pub forget-IsRevoked :
    (read_kind : Bytes → Option Kind) (tools : SignTools) (now nonce : ℕ) (s : Store)
    (signer : Signer) (user_id id : Bytes)
    → active_signer_and_id tools s ≡ some (signer, user_id)
    → user_id ≢ []
    → ((c : CachedConnection) → get_active_connection read_kind s user_id id ≡ some c → c.id ≢ [])
    → ((c : CachedConnection)
        → get_active_connection read_kind s user_id id ≡ some c
        → read_kind (revocation_text tools user_id c)
          ≡ some (kind_of (connection_revocation user_id c.id)))
    → ((c : CachedConnection)
        → get_active_connection read_kind s user_id id ≡ some c
        → (sig : Bytes) × (signer.sign nonce (revocation_text tools user_id c) ≡ some sig))
    → ((c r : CachedConnection) (sig : Bytes)
        → get_active_connection read_kind s user_id id ≡ some c
        → signer.sign nonce (revocation_text tools user_id c) ≡ some sig
        → In r s.connections
        → r.id ≡ revocation_id tools signer user_id c sig
        → (r.signer ≡ user_id) × (r.payload ≡ revocation_text tools user_id c))
    → (s' : Store) × (forget read_kind tools now nonce s id ≡ some s')
      × (get_peer s' id ≡ none)
      × ((x : CachedConnection)
          → IsActive read_kind s' user_id id x
          → IsActive read_kind s user_id id x
            × ((c : CachedConnection)
                → get_active_connection read_kind s user_id id ≡ some c
                → x.id ≢ c.id))
unfolding forget remove_peer
forget-IsRevoked read_kind tools now nonce s signer user_id id a user named reads signs addressed =
    let (s₁, e, g) =
      revoke_active_connection-IsRevoked read_kind tools now nonce s signer user_id id user named
        reads signs addressed in
    (
      remove_peer s₁ id,
      rw (forget, a, e) refl,
      get_peer-remove_peer s₁ id,
      λ x active.
          let before = IsActive-same read_kind s₁ (remove_peer s₁ id) user_id id x refl active in
          (g.standing x before, λ c found. g.revoked c x found before),
    )

-- A trust change, where user and peer have ids and the new connection signs, returns, under
-- conditions on the one connection to the peer that is found active, if there is one: it has an id,
-- the revocation of it signs, the kind of the revocation is read back from its JSON, and a row that
-- is cached under the id of the revocation is the same revocation. Afterwards the peer is saved
-- with its new parameters, and an active connection to it is either the new one, or was active
-- before and is not the one that was found and revoked. No active connection is one that a row of
-- the user revoked before: a change back to earlier parameters, if it signs to an id that was
-- revoked, leaves no active connection of that id.
pub record_trust_change-IsRevoked :
    (read_kind : Bytes → Option Kind) (tools : SignTools) (now nonce nonce' : ℕ) (s : Store)
    (signer : Signer) (user_id : Bytes) (peer : Peer)
    → user_id ≢ []
    → peer.id ≢ []
    → ((c : CachedConnection)
        → get_active_connection read_kind s user_id peer.id ≡ some c
        → c.id ≢ [])
    → ((c : CachedConnection)
        → get_active_connection read_kind s user_id peer.id ≡ some c
        → read_kind (revocation_text tools user_id c)
          ≡ some (kind_of (connection_revocation user_id c.id)))
    → ((c : CachedConnection)
        → get_active_connection read_kind s user_id peer.id ≡ some c
        → (sig : Bytes) × (signer.sign nonce (revocation_text tools user_id c) ≡ some sig))
    → ((c r : CachedConnection) (sig : Bytes)
        → get_active_connection read_kind s user_id peer.id ≡ some c
        → signer.sign nonce (revocation_text tools user_id c) ≡ some sig
        → In r s.connections
        → r.id ≡ revocation_id tools signer user_id c sig
        → (r.signer ≡ user_id) × (r.payload ≡ revocation_text tools user_id c))
    → (sig : Bytes)
    → signer.sign nonce' (tools.marshal (connection_payload user_id peer)) ≡ some sig
    → (s' : Store) × (record_trust_change read_kind tools now nonce nonce' s signer user_id peer
        ≡ some s')
      × ((t : Option ℕ) × (get_peer s' peer.id ≡ some (record peer { last_synced_at = t })))
      × ((x : CachedConnection)
          → IsActive read_kind s' user_id peer.id x
          → ((x.id
                ≡ (signed_item tools signer
                    (tools.marshal (connection_payload user_id peer))
                    sig).id)
              ⊎ (IsActive read_kind s user_id peer.id x
                  × ((c : CachedConnection)
                      → get_active_connection read_kind s user_id peer.id ≡ some c
                      → x.id ≢ c.id)))
            × ((r : CachedConnection)
                → In r s.connections
                → r.signer ≡ user_id
                → revokes read_kind x.id r ≢ true))
unfolding record_trust_change sign_payload save_peer
record_trust_change-IsRevoked read_kind tools now nonce nonce' s signer user_id peer user other
      named reads signs addressed sig signed =
    let (s₁, e, g) =
      revoke_active_connection-IsRevoked read_kind tools now nonce s signer user_id peer.id user
        named reads signs addressed in
    let n =
      connection_row user_id peer.id now
        (signed_item tools signer (tools.marshal (connection_payload user_id peer)) sig) in
    (
      save_peer (save_cached_connection s₁ n) peer,
      rw
          (
            record_trust_change,
            e,
            sign_payload,
            validate-connection_payload user_id peer user other,
            signed,
          )
          refl,
      get_peer-save_peer (save_cached_connection s₁ n) peer,
      λ x active.
          let a =
            IsActive-same read_kind (save_cached_connection s₁ n)
              (save_peer (save_cached_connection s₁ n) peer) user_id peer.id x refl active in
          (
            after_save s₁ n x g.standing g.revoked a,
            λ r m. a.standing r (In-save_cached_connection s₁ n r (g.kept r m)),
          ),
    )
  where
    after_save :
        (s₁ : Store) (n x : CachedConnection)
        → ((x : CachedConnection)
            → IsActive read_kind s₁ user_id peer.id x
            → IsActive read_kind s user_id peer.id x)
        → ((c x : CachedConnection)
            → get_active_connection read_kind s user_id peer.id ≡ some c
            → IsActive read_kind s₁ user_id peer.id x
            → x.id ≢ c.id)
        → IsActive read_kind (save_cached_connection s₁ n) user_id peer.id x
        → (x.id ≡ n.id)
          ⊎ (IsActive read_kind s user_id peer.id x
              × ((c : CachedConnection)
                  → get_active_connection read_kind s user_id peer.id ≡ some c
                  → x.id ≢ c.id))
    after_save s₁ n x standing revoked a = elim (save_cached_connection-In s₁ n x a.cached) [
      | inr new ↦ inl (rw (new) refl)
      | inl old ↦
          let before : IsActive read_kind s₁ user_id peer.id x = record {
            cached = old;
            same_signer = a.same_signer;
            same_other = a.same_other;
            says_connection = a.says_connection;
            standing = λ r m. a.standing r (In-save_cached_connection s₁ n r m);
          } in
          inr (standing x before, λ c found. revoked c x found before)
    ]
