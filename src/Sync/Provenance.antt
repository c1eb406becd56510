-- ===== src/Sync/Provenance.antt =====
-- cmd/tillit/commands/sync.go: where the rows in the cache come from.
use tillit.Base.{
  Bytes, ◌==◌, ==_iff, ℕ, Bool, true, false, none, some, List, [], ◌∷◌, any, In, here, there,
  In-cons, In-append_cases, ◌≡◌, refl, ◌⊎◌, inl, inr, arith, Bool-cases, Option-cases,
}
use tillit.Localstore.{
  Peer, CachedSignature, CachedConnection, Store, save_cached_connection, save_cached_signature,
  save_cached_user, get_cached_user, list_peers, set_peer_last_synced_at,
}
use tillit.Models.Signature.{Signature}
use tillit.Server.Database.{Connection}
use tillit.Sync.{
  Keys, Servers, verify_bytes, verify_signed, cached_connection, cached_signature,
  cache_connections, cache_signatures, fetch_and_cache_pubkey, fetch_connections, fetch_signatures,
  sync_peer, sync_peers, sync,
}

module _ (keys : Keys) where
  -- A key whose hash is the signer's identifier has signed the payload.
  pub record IsSignedBy (signer payload sig : Bytes) : Type 0 where
    pub pub_bytes : Bytes
    pub algorithm : Bytes
    pub verify : Bytes → Bytes → Bool
    pub sig_bytes : Bytes
    pub identified : keys.encode_base64 (keys.sha256 pub_bytes) ≡ signer
    pub key : keys.new_verifier algorithm pub_bytes ≡ some verify
    pub decodes : keys.decode_base64 sig ≡ some sig_bytes
    pub verifies : verify payload sig_bytes ≡ true

  verify_bytes-IsSignedBy :
      (signer payload algorithm sig pub_bytes : Bytes)
      → verify_bytes keys signer payload algorithm sig pub_bytes ≡ true
      → IsSignedBy signer payload sig
  unfolding verify_bytes
  verify_bytes-IsSignedBy signer payload algorithm sig pub_bytes h =
      elim (Option-cases (keys.new_verifier algorithm pub_bytes)) [
        | inl k ↦ absurd (ground arith)
        | inr (verify, k) ↦ elim (Option-cases (keys.decode_base64 sig)) [
          | inl d ↦ absurd (ground arith)
          | inr (sig_bytes, d) ↦ record {
            pub_bytes = pub_bytes;
            algorithm = algorithm;
            verify = verify;
            sig_bytes = sig_bytes;
            identified = ground (arith, ==_iff (keys.encode_base64 (keys.sha256 pub_bytes)) signer);
            key = k;
            decodes = d;
            verifies = ground arith;
          }
        ]
      ]

  verify_signed-IsSignedBy :
      (s : Store) (signer payload algorithm sig : Bytes)
      → verify_signed keys s signer payload algorithm sig ≡ true
      → IsSignedBy signer payload sig
  unfolding verify_signed
  verify_signed-IsSignedBy s signer payload algorithm sig h =
      elim (Option-cases (get_cached_user s signer)) [
        | inl u ↦ absurd (ground arith)
        | inr (u, e) ↦ elim (Option-cases (keys.decode_base64 u.pubkey)) [
          | inl d ↦ absurd (ground arith)
          | inr (pub_bytes, d) ↦
              verify_bytes-IsSignedBy signer payload algorithm sig pub_bytes (ground arith)
        ]
      ]

  module _ (before : Store) where
    -- A peer of the store that is not distrusted.
    abbrev pub IsSource : Peer → Type 0
    IsSource peer = In peer (list_peers before) × (peer.distrusted ≡ false)

    -- A connection that was there before, or that a peer has signed, as whose it is cached.
    abbrev pub ConnectionFrom : CachedConnection → Type 0
    ConnectionFrom c =
        In c before.connections
        ⊎ ((peer : Peer) × IsSource peer
            × (c.signer ≡ peer.id)
            × IsSignedBy c.signer c.payload c.sig)

    -- A signature that was there before, or that a peer has signed.
    abbrev pub SignatureFrom : CachedSignature → Type 0
    SignatureFrom r =
        In r before.signatures
        ⊎ ((peer : Peer) × IsSource peer × IsSignedBy peer.id r.payload r.sig)

    -- All rows of the store are such.
    abbrev pub IsAccounted : Store → Type 0
    IsAccounted s =
        ((c : CachedConnection) → In c s.connections → ConnectionFrom c)
        × ((r : CachedSignature) → In r s.signatures → SignatureFrom r)

    save_connection-IsAccounted :
        (s : Store) (peer : Peer) (now : ℕ) (c : Connection)
        → IsSource peer
        → IsSignedBy peer.id c.payload c.sig
        → IsAccounted s
        → IsAccounted (save_cached_connection s (cached_connection keys peer now c))
    unfolding save_cached_connection
    save_connection-IsAccounted s peer now c source signed h =
        elim (Bool-cases (any (λ (q : CachedConnection). q.id == c.id) s.connections)) [
          | inl e ↦ rw (save_cached_connection, e) h
          | inr e ↦
              rw (save_cached_connection, e)
                (
                  (λ x m. elim (In-append_cases s.connections _ m) [
                    | inl old ↦ h.0 x old
                    | inr new ↦ elim (In-cons _ _ _ new) [
                      | inl same ↦ rw (same) (inr (peer, source, refl, signed))
                      | inr nothing ↦ elim nothing [ ]
                    ]
                  ]),
                  h.1,
                )
        ]

    save_signature-IsAccounted :
        (s : Store) (peer : Peer) (now : ℕ) (r : Signature)
        → IsSource peer
        → IsSignedBy peer.id r.payload r.sig
        → IsAccounted s
        → IsAccounted (save_cached_signature s (cached_signature keys now r))
    unfolding save_cached_signature
    save_signature-IsAccounted s peer now r source signed h =
        elim (Bool-cases (any (λ (q : CachedSignature). q.id == r.id) s.signatures)) [
          | inl e ↦ rw (save_cached_signature, e) h
          | inr e ↦
              rw (save_cached_signature, e)
                (
                  h.0,
                  (λ x m. elim (In-append_cases s.signatures _ m) [
                    | inl old ↦ h.1 x old
                    | inr new ↦ elim (In-cons _ _ _ new) [
                      | inl same ↦ rw (same) (inr (peer, source, signed))
                      | inr nothing ↦ elim nothing [ ]
                    ]
                  ]),
                )
        ]

    cache_connections-IsAccounted :
        (s : Store) (peer : Peer) (now : ℕ) (cs : List Connection)
        → IsSource peer
        → IsAccounted s
        → IsAccounted (cache_connections keys s peer now cs)
    unfolding cache_connections
    cache_connections-IsAccounted s peer now [] source h = h
    cache_connections-IsAccounted s peer now (c ∷ cs) source h =
        elim (Bool-cases (verify_signed keys s peer.id c.payload c.algorithm c.sig)) [
          | inl e ↦
              rw (cache_connections, e)
                (cache_connections-IsAccounted
                  (save_cached_connection s (cached_connection keys peer now c)) peer now cs source
                  (save_connection-IsAccounted s peer now c source
                    (verify_signed-IsSignedBy s peer.id c.payload c.algorithm c.sig e) h))
          | inr e ↦ rw (cache_connections, e) (cache_connections-IsAccounted s peer now cs source h)
        ]

    cache_signatures-IsAccounted :
        (s : Store) (peer : Peer) (now : ℕ) (rs : List Signature)
        → IsSource peer
        → IsAccounted s
        → IsAccounted (cache_signatures keys s peer now rs)
    unfolding cache_signatures
    cache_signatures-IsAccounted s peer now [] source h = h
    cache_signatures-IsAccounted s peer now (r ∷ rs) source h =
        elim (Bool-cases (verify_signed keys s peer.id r.payload r.algorithm r.sig)) [
          | inl e ↦
              rw (cache_signatures, e)
                (cache_signatures-IsAccounted
                  (save_cached_signature s (cached_signature keys now r)) peer now rs source
                  (save_signature-IsAccounted s peer now r source
                    (verify_signed-IsSignedBy s peer.id r.payload r.algorithm r.sig e) h))
          | inr e ↦ rw (cache_signatures, e) (cache_signatures-IsAccounted s peer now rs source h)
        ]

    module _ (servers : Servers) where
      fetch_connections-IsAccounted :
          (s : Store) (peer : Peer) (now : ℕ)
          → IsSource peer
          → IsAccounted s
          → IsAccounted (fetch_connections keys servers s peer now)
      unfolding fetch_connections
      fetch_connections-IsAccounted s peer now source h =
          elim (Option-cases
            (servers.fetch_user_connections peer.server_url peer.id peer.last_synced_at)) [
              | inl e ↦ rw (fetch_connections, e) h
              | inr (cs, e) ↦
                  rw (fetch_connections, e) (cache_connections-IsAccounted s peer now cs source h)
            ]

      stamped-IsAccounted :
          (s : Store) (id : Bytes) (now : ℕ)
          → IsAccounted s
          → IsAccounted (elim (set_peer_last_synced_at s id now) [ none ↦ s | some s' ↦ s' ])
      unfolding set_peer_last_synced_at
      stamped-IsAccounted s id now h = elim (Bool-cases (any (λ (q : Peer). q.id == id) s.peers)) [
        | inl e ↦ rw (set_peer_last_synced_at, e) h
        | inr e ↦ rw (set_peer_last_synced_at, e) h
      ]

      fetch_signatures-IsAccounted :
          (s : Store) (peer : Peer) (now : ℕ)
          → IsSource peer
          → IsAccounted s
          → IsAccounted (fetch_signatures keys servers s peer now)
      unfolding fetch_signatures
      fetch_signatures-IsAccounted s peer now source h =
          elim (Option-cases
            (servers.fetch_user_signatures peer.server_url peer.id peer.last_synced_at)) [
              | inl e ↦ rw (fetch_signatures, e) h
              | inr (rs, e) ↦
                  rw (fetch_signatures, e)
                    (stamped-IsAccounted (cache_signatures keys s peer now rs) peer.id now
                      (cache_signatures-IsAccounted s peer now rs source h))
            ]

      fetch_and_cache_pubkey-IsAccounted :
          (s s' : Store) (url id : Bytes) (now : ℕ)
          → fetch_and_cache_pubkey keys servers s url id now ≡ some s'
          → IsAccounted s
          → IsAccounted s'
      unfolding fetch_and_cache_pubkey save_cached_user
      fetch_and_cache_pubkey-IsAccounted s s' url id now e h =
          let (cs, rs) = same in ((λ c m. h.0 c (rw (cs) at m)), (λ r m. h.1 r (rw (rs) at m)))
        where
          same : (s'.connections ≡ s.connections) × (s'.signatures ≡ s.signatures)
          same = elim (Option-cases (servers.fetch_user url id)) [
            | inl u ↦ absurd (ground arith)
            | inr (u, k) ↦ elim (Option-cases (keys.decode_base64 u.pubkey)) [
              | inl d ↦ absurd (ground arith)
              | inr (b, d) ↦ (ground arith, ground arith)
            ]
          ]

      sync_peer-IsAccounted :
          (s : Store) (peer : Peer) (now : ℕ)
          → In peer (list_peers before)
          → IsAccounted s
          → IsAccounted (sync_peer keys servers s peer now)
      unfolding sync_peer
      sync_peer-IsAccounted s peer now i h = elim (Bool-cases peer.distrusted) [
        | inl e ↦ rw (sync_peer, e) h
        | inr e ↦ elim (Option-cases (get_cached_user s peer.id)) [
          | inr (u, g) ↦
              rw (sync_peer, e, g)
                (fetch_signatures-IsAccounted _ peer now (i, e)
                  (fetch_connections-IsAccounted s peer now (i, e) h))
          | inl g ↦
              elim (Option-cases
                (fetch_and_cache_pubkey keys servers s peer.server_url peer.id now)) [
                  | inl f ↦ rw (sync_peer, e, g, f) h
                  | inr (s', f) ↦
                      rw (sync_peer, e, g, f)
                        (fetch_signatures-IsAccounted _ peer now (i, e)
                          (fetch_connections-IsAccounted s' peer now (i, e)
                            (fetch_and_cache_pubkey-IsAccounted s s' peer.server_url peer.id now f
                              h)))
                ]
        ]
      ]

      sync_peers-IsAccounted :
          (s : Store) (now : ℕ) (peers : List Peer)
          → ((p : Peer) → In p peers → In p (list_peers before))
          → IsAccounted s
          → IsAccounted (sync_peers keys servers s now peers)
      unfolding sync_peers
      sync_peers-IsAccounted s now [] listed h = h
      sync_peers-IsAccounted s now (p ∷ peers) listed h =
          sync_peers-IsAccounted (sync_peer keys servers s p now) now peers
            (λ q m. listed q (there m)) (sync_peer-IsAccounted s p now (listed p (here refl)) h)

-- Whatever the servers answer, a connection that is cached after a sync was there before, or a peer
-- who is not distrusted has signed it, as whose it is cached, under a key whose hash is his
-- identifier. A signature was there before, or such a peer has signed it.
pub sync-IsAccounted :
    (keys : Keys) (servers : Servers) (s : Store) (now : ℕ)
    → IsAccounted keys s (sync keys servers s now)
unfolding sync
sync-IsAccounted keys servers s now =
    sync_peers-IsAccounted keys s servers s now (list_peers s) (λ p m. m)
      ((λ c m. inl m), (λ r m. inl m))
