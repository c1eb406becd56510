-- ===== src/Sync.antt =====
-- cmd/tillit/commands/sync.go, verify.go and store.go: fetching and checking the rows of the peers.
-- The servers' answers, base64, SHA-256 and the verifiers of keys are parameters. What is printed
-- is left out, and both clocks of a run show one instant.
pub mod Provenance
mod Examples
use tillit.Base.{
  Bytes, ◌==◌, ℕ, Bool, true, false, not, Option, none, some, List, [], ◌∷◌, if◌then◌else◌,
}
use tillit.Localstore.{
  Peer, CachedSignature, CachedConnection, CachedUser, Store, save_cached_connection,
  save_cached_signature, save_cached_user, get_cached_user, list_peers, set_peer_last_synced_at,
}
use tillit.Models.Signature.{Signature}
use tillit.Server.Database.{User, Connection}

-- Decoding and encoding, the hash, and a verifier for an algorithm and a key.
pub record Keys : Type 0 where
  pub decode_base64 : Bytes → Option Bytes
  pub encode_base64 : Bytes → Bytes
  pub sha256 : Bytes → Bytes
  pub new_verifier : Bytes → Bytes → Option (Bytes → Bytes → Bool)

-- The answers to requests for a server and a user, `none` on an error.
pub record Servers : Type 0 where
  pub fetch_user : Bytes → Bytes → Option User
  pub fetch_user_connections : Bytes → Bytes → Option ℕ → Option (List Connection)
  pub fetch_user_signatures : Bytes → Bytes → Option ℕ → Option (List Signature)

module _ (keys : Keys) where
  open keys use {decode_base64, encode_base64, sha256, new_verifier}

  -- The last steps of verifySigned, for a key whose hash is the signer.
  pub verify_bytes : Bytes → Bytes → Bytes → Bytes → Bytes → Bool
  verify_bytes signer_id payload algorithm sig pub_bytes =
      if not (encode_base64 (sha256 pub_bytes) == signer_id)
      then false
      else elim (new_verifier algorithm pub_bytes) [
        | none ↦ false
        | some verify ↦ elim (decode_base64 sig) [
          | none ↦ false
          | some sig_bytes ↦ verify payload sig_bytes
        ]
      ]

  -- verifySigned; `true` is no error.
  pub verify_signed : Store → Bytes → Bytes → Bytes → Bytes → Bool
  verify_signed s signer_id payload algorithm sig = elim (get_cached_user s signer_id) [
    | none ↦ false
    | some u ↦ if not (u.algorithm == algorithm) then false else elim (decode_base64 u.pubkey) [
      | none ↦ false
      | some pub_bytes ↦ verify_bytes signer_id payload algorithm sig pub_bytes
    ]
  ]

  abbrev pub cached_connection : Peer → ℕ → Connection → CachedConnection
  cached_connection peer now c = record {
    id = c.id;
    signer = peer.id;
    other_id = c.other_id;
    payload = c.payload;
    algorithm = c.algorithm;
    sig = c.sig;
    created_at = c.created_at;
    revoked = c.revoked;
    revoked_at = c.revoked_at;
    fetched_at = now;
  }

  abbrev pub cached_signature : ℕ → Signature → CachedSignature
  cached_signature now r = record {
    id = r.id;
    signer = r.signer;
    payload = r.payload;
    algorithm = r.algorithm;
    sig = r.sig;
    uploaded_at = r.uploaded_at;
    revoked = r.revoked;
    revoked_at = r.revoked_at;
    fetched_at = now;
  }

  -- The loop over the connections.
  pub cache_connections : Store → Peer → ℕ → List Connection → Store
  cache_connections s peer now [] = s
  cache_connections s peer now (c ∷ cs) =
      cache_connections
        (if verify_signed s peer.id c.payload c.algorithm c.sig
          then save_cached_connection s (cached_connection peer now c)
          else s)
        peer now cs

  -- The loop over the signatures.
  pub cache_signatures : Store → Peer → ℕ → List Signature → Store
  cache_signatures s peer now [] = s
  cache_signatures s peer now (r ∷ rs) =
      cache_signatures
        (if verify_signed s peer.id r.payload r.algorithm r.sig
          then save_cached_signature s (cached_signature now r)
          else s)
        peer now rs

  module _ (servers : Servers) where
    open servers use {fetch_user, fetch_user_connections, fetch_user_signatures}

    -- fetchAndCachePubkey; `none` is an error.
    pub fetch_and_cache_pubkey : Store → Bytes → Bytes → ℕ → Option Store
    fetch_and_cache_pubkey s server_url user_id now = elim (fetch_user server_url user_id) [
      | none ↦ none
      | some u ↦ elim (decode_base64 u.pubkey) [
        | none ↦ none
        | some pub_bytes ↦
            if not (encode_base64 (sha256 pub_bytes) == user_id)
            then none
            else some (
                save_cached_user s (record {
                  id = u.id;
                  username = u.username;
                  pubkey = u.pubkey;
                  algorithm = u.algorithm;
                  fetched_at = now;
                }))
      ]
    ]

    -- The part for one peer behind its key: its connections, then its signatures.
    pub fetch_connections : Store → Peer → ℕ → Store
    fetch_connections s peer now =
        elim (fetch_user_connections peer.server_url peer.id peer.last_synced_at) [
          | none ↦ s
          | some conns ↦ cache_connections s peer now conns
        ]

    pub fetch_signatures : Store → Peer → ℕ → Store
    fetch_signatures s peer now =
        elim (fetch_user_signatures peer.server_url peer.id peer.last_synced_at) [
          | none ↦ s
          | some sigs ↦
              let s' = cache_signatures s peer now sigs in
              elim (set_peer_last_synced_at s' peer.id now) [ none ↦ s' | some s'' ↦ s'' ]
        ]

    pub sync_peer : Store → Peer → ℕ → Store
    sync_peer s peer now = if peer.distrusted then s else elim (get_cached_user s peer.id) [
      | some u ↦ fetch_signatures (fetch_connections s peer now) peer now
      | none ↦ elim (fetch_and_cache_pubkey s peer.server_url peer.id now) [
        | none ↦ s
        | some s' ↦ fetch_signatures (fetch_connections s' peer now) peer now
      ]
    ]

    pub sync_peers : Store → ℕ → List Peer → Store
    sync_peers s now [] = s
    sync_peers s now (peer ∷ peers) = sync_peers (sync_peer s peer now) now peers

    -- Sync
    pub sync : Store → ℕ → Store
    sync s now = sync_peers s now (list_peers s)
