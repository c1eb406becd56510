-- ===== src/Commands/Trust.antt =====
-- cmd/tillit/commands/trust.go and delete.go: trusting, distrusting and forgetting a peer, and deleting a
-- signature that is not published. What is printed is left out; `none` is an error.
pub mod Revoked
pub mod Forgets
pub mod Deletes
mod Examples
use tillit.Base.{
  Bytes, codes, ◌==◌, nat_eq, ℕ, ℤ, pos, negsuc, atoi, Bool, true, false, not, ◌&&◌, Option, none,
  some, List, [], ◌∷◌, if◌then◌else◌,
}
use tillit.Models.Payload.{Payload, type_connection, type_connection_revocation}
use tillit.Localstore.{
  Store, Peer, CachedConnection, item_signature, save_cached_connection, save_peer, get_peer,
  remove_peer, has_been_pushed, delete_cached_signature,
}
use tillit.Localstore.Listing.{lookup_cached_signature}
use tillit.Localstore.Revocation.{Kind, get_active_connection}
use tillit.Sync.{Keys, Servers, fetch_and_cache_pubkey}
use tillit.Commands.Signing.{Signer, SignTools, SignedItem, active_signer_and_id, sign_payload}
use tillit.Commands.Sign.{empty_payload}

-- What stands before and behind the last byte `sep`, as after strings.LastIndex.
pub last_cut : ℕ → Bytes → Option (Bytes × Bytes)
last_cut sep [] = none
last_cut sep (c ∷ s) = elim (last_cut sep s) [
  | some (l, r) ↦ some (c ∷ l, r)
  | none ↦ if nat_eq c sep then some ([], s) else none
]

-- parsePeer; a text that starts with the last '@' has no user id.
pub parse_peer : Bytes → Option (Bytes × Bytes)
parse_peer arg = elim (last_cut b'@' arg) [
  | none ↦ none
  | some ([], url) ↦ none
  | some (c ∷ id, url) ↦ some (c ∷ id, url)
]

-- The depth, and whether the trust is public and for vetoes only.
abbrev pub TrustFlags : Type 0
TrustFlags = ℤ × Bool × Bool

abbrev pub parse_depth : Bytes → Option ℤ
parse_depth text = elim (atoi text) [
  | none ↦ none
  | some (pos n) ↦ some (pos n)
  | some (negsuc n) ↦ none
]

-- The loop over the flags, with those so far.
pub parse_trust_flags : TrustFlags → List Bytes → Option TrustFlags
parse_trust_flags flags [] = some flags
parse_trust_flags (depth, public, veto_only) (a ∷ []) =
    if a == codes "--depth"
    then none
    else if a == codes "--public"
    then some (depth, true, veto_only)
    else if a == codes "--veto-only"
    then some (depth, public, true)
    else none
parse_trust_flags (depth, public, veto_only) (a ∷ b ∷ args) =
    let as_public = parse_trust_flags (depth, true, veto_only) (b ∷ args) in
    let as_veto_only = parse_trust_flags (depth, public, true) (b ∷ args) in
    if a == codes "--depth"
    then elim (parse_depth b) [
      | none ↦ none
      | some d ↦ parse_trust_flags (d, public, veto_only) args
    ]
    else if a == codes "--public"
    then as_public
    else if a == codes "--veto-only"
    then as_veto_only
    else none

abbrev pub connection_revocation : Bytes → Bytes → Payload
connection_revocation user_id target_id =
    record (empty_payload type_connection_revocation user_id) { target_id = target_id }

abbrev pub connection_payload : Bytes → Peer → Payload
connection_payload user_id peer = record (empty_payload type_connection user_id) {
  other_id = peer.id;
  public = peer.public;
  trust = not peer.distrusted && not peer.veto_only;
  trust_extends = peer.trust_depth;
}

abbrev pub connection_row : Bytes → Bytes → ℕ → SignedItem → CachedConnection
connection_row user_id other_id now item = record {
  id = item.id;
  signer = user_id;
  other_id = other_id;
  payload = item.payload;
  algorithm = item.algorithm;
  sig = item.sig;
  created_at = now;
  revoked = false;
  revoked_at = none;
  fetched_at = now;
}

abbrev pub distrusted_peer : Bytes → Bytes → Peer
distrusted_peer id server_url = record {
  id = id;
  server_url = server_url;
  trust_depth = pos 0;
  public = false;
  distrusted = true;
  veto_only = false;
  last_synced_at = none;
}

-- The URL of the peer that there is, else none.
abbrev pub known_url : Option Peer → Bytes
known_url none = []
known_url (some p) = p.server_url

-- `nonce` is the randomness of the revocation, `nonce'` that of the connection.
module _ (read_kind : Bytes → Option Kind) (tools : SignTools) (now nonce : ℕ) where
  pub revoke_active_connection : Store → Signer → Bytes → Bytes → Option Store
  revoke_active_connection s signer user_id other_id =
      elim (get_active_connection read_kind s user_id other_id) [
        | none ↦ some s
        | some existing ↦
            elim (sign_payload tools signer nonce (connection_revocation user_id existing.id)) [
              | none ↦ none
              | some item ↦ some (
                  save_cached_connection
                    (save_cached_connection s (connection_row user_id other_id now item))
                    (record existing { revoked = true; revoked_at = some now }))
            ]
      ]

  pub forget : Store → Bytes → Option Store
  forget s id = elim (active_signer_and_id tools s) [
    | none ↦ none
    | some (signer, user_id) ↦ elim (revoke_active_connection s signer user_id id) [
      | none ↦ none
      | some s' ↦ some (remove_peer s' id)
    ]
  ]

  module _ (nonce' : ℕ) where
    pub record_trust_change : Store → Signer → Bytes → Peer → Option Store
    record_trust_change s signer user_id peer =
        elim (revoke_active_connection s signer user_id peer.id) [
          | none ↦ none
          | some s' ↦ elim (sign_payload tools signer nonce' (connection_payload user_id peer)) [
            | none ↦ none
            | some item ↦ some (
                save_peer (save_cached_connection s' (connection_row user_id peer.id now item))
                  peer)
          ]
        ]

    pub distrust : Store → Bytes → Option Store
    distrust s id = elim (active_signer_and_id tools s) [
      | none ↦ none
      | some (signer, user_id) ↦
          record_trust_change s signer user_id (distrusted_peer id (known_url (get_peer s id)))
    ]

    -- Trust of its arguments, with the answers of the servers.
    pub trust : Keys → Servers → Store → List Bytes → Option Store
    trust keys servers s [] = none
    trust keys servers s (arg ∷ args) = elim (parse_peer arg) [
      | none ↦ none
      | some (id, server_url) ↦ elim (parse_trust_flags (pos 1, false, false) args) [
        | none ↦ none
        | some (depth, public, veto_only) ↦ elim (active_signer_and_id tools s) [
          | none ↦ none
          | some (signer, user_id) ↦
              elim (fetch_and_cache_pubkey keys servers s server_url id now) [
                | none ↦ none
                | some s' ↦ record_trust_change s' signer user_id (record {
                  id = id;
                  server_url = server_url;
                  trust_depth = depth;
                  public = public;
                  distrusted = false;
                  veto_only = veto_only;
                  last_synced_at = none;
                })
              ]
        ]
      ]
    ]

-- runDelete; `like` is the database's match of a prefix.
pub run_delete : (Bytes → Bytes → Bool) → Store → Bytes → Option Store
run_delete like s id = if id == [] then none else elim (lookup_cached_signature like s id) [
  | none ↦ none
  | some sig ↦
      if has_been_pushed s sig.id item_signature then none else delete_cached_signature s sig.id
]
