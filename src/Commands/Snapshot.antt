-- ===== src/Commands/Snapshot.antt =====
-- cmd/tillit/commands/export.go: snapshots of the client's store. The encoding of a snapshot as JSON,
-- the passwords of encrypted keys and what is printed are left out.
pub mod Steps
pub mod Overwrites
pub mod Merge
pub mod RoundTrip
mod Examples
use tillit.Base.{
  Bytes, ◌==◌, any, not, ℕ, suc, nat_eq, Bool, true, false, Option, none, some, List, [], ◌∷◌, keep,
  if◌then◌else◌,
}
use tillit.Base.Keyed.{each}
use tillit.Models.Payload.{Unmarshal}
use tillit.Localstore.{
  Store, Key, Server, Peer, CachedSignature, CachedConnection, CachedUser, PushStateRow,
  save_cached_signature, save_cached_connection, save_cached_user, save_peer, get_peer, list_peers,
  record_push,
}
use tillit.Localstore.Settings.{
  save_key, get_key, list_keys, set_active_key, get_active_key, save_server, get_server,
  list_servers,
}
use tillit.Localstore.Listing.{
  list_all_cached_signatures, list_all_cached_connections, list_cached_users, list_all_push_state,
}
use tillit.Commands.Signing.{SignTools}
use tillit.Resolver.TrustSet.{TrustMap, has_key, build_trust_set}

abbrev pub export_format_version : ℕ
export_format_version = 1

pub record ExportDoc : Type 0 where
  pub version : ℕ
  pub exported_at : ℕ
  pub active_key : Bytes
  pub keys : List Key
  pub peers : List Peer
  pub servers : List Server
  pub cached_signatures : List CachedSignature
  pub cached_connections : List CachedConnection
  pub cached_users : List CachedUser
  pub push_state : List PushStateRow

pub data ExportScope : Type 0 where
  scope_self scope_include_peers scope_all : ExportScope

-- The empty text where there is no active key.
abbrev pub name_or_empty : Option Bytes → Bytes
name_or_empty none = []
name_or_empty (some name) = name

-- Base64, SHA-256, and the public key of the signer that LoadSigner makes.
pub record KeyTools : Type 0 where
  pub decode_base64 : Bytes → Option Bytes
  pub encode_base64 : Bytes → Bytes
  pub sha256 : Bytes → Bytes
  pub load_signer : Bytes → Bytes → Option Bytes

module _ (tools : KeyTools) where
  -- userIDFromKey; `none` is an error.
  pub user_id_from_key : Key → Option Bytes
  user_id_from_key k = elim (tools.decode_base64 k.privkey) [
    | none ↦ none
    | some priv_bytes ↦ elim (tools.load_signer k.algorithm priv_bytes) [
      | none ↦ none
      | some public_key ↦ some (tools.encode_base64 (tools.sha256 public_key))
    ]
  ]

  -- The identity of the active key, empty where there is none.
  pub active_identity : Store → Bytes
  active_identity s =
      let active_name = name_or_empty (get_active_key s) in
      if active_name == []
      then []
      else elim (get_key s active_name) [ none ↦ [] | some k ↦ name_or_empty (user_id_from_key k) ]

  -- The keys that are exported, the identity, and the name of the active key.
  pub export_identity : Store → Bytes → Option (List Key × Bytes × Bytes)
  export_identity s key_name =
      if key_name == []
      then some (list_keys s, active_identity s, name_or_empty (get_active_key s))
      else elim (get_key s key_name) [
        | none ↦ none
        | some k ↦ elim (user_id_from_key k) [
          | none ↦ none
          | some uid ↦ some (k ∷ [], uid, key_name)
        ]
      ]

-- The cached rows of these signers.
pub rows_of : (Bytes → Bool) → (Bytes → Bool) → Store → ExportDoc → ExportDoc
rows_of is_signer is_user s doc = record doc {
  cached_signatures = keep (λ r. is_signer r.signer) (list_all_cached_signatures s);
  cached_connections = keep (λ c. is_signer c.signer) (list_all_cached_connections s);
  cached_users = keep (λ u. is_user u.id) (list_cached_users s);
}

-- The switch on the scope. `none` is an error of the search for the trust set.
pub add_rows : Unmarshal → Store → ExportScope → Bytes → ExportDoc → Option ExportDoc
add_rows unmarshal s scope_all identity doc = some (record doc {
  cached_signatures = list_all_cached_signatures s;
  cached_connections = list_all_cached_connections s;
  cached_users = list_cached_users s;
})
add_rows unmarshal s scope_include_peers identity doc =
    if identity == [] then some doc else elim (build_trust_set unmarshal s identity identity) [
      | none ↦ none
      | some m ↦ some (rows_of (λ id. has_key id m) (λ id. has_key id m) s doc)
    ]
add_rows unmarshal s scope_self identity doc =
    if identity == [] then some doc else some (rows_of (λ id. id == identity) (λ id. false) s doc)

-- buildExportDoc; `none` is an error.
pub build_export_doc : Unmarshal → KeyTools → Store → ExportScope → Bytes → ℕ → Option ExportDoc
build_export_doc unmarshal tools s scope key_name now = elim (export_identity tools s key_name) [
  | none ↦ none
  | some (keys, identity, active_name) ↦ add_rows unmarshal s scope identity (record {
    version = export_format_version;
    exported_at = now;
    active_key = active_name;
    keys = keys;
    peers = list_peers s;
    servers = list_servers s;
    cached_signatures = [];
    cached_connections = [];
    cached_users = [];
    push_state = list_all_push_state s;
  })
]

pub record ImportStats : Type 0 where
  pub keys : ℕ
  pub peers : ℕ
  pub servers : ℕ
  pub signatures : ℕ
  pub connections : ℕ
  pub cached_users : ℕ
  pub push_state : ℕ
  pub skipped : ℕ

abbrev pub no_stats : ImportStats
no_stats = record {
  keys = 0;
  peers = 0;
  servers = 0;
  signatures = 0;
  connections = 0;
  cached_users = 0;
  push_state = 0;
  skipped = 0;
}

-- A store under import, and the counts so far.
abbrev pub Import : Type 0
Import = Store × ImportStats

abbrev pub skip : Import → Import
skip (s, st) = (s, record st { skipped = suc st.skipped })

-- The bodies of the loops of applyImport.
pub import_key : Import → Key → Import
import_key (s, st) k = elim (get_key s k.name) [
  | some old ↦ skip (s, st)
  | none ↦ (save_key s k, record st { keys = suc st.keys })
]

pub import_active_key : Import → Bytes → Import
import_active_key (s, st) name =
    if name == []
    then (s, st)
    else if name_or_empty (get_active_key s) == []
    then (set_active_key s name, st)
    else (s, st)

pub import_peer : Import → Peer → Import
import_peer (s, st) p = elim (get_peer s p.id) [
  | some old ↦ skip (s, st)
  | none ↦ (save_peer s p, record st { peers = suc st.peers })
]

pub import_server : Import → Server → Import
import_server (s, st) v = elim (get_server s v.url) [
  | some old ↦ skip (s, st)
  | none ↦ (save_server s v, record st { servers = suc st.servers })
]

pub import_signature : Import → CachedSignature → Import
import_signature (s, st) r =
    (save_cached_signature s r, record st { signatures = suc st.signatures })

pub import_connection : Import → CachedConnection → Import
import_connection (s, st) c =
    (save_cached_connection s c, record st { connections = suc st.connections })

pub import_user : Import → CachedUser → Import
import_user (s, st) u = (save_cached_user s u, record st { cached_users = suc st.cached_users })

pub import_push : Import → PushStateRow → Import
import_push (s, st) r = (
  record_push s r.item_id r.item_type r.server_url r.pushed_at,
  record st { push_state = suc st.push_state },
)

-- The first half of applyImport, and the second on the cached rows.
pub import_settings : Import → ExportDoc → Import
import_settings i doc =
    each import_server
      (each import_peer (import_active_key (each import_key i doc.keys) doc.active_key) doc.peers)
      doc.servers

pub import_rows : Import → ExportDoc → Import
import_rows i doc =
    each import_push
      (each import_user
        (each import_connection (each import_signature i doc.cached_signatures)
          doc.cached_connections)
        doc.cached_users)
      doc.push_state

-- applyImport
pub apply_import : Store → ExportDoc → Import
apply_import s doc = import_rows (import_settings (s, no_stats) doc) doc

-- An encrypted key opens with the password that is asked for.
pub unlocks : SignTools → Key → Bool
unlocks tools k =
    if tools.is_encrypted_key k.privkey
    then elim (tools.prompt_password k.name) [
      | none ↦ false
      | some password ↦ elim (tools.decrypt_key k.privkey password) [
        | none ↦ false
        | some plain ↦ true
      ]
    ]
    else true

-- Import behind reading the file; `none` refuses a version that is not known, or a key that does not
-- open.
pub import_doc : SignTools → Store → ExportDoc → Option Import
import_doc tools s doc =
    if nat_eq doc.version export_format_version
    then if any (λ k. not (unlocks tools k)) doc.keys then none else some (apply_import s doc)
    else none
