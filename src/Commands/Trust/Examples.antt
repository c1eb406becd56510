-- ===== src/Commands/Trust/Examples.antt =====
-- cmd/tillit/commands/trust.go and delete.go with a toy key.
use tillit.Base.{
  Bytes, codes, ◌==◌, ==_iff, ℕ, pos, Bool, true, false, Option, none, some, List, [], ◌∷◌, In,
  In-cons, ◌≡◌, ◌≢◌, refl, sym, ◌∙◌, ◌↔◌, ◌⊎◌, inl, inr, arith,
}
use tillit.Models.Payload.{type_connection, type_decision}
use tillit.Localstore.{
  Store, Peer, CachedSignature, CachedConnection, item_signature, get_peer, has_been_pushed,
}
use tillit.Localstore.Listing.{lookup_cached_signature}
use tillit.Localstore.Revocation.{revokes, get_active_connection}
use tillit.Localstore.Revocation.Active.{IsActive}
use tillit.Commands.Signing.{active_signer_and_id, signed_item}
use tillit.Commands.Signing.Examples.{
  alice, signer, tools, write, read_kind, read_kind-write, store,
}
use tillit.Commands.Trust.{
  parse_peer, parse_trust_flags, distrusted_peer, connection_payload, connection_revocation, forget,
  record_trust_change, run_delete,
}
use tillit.Commands.Sign.Revokes.{kind_of}
use tillit.Commands.Trust.Revoked.{revocation_text, revocation_id}
use tillit.Models.Signature.{signature_id}
use tillit.Commands.Trust.Forgets.{forget-IsRevoked, record_trust_change-IsRevoked}
use tillit.Commands.Trust.Deletes.{run_delete-Deletes}

bob_at : parse_peer (codes "bob@x@y") ≡ some (codes "bob@x", codes "y")
unfolding parse_peer tillit.Commands.Trust.last_cut
bob_at = refl

nobody : parse_peer (codes "@y") ≡ none
unfolding parse_peer tillit.Commands.Trust.last_cut
nobody = refl

flags :
    parse_trust_flags (pos 1, false, false) (codes "--depth" ∷ codes "2" ∷ codes "--public" ∷ [])
    ≡ some (pos 2, true, false)
unfolding parse_trust_flags ◌==◌ tillit.Base.atoi
flags = refl

abbrev bob : Bytes
bob = codes "bob"

abbrev peer : Peer
peer = record {
  id = bob;
  server_url = codes "s";
  trust_depth = pos 1;
  public = false;
  distrusted = false;
  veto_only = false;
  last_synced_at = none;
}

abbrev conn : CachedConnection
conn = record {
  id = (signed_item tools signer (write type_connection []) (write type_connection [])).id;
  signer = alice;
  other_id = bob;
  payload = write type_connection [];
  algorithm = [];
  sig = write type_connection [];
  created_at = 0;
  revoked = false;
  revoked_at = none;
  fetched_at = 0;
}

abbrev trusting : Store
trusting = record store { peers = peer ∷ []; connections = conn ∷ [] }

active : active_signer_and_id tools trusting ≡ some (signer, alice)
unfolding active_signer_and_id tillit.Localstore.Settings.get_active_key
    tillit.Localstore.Settings.get_key tillit.Base.first ◌==◌
    tillit.Commands.Signing.decode_private_key
active = refl

-- Her connection, whose id is the hash of its content, is the active one.
found : get_active_connection read_kind trusting alice bob ≡ some conn
unfolding get_active_connection tillit.Localstore.Revocation.latest
    tillit.Localstore.Revocation.is_candidate tillit.Localstore.get_cached_connections_by_signer
    tillit.Base.keep tillit.Base.sort tillit.Base.insert tillit.Base.any revokes
    tillit.Localstore.Revocation.is_connection ◌==◌
found = refl

only :
    (c : CachedConnection) → get_active_connection read_kind trusting alice bob ≡ some c → c ≡ conn
only c e = cc (found)

named :
    (c : CachedConnection) → get_active_connection read_kind trusting alice bob ≡ some c → c.id ≢ []
unfolding signature_id
named c e h = absurd (not_empty (rw (only c e) at h))
  where
    not_empty : conn.id ≢ []
    not_empty h = absurd (ground arith)

reads :
    (c : CachedConnection)
    → get_active_connection read_kind trusting alice bob ≡ some c
    → read_kind (revocation_text tools alice c) ≡ some (kind_of (connection_revocation alice c.id))
reads c e = read_kind-write _ _

signs :
    (c : CachedConnection)
    → get_active_connection read_kind trusting alice bob ≡ some c
    → (sig : Bytes) × (signer.sign 0 (revocation_text tools alice c) ≡ some sig)
signs c e = (revocation_text tools alice c, refl)

-- No row has the id of the revocation.
other_id :
    (conn.id == revocation_id tools signer alice conn (revocation_text tools alice conn)) ≡ false
unfolding signature_id tillit.Models.Signature.frame tillit.Models.Signature.put_uint64 ◌==◌
other_id = refl

addressed :
    (c r : CachedConnection) (sig : Bytes)
    → get_active_connection read_kind trusting alice bob ≡ some c
    → signer.sign 0 (revocation_text tools alice c) ≡ some sig
    → In r trusting.connections
    → r.id ≡ revocation_id tools signer alice c sig
    → (r.signer ≡ alice) × (r.payload ≡ revocation_text tools alice c)
addressed c r sig e signed m h = elim (In-cons r conn [] m) [
  | inl same ↦
      let text : revocation_text tools alice c ≡ revocation_text tools alice conn =
        rw (only c e) refl in
      let by : sig ≡ revocation_text tools alice conn = cc (signed, text) in
      let clash : conn.id
          ≡ revocation_id tools signer alice conn (revocation_text tools alice conn) =
        rw (same, only c e, by) at h in
      absurd (never (sym other_id ∙ (==_iff _ _).1 clash))
  | inr rest ↦ elim rest [ ]
]
  where
    never : false ≢ true
    never h = absurd (ground arith)

someone : alice ≢ []
someone e = absurd (ground arith)

forget-IsRevoked_example :
    (s' : Store) × (forget read_kind tools 0 0 trusting bob ≡ some s')
    × (get_peer s' bob ≡ none)
    × ((x : CachedConnection)
        → IsActive read_kind s' alice bob x
        → IsActive read_kind trusting alice bob x
          × ((c : CachedConnection)
              → get_active_connection read_kind trusting alice bob ≡ some c
              → x.id ≢ c.id))
forget-IsRevoked_example =
    forget-IsRevoked read_kind tools 0 0 trusting signer alice bob active someone named reads signs
      addressed

abbrev distrusts : Bytes
distrusts = tools.marshal (connection_payload alice (distrusted_peer bob (codes "s")))

record_trust_change-IsRevoked_example :
    (s' : Store) × (record_trust_change read_kind tools 0 0 1 trusting signer alice
        (distrusted_peer bob (codes "s"))
      ≡ some s')
    × ((t : Option ℕ) × (get_peer s' bob
          ≡ some (record (distrusted_peer bob (codes "s")) { last_synced_at = t })))
    × ((x : CachedConnection)
        → IsActive read_kind s' alice bob x
        → ((x.id ≡ (signed_item tools signer distrusts distrusts).id)
            ⊎ (IsActive read_kind trusting alice bob x
                × ((c : CachedConnection)
                    → get_active_connection read_kind trusting alice bob ≡ some c
                    → x.id ≢ c.id)))
          × ((r : CachedConnection)
              → In r trusting.connections
              → r.signer ≡ alice
              → revokes read_kind x.id r ≢ true))
record_trust_change-IsRevoked_example =
    record_trust_change-IsRevoked read_kind tools 0 0 1 trusting signer alice
      (distrusted_peer bob (codes "s")) someone (λ e. absurd (ground arith)) named reads signs
      addressed distrusts refl

abbrev row : Bytes → CachedSignature
row id = record {
  id = id;
  signer = alice;
  payload = write type_decision [];
  algorithm = [];
  sig = [];
  uploaded_at = 0;
  revoked = false;
  revoked_at = none;
  fetched_at = 0;
}

abbrev like : Bytes → Bytes → Bool
like q id = q == id

abbrev signed : Store
signed = record store {
  signatures = row (codes "1") ∷ row (codes "2") ∷ [];
  push_state =
      record {
        item_id = codes "2";
        item_type = item_signature;
        server_url = codes "s";
        pushed_at = 0;
      }
      ∷ [];
}

pushed : run_delete like signed (codes "2") ≡ none
unfolding run_delete ◌==◌ lookup_cached_signature tillit.Localstore.get_cached_signature
    tillit.Base.first has_been_pushed tillit.Base.any
pushed = refl

run_delete-Deletes_example :
    ((s' : Store)
      → run_delete like signed (codes "1") ≡ some s'
      → (r : CachedSignature) × (lookup_cached_signature like signed (codes "1") ≡ some r)
        × (has_been_pushed signed r.id item_signature ≡ false)
        × (s' ≡ record signed { signatures = s'.signatures })
        × ((q : CachedSignature) → In q s'.signatures ↔ (In q signed.signatures × (q.id ≢ r.id))))
    × ((r : CachedSignature)
        → lookup_cached_signature like signed (codes "1") ≡ some r
        → has_been_pushed signed r.id item_signature ≡ false
        → (s' : Store) × (run_delete like signed (codes "1") ≡ some s'))
run_delete-Deletes_example = run_delete-Deletes like signed (codes "1")
