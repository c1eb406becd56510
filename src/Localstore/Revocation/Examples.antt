-- ===== src/Localstore/Revocation/Examples.antt =====
-- localstore/cache.go and cache_connections.go on a few rows.
use tillit.Base.{
  Bytes, codes, ◌==◌, ℕ, ◌≤◌, Bool, true, false, Option, none, some, List, [], ◌∷◌, In, ◌≡◌, refl,
  ◌↔◌, if◌then◌else◌,
}
use tillit.Models.Payload.{type_decision, type_revocation, type_connection}
use tillit.Localstore.{
  CachedSignature, CachedConnection, Store, get_cached_signature, save_cached_signature,
}
use tillit.Localstore.Revocation.{Kind, is_cached_signature_revoked, get_active_connection}
use tillit.Localstore.Revocation.Derived.{
  IsRevocation, is_cached_signature_revoked_iff, save_cached_signature-revoked,
}
use tillit.Localstore.Revocation.Active.{IsActive, get_active_connection-latest}

abbrev alice : Bytes
alice = codes "alice"

abbrev read : Bytes → Option Kind
read text =
    if text == codes "vet"
    then some (record { type = type_decision; target_id = some [] })
    else if text == codes "undo"
    then some (record { type = type_revocation; target_id = some (codes "1") })
    else if text == codes "trust"
    then some (record { type = type_connection; target_id = some [] })
    else none

abbrev row : Bytes → Bytes → CachedSignature
row id payload = record {
  id = id;
  signer = alice;
  payload = payload;
  algorithm = [];
  sig = [];
  uploaded_at = 0;
  revoked = false;
  revoked_at = none;
  fetched_at = 0;
}

abbrev conn : Bytes → ℕ → CachedConnection
conn id at = record {
  id = id;
  signer = alice;
  other_id = codes "bob";
  payload = codes "trust";
  algorithm = [];
  sig = [];
  created_at = at;
  revoked = false;
  revoked_at = none;
  fetched_at = 0;
}

abbrev store : Store
store = record {
  keys = [];
  active_key = none;
  servers = [];
  peers = [];
  signatures = row (codes "1") (codes "vet") ∷ row (codes "2") (codes "undo") ∷ [];
  connections = conn (codes "3") 5 ∷ conn (codes "4") 7 ∷ [];
  users = [];
  push_state = [];
}

cached : get_cached_signature store (codes "1") ≡ some (row (codes "1") (codes "vet"))
unfolding get_cached_signature tillit.Base.first ◌==◌
cached = refl

revoked_now : is_cached_signature_revoked read store (codes "1") ≡ some (some 0)
unfolding is_cached_signature_revoked get_cached_signature tillit.Base.first ◌==◌
    tillit.Localstore.Revocation.find_revocation tillit.Localstore.get_cached_signatures_by_signer
    tillit.Base.sort tillit.Base.keep tillit.Localstore.Revocation.is_revocation_for
revoked_now = refl

is_cached_signature_revoked_iff_example :
    ((t : ℕ) × (is_cached_signature_revoked read store (codes "1") ≡ some (some t)))
    ↔ IsRevocation read store.signatures alice (codes "1")
is_cached_signature_revoked_iff_example =
    is_cached_signature_revoked_iff read store (codes "1") (row (codes "1") (codes "vet")) cached

save_cached_signature-revoked_example :
    (later : ℕ) × (is_cached_signature_revoked read
        (save_cached_signature store (row (codes "5") (codes "vet")))
        (codes "1")
      ≡ some (some later))
save_cached_signature-revoked_example =
    save_cached_signature-revoked read store (row (codes "5") (codes "vet"))
      (row (codes "1") (codes "vet")) (codes "1") 0 cached revoked_now

second_one : get_active_connection read store alice (codes "bob") ≡ some (conn (codes "4") 7)
unfolding get_active_connection tillit.Localstore.Revocation.latest
    tillit.Localstore.get_cached_connections_by_signer tillit.Base.sort tillit.Base.keep ◌==◌
    tillit.Localstore.Revocation.is_candidate tillit.Base.any tillit.Localstore.Revocation.revokes
    tillit.Localstore.Revocation.is_connection
second_one = refl

get_active_connection-latest_example :
    ((c : CachedConnection)
      → get_active_connection read store alice (codes "bob") ≡ some c
      → IsActive read store alice (codes "bob") c
        × ((x : CachedConnection)
            → IsActive read store alice (codes "bob") x
            → x.created_at ≤ c.created_at))
    × (get_active_connection read store alice (codes "bob") ≡ none
        → (x : CachedConnection) → ¬ IsActive read store alice (codes "bob") x)
get_active_connection-latest_example = get_active_connection-latest read store alice (codes "bob")
