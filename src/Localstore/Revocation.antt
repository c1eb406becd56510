-- ===== src/Localstore/Revocation.antt =====
-- localstore/cache.go and cache_connections.go: revocation is derived from the rows of one signer.
-- `json.Unmarshal` into a struct of a type and a target is a parameter.
pub mod Derived
pub mod Active
mod Examples
use tillit.Base.{
  Bytes, codes, ◌==◌, ℕ, ltb, Bool, true, false, not, ◌&&◌, ◌||◌, Option, none, some, List, [], ◌∷◌,
  any, if◌then◌else◌,
}
use tillit.Models.Payload.{type_revocation, type_connection, type_connection_revocation}
use tillit.Localstore.{
  CachedSignature, CachedConnection, Store, get_cached_signature, get_cached_signatures_by_signer,
  get_cached_connections_by_signer,
}

-- What is read of a payload. A `target_id` of `none` is one that is not a string: it fails the structs
-- that hold both fields, and is no matter to the one that holds the type alone.
pub record Kind : Type 0 where
  pub type : Bytes
  pub target_id : Option Bytes

abbrev pub is_target : Option Bytes → Bytes → Bool
is_target none id = false
is_target (some t) id = t == id

-- `TargetID != ""` besides.
abbrev pub is_named_target : Option Bytes → Bytes → Bool
is_named_target none id = false
is_named_target (some t) id = not (t == []) && t == id

module _ (read_kind : Bytes → Option Kind) where
  -- isRevocationFor
  unfoldable pub is_revocation_for : Bytes → Bytes → Bool
  is_revocation_for payload target_id = elim (read_kind payload) [
    | none ↦ false
    | some p ↦ p.type == type_revocation && is_target p.target_id target_id
  ]

  -- The loop of IsCachedSignatureRevoked: the upload time of the first revocation.
  pub find_revocation : Bytes → List CachedSignature → Option ℕ
  find_revocation id [] = none
  find_revocation id (candidate ∷ sigs) =
      if candidate.id == id
      then find_revocation id sigs
      else if is_revocation_for candidate.payload id
      then some candidate.uploaded_at
      else find_revocation id sigs

  -- IsCachedSignatureRevoked: the outer `none` is the error that there is no such row, the inner
  -- one is (false, nil).
  pub is_cached_signature_revoked : Store → Bytes → Option (Option ℕ)
  is_cached_signature_revoked s id = elim (get_cached_signature s id) [
    | none ↦ none
    | some target ↦ some (find_revocation id (get_cached_signatures_by_signer s target.signer))
  ]

  -- The first loop of GetActiveConnection, as the test for membership in the map `revoked`.
  unfoldable pub revokes : Bytes → CachedConnection → Bool
  revokes id c = elim (read_kind c.payload) [
    | none ↦ false
    | some p ↦ p.type == type_connection_revocation && is_named_target p.target_id id
  ]

  unfoldable pub is_connection : CachedConnection → Bool
  is_connection c = elim (read_kind c.payload) [ none ↦ false | some p ↦ p.type == type_connection ]

  -- A row that the second loop does not skip.
  unfoldable pub is_candidate : List CachedConnection → Bytes → CachedConnection → Bool
  is_candidate conns other c =
      c.other_id == other && (not (any (revokes c.id) conns) && is_connection c)

  abbrev pub is_better : Option CachedConnection → CachedConnection → Bool
  is_better none c = true
  is_better (some best) c = ltb best.created_at c.created_at

  -- The second loop, `best` being the row so far.
  unfoldable pub latest :
      List CachedConnection
      → Bytes
      → Option CachedConnection
      → List CachedConnection
      → Option CachedConnection
  latest conns other best [] = best
  latest conns other best (c ∷ cs) =
      latest conns other (if is_candidate conns other c && is_better best c then some c else best)
        cs

  -- GetActiveConnection
  unfoldable pub get_active_connection : Store → Bytes → Bytes → Option CachedConnection
  get_active_connection s signer other =
      let conns = get_cached_connections_by_signer s signer in latest conns other none conns
