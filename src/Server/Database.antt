-- ===== src/Server/Database.antt =====
-- db/sqliteconnector: the tables of the server, as lists of rows in the order of insertion.
-- Instants are nanoseconds, and a row keeps whole seconds. An error of the database itself is not
-- modelled.
pub mod Rows
use tillit.Base.{
  Bytes, ◌==◌, ℕ, ltb, leb, ℤ, Bool, true, false, not, ◌&&◌, Option, none, some, List, [], ◌∷◌,
  ◌++◌, keep, any, first, sort, if◌then◌else◌,
}
use tillit.Models.Signature.{Signature}
use tillit.Localstore.{to_seconds}

pub record User : Type 0 where
  pub id : Bytes
  pub username : Bytes
  pub pubkey : Bytes
  pub algorithm : Bytes
  pub is_admin : Bool

pub record Connection : Type 0 where
  pub id : Bytes
  pub owner : Bytes
  pub other_id : Bytes
  pub public : Bool
  pub trust : Bool
  pub trust_extends : ℤ
  pub payload : Bytes
  pub algorithm : Bytes
  pub sig : Bytes
  pub created_at : ℕ
  pub revoked : Bool
  pub revoked_at : Option ℕ

pub record Database : Type 0 where
  pub users : List User
  pub signatures : List Signature
  pub connections : List Connection

abbrev pub find_user : List User → Bytes → Option User
find_user users id = first (λ u. u.id == id) users

-- `none` is ObjectNotFoundError; so below.
unfoldable pub get_user : Database → Bytes → Option User
get_user d id = find_user d.users id

-- signature.go

unfoldable pub get_signature : Database → Bytes → Option Signature
get_signature d id = first (λ s. s.id == id) d.signatures

-- ON CONFLICT(id) DO NOTHING; the columns for a revocation take their defaults.
unfoldable pub create_signature : Database → Signature → Database
create_signature d s = if any (λ r. r.id == s.id) d.signatures then d else record d {
  signatures =
      d.signatures
      ++ record s { uploaded_at = to_seconds s.uploaded_at; revoked = false; revoked_at = none }
        ∷ [];
}

unfoldable pub mark_signature : Bytes → ℕ → List Signature → List Signature
mark_signature id t [] = []
mark_signature id t (r ∷ rows) =
    (if r.id == id then record r { revoked = true; revoked_at = some (to_seconds t) } else r)
    ∷ mark_signature id t rows

unfoldable pub revoke_signature : Database → Bytes → ℕ → Database
revoke_signature d id t = record d { signatures = mark_signature id t d.signatures }

-- `uploaded_at >= since`
abbrev pub at_or_after : Option ℕ → ℕ → Bool
at_or_after none t = true
at_or_after (some since) t = leb (to_seconds since) t

unfoldable pub get_user_signatures : Database → Bytes → Option ℕ → Bool → List Signature
get_user_signatures d signer since include_private =
    sort (λ a b. ltb a.uploaded_at b.uploaded_at)
      (keep
        (λ r.
          r.signer == signer
          && ((if include_private then true else r.public) && at_or_after since r.uploaded_at))
        d.signatures)

-- connection.go

unfoldable pub get_connection : Database → Bytes → Option Connection
get_connection d id = first (λ c. c.id == id) d.connections

unfoldable pub create_connection : Database → Connection → Database
create_connection d c = if any (λ r. r.id == c.id) d.connections then d else record d {
  connections =
      d.connections
      ++ record c { created_at = to_seconds c.created_at; revoked = false; revoked_at = none } ∷ [];
}

unfoldable pub mark_connection : Bytes → ℕ → List Connection → List Connection
mark_connection id t [] = []
mark_connection id t (r ∷ rows) =
    (if r.id == id then record r { revoked = true; revoked_at = some (to_seconds t) } else r)
    ∷ mark_connection id t rows

unfoldable pub revoke_connection : Database → Bytes → ℕ → Option Database
revoke_connection d id t =
    if any (λ r. r.id == id) d.connections
    then some (record d { connections = mark_connection id t d.connections })
    else none

-- `created_at > since`
abbrev pub after : Option ℕ → ℕ → Bool
after none t = true
after (some since) t = ltb (to_seconds since) t

unfoldable pub get_user_public_connections : Database → Bytes → Option ℕ → Bool → List Connection
get_user_public_connections d user_id since include_private =
    sort (λ a b. ltb a.created_at b.created_at)
      (keep
        (λ r.
          r.owner == user_id
          && ((if include_private then true else r.public && not r.revoked)
              && after since r.created_at))
        d.connections)
