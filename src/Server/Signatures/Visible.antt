-- ===== src/Server/Signatures/Visible.antt =====
-- handlers/signaturehandler.go: which signatures a request is shown.
use tillit.Base.{
  Bytes, ◌/◌, ◌*◌, ◌==◌, ==_iff, ℕ, ◌≤◌, Bool, true, false, ◌&&◌, Option, none, some, In,
  In-keep_iff, In-sort_iff, leb_iff, ◌≡◌, refl, ◌↔◌, ◌⊎◌, inl, inr, arith, if◌then◌else◌,
}
use tillit.Models.Signature.{Signature}
use tillit.Localstore.{to_seconds}
use tillit.Server.Database.{User, Database, at_or_after, get_user_signatures}
use tillit.Server.Signatures.{is_user, get_user_signatures_handler}

-- The request comes from the user of this id.
abbrev pub IsFrom : Option User → Bytes → Type 0
IsFrom authed id = (u : User) × (authed ≡ some u) × (u.id ≡ id)

-- Uploaded in the second of the given instant or later, if one is given; both are nanoseconds.
pub data IsSince : Option ℕ → ℕ → Type 0 where
  any_time : {t : ℕ} → IsSince none t
  from_second : {since t : ℕ} → since / 1000000000 * 1000000000 ≤ t → IsSince (some since) t

is_user-IsFrom : (authed : Option User) (id : Bytes) → (is_user authed id ≡ true) ↔ IsFrom authed id
is_user-IsFrom none id = ((λ h. absurd (ground arith)), (λ (u, e, h). absurd (ground arith)))
is_user-IsFrom (some u) id = (
  λ h. (u, refl, (==_iff u.id id).0 h),
  λ (v, e, h). let same : u ≡ v = cc in (==_iff u.id id).1 (rw (same) h),
)

at_or_after-IsSince : (since : Option ℕ) (t : ℕ) → (at_or_after since t ≡ true) ↔ IsSince since t
at_or_after-IsSince none t = ((λ h. any_time), (λ h. refl))
at_or_after-IsSince (some since) t = (
  λ h. from_second ((leb_iff (to_seconds since) t).0 h),
  λ h. elim h [ from_second le ↦ (leb_iff (to_seconds since) t).1 le ],
)

-- A request for one signer's signatures is shown a row exactly if the table has it, it is of that
-- signer, it is public or the request comes from the signer, and it was not uploaded before the
-- second of the instant that the request gives, if it gives one.
pub get_user_signatures_handler_iff :
    (d : Database) (user_id : Bytes) (authed : Option User) (since : Option ℕ) (r : Signature)
    → In r (get_user_signatures_handler d user_id authed since) ↔ (
        In r d.signatures
        × (r.signer ≡ user_id)
        × ((r.public ≡ true) ⊎ IsFrom authed user_id)
        × IsSince since r.uploaded_at)
unfolding get_user_signatures_handler get_user_signatures
get_user_signatures_handler_iff d user_id authed since r = (
  λ m.
      let (n, t) = (In-keep_iff _ r d.signatures).0 ((In-sort_iff _ r _).0 m) in
      let (own, shown, recent) = (row_iff (is_user authed user_id)).0 t in
      (
        n,
        own,
        elim shown [ inl p ↦ inl p | inr a ↦ inr ((is_user-IsFrom authed user_id).0 a) ],
        (at_or_after-IsSince since r.uploaded_at).0 recent,
      ),
  λ (n, own, shown, recent). (In-sort_iff _ r _).1 (
      (In-keep_iff _ r d.signatures).1 (
        n,
        (row_iff (is_user authed user_id)).1 (
          own,
          elim shown [ inl p ↦ inl p | inr a ↦ inr ((is_user-IsFrom authed user_id).1 a) ],
          (at_or_after-IsSince since r.uploaded_at).1 recent,
        ),
      )),
)
  where
    row_iff :
        (b : Bool)
        → ((r.signer == user_id
              && ((if b then true else r.public) && at_or_after since r.uploaded_at))
            ≡ true)
          ↔ ((r.signer ≡ user_id)
              × ((r.public ≡ true) ⊎ (b ≡ true))
              × (at_or_after since r.uploaded_at ≡ true))
    row_iff true = (
      λ h. (ground (arith, ==_iff r.signer user_id), inr refl, ground arith),
      λ h. ground (arith, ==_iff r.signer user_id),
    )
    row_iff false = (
      λ h. (ground (arith, ==_iff r.signer user_id), inl (ground arith), ground arith),
      λ (own, shown, recent). elim shown [
        | inl p ↦ ground (arith, ==_iff r.signer user_id)
        | inr a ↦ absurd (ground arith)
      ],
    )
