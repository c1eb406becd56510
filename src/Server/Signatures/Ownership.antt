-- ===== src/Server/Signatures/Ownership.antt =====
-- handlers/signaturehandler.go: whose rows an upload can change.
use tillit.Base.{
  Bytes, ==_iff, ℕ, true, Option, none, some, In, ◌≡◌, sym, ◌≢◌, inl, inr, arith, Bool-cases,
}
use tillit.Models.Payload.{Payload, Unmarshal, is_revocation}
use tillit.Models.Signature.{Signature}
use tillit.Server.Database.{User, Database, get_signature, create_signature, revoke_signature}
use tillit.Server.Database.Rows.{
  HasUniqueIds, create_signature-In, mark_signature-In, create_signature-HasUniqueIds,
  revoke_signature-HasUniqueIds, get_signature_unique,
}
use tillit.Server.Signatures.{
  Crypto, SigInput, authorize_signature_revocation, check_revocation, store_signature,
  new_signature, create_signature_handler,
}
use tillit.Server.Signatures.Authentic.{create_signature_handler-cases}

module _ (crypto : Crypto) (unmarshal : Unmarshal) where
  -- A revocation that is let through does not point at another signer's row.
  check_revocation-target :
      (d : Database) (user_id : Bytes) (p : Payload) (r : Signature)
      → check_revocation crypto unmarshal d user_id p ≡ none
      → is_revocation p ≡ true
      → get_signature d p.target_id ≡ some r
      → r.signer ≡ user_id
  unfolding check_revocation authorize_signature_revocation
  check_revocation-target d user_id p r h k found = ground (arith, ==_iff r.signer user_id)

  store_signature-HasUniqueIds :
      (e : Database) (s : Signature) (q : Payload) (t : ℕ)
      → HasUniqueIds e.signatures
      → HasUniqueIds (store_signature crypto unmarshal e s q t).signatures
  unfolding store_signature
  store_signature-HasUniqueIds e s q t w = elim (Bool-cases (is_revocation q)) [
    | inl k ↦
        rw (store_signature, k)
          (revoke_signature-HasUniqueIds (create_signature e s) q.target_id t
            (create_signature-HasUniqueIds e s w))
    | inr k ↦ rw (store_signature, k) (create_signature-HasUniqueIds e s w)
  ]

  store_signature-In :
      (e : Database) (s : Signature) (q : Payload) (t : ℕ) (r : Signature)
      → In r e.signatures
      → (is_revocation q ≡ true → r.id ≢ q.target_id)
      → In r (store_signature crypto unmarshal e s q t).signatures
  unfolding store_signature revoke_signature
  store_signature-In e s q t r m apart = elim (Bool-cases (is_revocation q)) [
    | inl k ↦
        rw (store_signature, k, revoke_signature)
          (mark_signature-In q.target_id t (create_signature e s).signatures r
            (create_signature-In e s r m) (apart k))
    | inr k ↦ rw (store_signature, k) (create_signature-In e s r m)
  ]

  -- Where the identifiers of the rows are different, an upload request for one user leaves every
  -- row of another signer as it was, and the identifiers stay different.
  pub create_signature_handler-owner :
      (d : Database) (user_id : Bytes) (authed : Option User) (body : Option SigInput) (now : ℕ)
      → HasUniqueIds d.signatures
      → HasUniqueIds
          (create_signature_handler crypto unmarshal d user_id authed body now).1.signatures
        × ((r : Signature)
            → In r d.signatures
            → r.signer ≢ user_id
            → In r
                (create_signature_handler crypto unmarshal d user_id authed body now).1.signatures)
  create_signature_handler-owner d user_id authed body now u =
      elim (create_signature_handler-cases crypto unmarshal d user_id authed body now) [
        | inl (code, e) ↦ rw (e) (u, λ r m other. m)
        | inr (user, input, p, b, (f, c, t, v, a), e) ↦ rw (e) (
          store_signature-HasUniqueIds d (new_signature crypto unmarshal user_id input now) p now u,
          λ r m other.
              store_signature-In d (new_signature crypto unmarshal user_id input now) p now r m
                (λ k same. other (
                  check_revocation-target d user_id p r v k
                    (rw (sym same) (get_signature_unique d r u m)))),
        )
      ]
