-- ===== src/Commands/Publish/Recorded.antt =====
-- cmd/tillit/commands/sync.go, Publish: only what a server accepted is recorded as pushed.
use tillit.Base.{Bytes, ℕ, true, List, ◌∷◌, In, ◌≡◌, ◌⊎◌, refl, inl, inr, Bool-cases}
use tillit.Base.Keyed.{each_keeps}
use tillit.Models.Payload.{Unmarshal}
use tillit.Localstore.{
  Store, Server, CachedSignature, CachedConnection, ItemType, item_signature, item_connection,
  is_pushed,
}
use tillit.Localstore.{get_cached_signatures_by_signer, get_cached_connections_by_signer}
use tillit.Localstore.Pushes.{record_push-cases}
use tillit.Localstore.Rows.{
  get_cached_signatures_by_signer_iff, get_cached_connections_by_signer_iff,
}
use tillit.Commands.Publish.{
  Upload, Answers, Run, signature_upload, connection_upload, connection_should_be_pushed, push,
  push_signature, push_connection, push_server,
}
use tillit.Commands.Publish.Settled.{IsAnswered, last, earlier}

module _ (answers : Answers) (user_id : Bytes) (start : Store) where
  -- The item is a row whose upload to the server was accepted.
  pub data IsUploaded (id : Bytes) (type : ItemType) (url : Bytes) (sent : List Upload)
      : Type 0 where
    signature_accepted :
        (c : CachedSignature)
        → In c start.signatures
        → c.signer ≡ user_id
        → c.id ≡ id
        → type ≡ item_signature
        → IsAnswered answers true (signature_upload user_id url c) sent
        → IsUploaded id type url sent
    connection_accepted :
        (c : CachedConnection)
        → In c start.connections
        → c.signer ≡ user_id
        → c.id ≡ id
        → type ≡ item_connection
        → IsAnswered answers true (connection_upload user_id url c) sent
        → IsUploaded id type url sent

  IsUploaded-earlier :
      (id : Bytes) (type : ItemType) (url : Bytes) (u : Upload) (sent : List Upload)
      → IsUploaded id type url sent
      → IsUploaded id type url (u ∷ sent)
  IsUploaded-earlier id type url u sent (signature_accepted c i o e t a) =
      signature_accepted c i o e t (earlier a)
  IsUploaded-earlier id type url u sent (connection_accepted c i o e t a) =
      connection_accepted c i o e t (earlier a)

  -- What is recorded was recorded at the start, or is a row that was accepted.
  abbrev pub IsEarned : Run → Type 0
  IsEarned run =
      (id : Bytes) (type : ItemType) (url : Bytes)
      → is_pushed run.store id type url ≡ true
      → (is_pushed start id type url ≡ true) ⊎ IsUploaded id type url run.sent

  module _ (unmarshal : Unmarshal) (now : ℕ) where
    push-IsEarned :
        (type : ItemType) (id : Bytes) (u : Upload) (run : Run)
        → (answers run.sent u ≡ true → IsUploaded id type u.server_url (u ∷ run.sent))
        → IsEarned run
        → IsEarned (push unmarshal answers now user_id type id u run)
    unfolding push
    push-IsEarned type id u run new g id' type' url' = elim (Bool-cases (answers run.sent u)) [
      | inl e ↦ rw (e) (λ h.
          elim (record_push-cases run.store id type u.server_url now id' type' url' h) [
            | inl (i, t, v) ↦ inr (rw (← i, ← t, ← v) (new e))
            | inr old ↦ before (g id' type' url' old)
          ])
      | inr e ↦ rw (e) (λ h. before (g id' type' url' h))
    ]
      where
        before :
            (is_pushed start id' type' url' ≡ true) ⊎ IsUploaded id' type' url' run.sent
            → (is_pushed start id' type' url' ≡ true) ⊎ IsUploaded id' type' url' (u ∷ run.sent)
        before (inl h) = inl h
        before (inr h) = inr (IsUploaded-earlier id' type' url' u run.sent h)

    push_signature-IsEarned :
        (to : Bytes) (run : Run) (c : CachedSignature)
        → In c (get_cached_signatures_by_signer start user_id)
        → IsEarned run
        → IsEarned (push_signature unmarshal answers now user_id to run c)
    unfolding push_signature
    push_signature-IsEarned to run c i g =
        elim (Bool-cases (is_pushed run.store c.id item_signature to)) [
          | inl e ↦ rw (e) g
          | inr e ↦ rw (e) (
              push-IsEarned item_signature c.id (signature_upload user_id to c) run
                (λ a.
                  let (m, own) = (get_cached_signatures_by_signer_iff start user_id c).0 i in
                  signature_accepted c m own refl refl (last a))
                g)
        ]

    push_connection-IsEarned :
        (to : Bytes) (run : Run) (c : CachedConnection)
        → In c (get_cached_connections_by_signer start user_id)
        → IsEarned run
        → IsEarned (push_connection unmarshal answers now user_id to run c)
    unfolding push_connection
    push_connection-IsEarned to run c i g =
        elim (Bool-cases (connection_should_be_pushed unmarshal c)) [
          | inr n ↦ rw (n) g
          | inl y ↦ elim (Bool-cases (is_pushed run.store c.id item_connection to)) [
            | inl e ↦ rw (y, e) g
            | inr e ↦
                rw (y, e)
                  (push-IsEarned item_connection c.id (connection_upload user_id to c) run
                    (λ a.
                      let (m, own) = (get_cached_connections_by_signer_iff start user_id c).0 i in
                      connection_accepted c m own refl refl (last a))
                    g)
          ]
        ]

    pub push_server-IsEarned :
        (run : Run) (v : Server)
        → IsEarned run
        → IsEarned (
            push_server unmarshal answers now user_id
              (get_cached_signatures_by_signer start user_id)
              (get_cached_connections_by_signer start user_id)
              run
              v)
    unfolding push_server
    push_server-IsEarned run v g =
        each_keeps (push_connection unmarshal answers now user_id v.url) IsEarned
          (get_cached_connections_by_signer start user_id)
          (λ r c i. push_connection-IsEarned v.url r c i) _
          (each_keeps (push_signature unmarshal answers now user_id v.url) IsEarned
            (get_cached_signatures_by_signer start user_id)
            (λ r c i. push_signature-IsEarned v.url r c i) run g)
