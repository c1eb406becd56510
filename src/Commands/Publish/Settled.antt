-- ===== src/Commands/Publish/Settled.antt =====
-- cmd/tillit/commands/sync.go, Publish: each row is recorded as pushed or its upload was refused.
use tillit.Base.{Bytes, ℕ, Bool, true, false, List, ◌∷◌, In, ◌≡◌, ◌⊎◌, inl, inr, Bool-cases}
use tillit.Base.Keyed.{each, each_keeps, each_reaches}
use tillit.Models.Payload.{Unmarshal}
use tillit.Localstore.{
  Server, CachedSignature, CachedConnection, ItemType, item_signature, item_connection, is_pushed,
}
use tillit.Localstore.Pushes.{record_push-keeps, record_push-is_pushed}
use tillit.Commands.Publish.{
  Upload, Answers, Run, signature_upload, connection_upload, connection_should_be_pushed, push,
  push_signature, push_connection, push_server,
}
use tillit.Commands.Publish.Due.{IsShared, IsShared-connection_should_be_pushed}

-- The upload is among those sent, the newest first, and was answered so when it was sent.
pub data IsAnswered (answers : Answers) (b : Bool) (u : Upload) : List Upload → Type 0 where
  last : {sent : List Upload} → answers sent u ≡ b → IsAnswered answers b u (u ∷ sent)
  earlier :
      {w : Upload} {sent : List Upload}
      → IsAnswered answers b u sent
      → IsAnswered answers b u (w ∷ sent)

module _ (unmarshal : Unmarshal) (answers : Answers) (now : ℕ) (user_id : Bytes) where
  module _ (id : Bytes) (type : ItemType) (u : Upload) where
    -- The item is recorded as pushed to the server of the upload, or the upload was refused.
    abbrev pub IsSettled : Run → Type 0
    IsSettled run =
        (is_pushed run.store id type u.server_url ≡ true) ⊎ IsAnswered answers false u run.sent

    push-settles : (run : Run) → IsSettled (push unmarshal answers now user_id type id u run)
    unfolding push
    push-settles run = elim (Bool-cases (answers run.sent u)) [
      | inl e ↦ rw (e) (inl (record_push-is_pushed run.store id type u.server_url now))
      | inr e ↦ rw (e) (inr (last e))
    ]

    push-IsSettled :
        (type' : ItemType) (id' : Bytes) (w : Upload) (run : Run)
        → IsSettled run
        → IsSettled (push unmarshal answers now user_id type' id' w run)
    unfolding push
    push-IsSettled type' id' w run h = elim (Bool-cases (answers run.sent w)) [
      | inl e ↦ elim h [
        | inl p ↦
            rw (e)
              (inl (record_push-keeps run.store id' type' w.server_url now id type u.server_url p))
        | inr r ↦ rw (e) (inr (earlier r))
      ]
      | inr e ↦ elim h [ inl p ↦ rw (e) (inl p) | inr r ↦ rw (e) (inr (earlier r)) ]
    ]

    push_signature-IsSettled :
        (to : Bytes) (run : Run) (c : CachedSignature)
        → IsSettled run
        → IsSettled (push_signature unmarshal answers now user_id to run c)
    unfolding push_signature
    push_signature-IsSettled to run c h =
        elim (Bool-cases (is_pushed run.store c.id item_signature to)) [
          | inl e ↦ rw (e) h
          | inr e ↦
              rw (e) (push-IsSettled item_signature c.id (signature_upload user_id to c) run h)
        ]

    push_connection-IsSettled :
        (to : Bytes) (run : Run) (c : CachedConnection)
        → IsSettled run
        → IsSettled (push_connection unmarshal answers now user_id to run c)
    unfolding push_connection
    push_connection-IsSettled to run c h =
        elim (Bool-cases (connection_should_be_pushed unmarshal c)) [
          | inr n ↦ rw (n) h
          | inl y ↦ elim (Bool-cases (is_pushed run.store c.id item_connection to)) [
            | inl e ↦ rw (y, e) h
            | inr e ↦
                rw (y, e)
                  (push-IsSettled item_connection c.id (connection_upload user_id to c) run h)
          ]
        ]

    push_server-IsSettled :
        (sigs : List CachedSignature) (conns : List CachedConnection) (run : Run) (v : Server)
        → IsSettled run
        → IsSettled (push_server unmarshal answers now user_id sigs conns run v)
    unfolding push_server
    push_server-IsSettled sigs conns run v h =
        each_keeps (push_connection unmarshal answers now user_id v.url) IsSettled conns
          (λ r c _. push_connection-IsSettled v.url r c) _
          (each_keeps (push_signature unmarshal answers now user_id v.url) IsSettled sigs
            (λ r c _. push_signature-IsSettled v.url r c) run h)

  push_signature-settles :
      (to : Bytes) (run : Run) (c : CachedSignature)
      → IsSettled c.id item_signature
          (signature_upload user_id to c)
          (push_signature unmarshal answers now user_id to run c)
  unfolding push_signature
  push_signature-settles to run c = elim (Bool-cases (is_pushed run.store c.id item_signature to)) [
    | inl e ↦ rw (e) (inl e)
    | inr e ↦ rw (e) (push-settles c.id item_signature (signature_upload user_id to c) run)
  ]

  push_connection-settles :
      (to : Bytes) (run : Run) (c : CachedConnection)
      → connection_should_be_pushed unmarshal c ≡ true
      → IsSettled c.id item_connection
          (connection_upload user_id to c)
          (push_connection unmarshal answers now user_id to run c)
  unfolding push_connection
  push_connection-settles to run c y =
      elim (Bool-cases (is_pushed run.store c.id item_connection to)) [
        | inl e ↦ rw (y, e) (inl e)
        | inr e ↦ rw (y, e) (push-settles c.id item_connection (connection_upload user_id to c) run)
      ]

  module _ (sigs : List CachedSignature) (conns : List CachedConnection) where
    -- All that a server is to get is settled.
    pub record IsServed (run : Run) (v : Server) : Type 0 where
      pub signatures :
          (c : CachedSignature)
          → In c sigs
          → IsSettled c.id item_signature (signature_upload user_id v.url c) run
      pub connections :
          (c : CachedConnection)
          → In c conns
          → IsShared unmarshal c
          → IsSettled c.id item_connection (connection_upload user_id v.url c) run

    push_server-IsServed :
        (run : Run) (v : Server)
        → IsServed (push_server unmarshal answers now user_id sigs conns run v) v
    unfolding push_server
    push_server-IsServed run v = record {
      signatures = λ c i.
          each_keeps (push_connection unmarshal answers now user_id v.url)
            (IsSettled c.id item_signature (signature_upload user_id v.url c)) conns
            (λ r d _.
              push_connection-IsSettled c.id item_signature (signature_upload user_id v.url c) v.url
                r d)
            _
            (each_reaches (push_signature unmarshal answers now user_id v.url)
              (λ d. IsSettled d.id item_signature (signature_upload user_id v.url d)) sigs
              (push_signature-settles v.url)
              (λ r d q.
                push_signature-IsSettled q.id item_signature (signature_upload user_id v.url q)
                  v.url r d)
              run c i);
      connections = λ c i shared.
          each_reaches (push_connection unmarshal answers now user_id v.url)
            (λ d r.
              connection_should_be_pushed unmarshal d ≡ true
              → IsSettled d.id item_connection (connection_upload user_id v.url d) r)
            conns (push_connection-settles v.url)
            (λ r d q h y.
              push_connection-IsSettled q.id item_connection (connection_upload user_id v.url q)
                v.url r d (h y))
            _ c i (IsShared-connection_should_be_pushed unmarshal c shared);
    }

    pub all-IsServed :
        (servers : List Server) (run : Run) (v : Server)
        → In v servers
        → IsServed (each (push_server unmarshal answers now user_id sigs conns) run servers) v
    all-IsServed servers =
        each_reaches (push_server unmarshal answers now user_id sigs conns) (λ v r. IsServed r v)
          servers push_server-IsServed
          (λ r w v h. record {
            signatures = λ c i.
                push_server-IsSettled c.id item_signature (signature_upload user_id v.url c) sigs
                  conns r w (h.signatures c i);
            connections = λ c i shared.
                push_server-IsSettled c.id item_connection (connection_upload user_id v.url c) sigs
                  conns r w (h.connections c i shared);
          })
