-- ===== src/Commands/Publish/Due.antt =====
-- cmd/tillit/commands/sync.go, Publish: what is uploaded, and what stays as it was.
use tillit.Base.{
  Bytes, codes, ◌==◌, ==_iff, Option-cases, ℕ, Bool, true, false, some, List, [], ◌∷◌, In, In-cons,
  ◌≡◌, ◌≢◌, refl, ◌⊎◌, inl, inr, arith, Bool-cases, if◌then◌else◌,
}
use tillit.Base.Keyed.{each, each_keeps}
use tillit.Models.Payload.{Payload, Unmarshal, type_connection, type_connection_revocation}
use tillit.Localstore.{
  Store, Server, CachedSignature, CachedConnection, PushStateRow, ItemType, item_signature,
  item_connection, get_cached_signatures_by_signer, get_cached_connections_by_signer, is_pushed,
  record_push,
}
use tillit.Localstore.Settings.{list_servers}
use tillit.Localstore.Pushes.{record_push-keeps}
use tillit.Localstore.Rows.{
  get_cached_signatures_by_signer_iff, get_cached_connections_by_signer_iff, list_servers_iff,
  HasPush, is_pushed_iff,
}
use tillit.Commands.Snapshot.{KeyTools}
use tillit.Commands.Check.{active_user_id}
use tillit.Commands.Publish.{
  Upload, Answers, Run, signature_upload, connection_upload, connection_should_be_pushed, push,
  push_signature, push_connection, push_server, publish, should_be_pushed,
}

module _ (unmarshal : Unmarshal) where
  -- The connection's payload says that it is a revocation, or a connection that is public.
  pub record IsShared (c : CachedConnection) : Type 0 where
    pub payload : Payload
    pub says : unmarshal c.payload ≡ some payload
    pub shared :
        (payload.type ≡ codes "connection_revocation")
        ⊎ ((payload.type ≡ codes "connection") × (payload.public ≡ true))

  pub connection_should_be_pushed-IsShared :
      (c : CachedConnection) → connection_should_be_pushed unmarshal c ≡ true → IsShared c
  unfolding should_be_pushed
  connection_should_be_pushed-IsShared c h = elim (Option-cases (unmarshal c.payload)) [
    | inl e ↦ absurd (true_or_false _ h (rw (e) refl))
    | inr (p, e) ↦ record { payload = p; says = e; shared = of_payload p (rw (e) at h) }
  ]
    where
      true_or_false : (b : Bool) → b ≡ true → b ≢ false
      true_or_false b h e = absurd (ground arith)

      of_payload :
          (p : Payload)
          → should_be_pushed (some p) ≡ true
          → (p.type ≡ codes "connection_revocation")
            ⊎ ((p.type ≡ codes "connection") × (p.public ≡ true))
      of_payload p h = elim (Bool-cases (p.type == type_connection_revocation)) [
        | inl e ↦ inl ((==_iff p.type type_connection_revocation).0 e)
        | inr e ↦ elim (Bool-cases (p.type == type_connection)) [
          | inl f ↦ inr ((==_iff p.type type_connection).0 f, rw (e, f) at h)
          | inr f ↦ absurd (true_or_false _ h (rw (e, f) refl))
        ]
      ]

  pub IsShared-connection_should_be_pushed :
      (c : CachedConnection) → IsShared c → connection_should_be_pushed unmarshal c ≡ true
  unfolding should_be_pushed
  IsShared-connection_should_be_pushed c h =
      rw (h.says, should_be_pushed) (of_payload h.payload h.shared)
    where
      of_payload :
          (p : Payload)
          → (p.type ≡ codes "connection_revocation")
            ⊎ ((p.type ≡ codes "connection") × (p.public ≡ true))
          → should_be_pushed (some p) ≡ true
      of_payload p (inl e) =
          rw (should_be_pushed, (==_iff p.type type_connection_revocation).1 e) refl
      of_payload p (inr (e, f)) = elim (Bool-cases (p.type == type_connection_revocation)) [
        | inl t ↦ rw (should_be_pushed, t) refl
        | inr t ↦ rw (should_be_pushed, t, (==_iff p.type type_connection).1 e) f
      ]

module _ (unmarshal : Unmarshal) (s : Store) (user_id : Bytes) where
  -- The uploads that a store calls for: a signature of the user, or a connection of the user that is
  -- public or a revocation, to a registered server that it was not pushed to.
  pub data IsDue : Upload → Type 0 where
    due_signature :
        (c : CachedSignature) (v : Server)
        → In c s.signatures
        → c.signer ≡ user_id
        → In v s.servers
        → ¬ HasPush s c.id item_signature v.url
        → IsDue (signature_upload user_id v.url c)
    due_connection :
        (c : CachedConnection) (v : Server)
        → In c s.connections
        → c.signer ≡ user_id
        → In v s.servers
        → IsShared unmarshal c
        → ¬ HasPush s c.id item_connection v.url
        → IsDue (connection_upload user_id v.url c)

-- What a run does to its start: only the table of pushes changes, no push is forgotten, and what is
-- sent is due at the start.
pub record Grows (unmarshal : Unmarshal) (user_id : Bytes) (start run : Run) : Type 0 where
  pub rows : List PushStateRow
  pub store : run.store ≡ record start.store { push_state = rows }
  pub pushed :
      (id : Bytes) (type : ItemType) (url : Bytes)
      → is_pushed start.store id type url ≡ true
      → is_pushed run.store id type url ≡ true
  pub sent : (u : Upload) → In u run.sent → In u start.sent ⊎ IsDue unmarshal start.store user_id u

module _ (unmarshal : Unmarshal) (answers : Answers) (now : ℕ) (user_id : Bytes) (start : Run) where
  push-Grows :
      (type : ItemType) (id : Bytes) (u : Upload) (run : Run)
      → IsDue unmarshal start.store user_id u
      → Grows unmarshal user_id start run
      → Grows unmarshal user_id start (push unmarshal answers now user_id type id u run)
  unfolding push record_push
  push-Grows type id u run due g = elim (Bool-cases (answers run.sent u)) [
    | inl e ↦ rw (e) (record {
      rows = (record_push run.store id type u.server_url now).push_state;
      store = rw (g.store) refl;
      pushed = λ id' type' url' h.
          record_push-keeps run.store id type u.server_url now id' type' url'
            (g.pushed id' type' url' h);
      sent = sent;
    })
    | inr e ↦ rw (e) (record { rows = g.rows; store = g.store; pushed = g.pushed; sent = sent })
  ]
    where
      sent :
          (w : Upload)
          → In w (u ∷ run.sent)
          → In w start.sent ⊎ IsDue unmarshal start.store user_id w
      sent w i = elim (In-cons w u run.sent i) [
        | inl same ↦ inr (rw (same) due)
        | inr rest ↦ g.sent w rest
      ]

  -- A round that skips what is pushed.
  unpushed-Grows :
      (type : ItemType) (id : Bytes) (u : Upload) (url : Bytes) (run : Run)
      → (is_pushed start.store id type url ≢ true → IsDue unmarshal start.store user_id u)
      → Grows unmarshal user_id start run
      → Grows unmarshal user_id start (
          if is_pushed run.store id type url
          then run
          else push unmarshal answers now user_id type id u run)
  unpushed-Grows type id u url run due g = elim (Bool-cases (is_pushed run.store id type url)) [
    | inl e ↦ rw (e) g
    | inr e ↦
        rw (e) (push-Grows type id u run (due (λ h. true_or_false _ (g.pushed id type url h) e)) g)
  ]
    where
      true_or_false : (b : Bool) → b ≡ true → b ≢ false
      true_or_false b h e = absurd (ground arith)

  module _ (v : Server) (registered : In v (list_servers start.store)) where
    push_signature-Grows :
        (run : Run) (c : CachedSignature)
        → In c (get_cached_signatures_by_signer start.store user_id)
        → Grows unmarshal user_id start run
        → Grows unmarshal user_id start (push_signature unmarshal answers now user_id v.url run c)
    unfolding push_signature
    push_signature-Grows run c i g =
        unpushed-Grows item_signature c.id (signature_upload user_id v.url c) v.url run
          (λ unpushed.
            let (m, own) = (get_cached_signatures_by_signer_iff start.store user_id c).0 i in
            due_signature c v m own ((list_servers_iff start.store v).0 registered)
              (λ h. unpushed ((is_pushed_iff start.store c.id item_signature v.url).1 h)))
          g

    push_connection-Grows :
        (run : Run) (c : CachedConnection)
        → In c (get_cached_connections_by_signer start.store user_id)
        → Grows unmarshal user_id start run
        → Grows unmarshal user_id start (push_connection unmarshal answers now user_id v.url run c)
    unfolding push_connection
    push_connection-Grows run c i g = elim (Bool-cases (connection_should_be_pushed unmarshal c)) [
      | inl e ↦ rw (e) (
          unpushed-Grows item_connection c.id (connection_upload user_id v.url c) v.url run
            (λ unpushed.
              let (m, own) = (get_cached_connections_by_signer_iff start.store user_id c).0 i in
              due_connection c v m own ((list_servers_iff start.store v).0 registered)
                (connection_should_be_pushed-IsShared unmarshal c e)
                (λ h. unpushed ((is_pushed_iff start.store c.id item_connection v.url).1 h)))
            g)
      | inr e ↦ rw (e) g
    ]

    push_server-Grows :
        (run : Run)
        → Grows unmarshal user_id start run
        → Grows unmarshal user_id start (
            push_server unmarshal answers now user_id
              (get_cached_signatures_by_signer start.store user_id)
              (get_cached_connections_by_signer start.store user_id)
              run
              v)
    unfolding push_server
    push_server-Grows run g =
        each_keeps (push_connection unmarshal answers now user_id v.url)
          (Grows unmarshal user_id start) (get_cached_connections_by_signer start.store user_id)
          push_connection-Grows _
          (each_keeps (push_signature unmarshal answers now user_id v.url)
            (Grows unmarshal user_id start) (get_cached_signatures_by_signer start.store user_id)
            push_signature-Grows run g)

-- A run of publish of an active user with a registered server returns. Whatever the servers answer,
-- only the table of pushes changes, no recorded push is lost, and what is newly sent is due at the
-- start: a signature of the user, or a connection of the user that is public or a revocation, to a
-- registered server that it was not pushed to.
pub publish-Grows :
    (unmarshal : Unmarshal) (tools : KeyTools) (answers : Answers) (now : ℕ) (start : Run)
    (user_id : Bytes)
    → active_user_id tools start.store ≡ some user_id
    → list_servers start.store ≢ []
    → (run : Run) × (publish unmarshal tools answers now start ≡ some run)
      × Grows unmarshal user_id start run
unfolding publish
publish-Grows unmarshal tools answers now start user_id u registered =
    to_servers (list_servers start.store) refl
  where
    to_servers :
        (servers : List Server)
        → list_servers start.store ≡ servers
        → (run : Run) × (publish unmarshal tools answers now start ≡ some run)
          × Grows unmarshal user_id start run
    to_servers [] e = absurd (registered e)
    to_servers (v ∷ servers) e = (
      each
          (push_server unmarshal answers now user_id
            (get_cached_signatures_by_signer start.store user_id)
            (get_cached_connections_by_signer start.store user_id))
          start (v ∷ servers),
      rw (publish, u, e) refl,
      each_keeps
          (push_server unmarshal answers now user_id
            (get_cached_signatures_by_signer start.store user_id)
            (get_cached_connections_by_signer start.store user_id))
          (Grows unmarshal user_id start) (v ∷ servers)
          (λ run w i. push_server-Grows unmarshal answers now user_id start w (rw (e) i) run) start
          (record {
            rows = start.store.push_state;
            store = refl;
            pushed = λ id type url h. h;
            sent = λ w i. inl i;
          }),
    )
