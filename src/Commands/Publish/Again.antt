-- ===== src/Commands/Publish/Again.antt =====
-- cmd/tillit/commands/sync.go, Publish: what a run achieves, and what another run is left to send.
use tillit.Base.{
  Bytes, ℕ, true, false, some, List, [], ◌∷◌, In, ◌≡◌, ◌≢◌, ◌⊎◌, refl, sym, ◌∙◌, inl, inr, arith,
}
use tillit.Base.Keyed.{each, each_keeps}
use tillit.Models.Payload.{Unmarshal}
use tillit.Localstore.{
  is_pushed, Store, Server, CachedSignature, CachedConnection, ItemType, item_signature,
  item_connection, get_cached_signatures_by_signer, get_cached_connections_by_signer,
}
use tillit.Localstore.Settings.{list_servers, get_active_key, get_key}
use tillit.Localstore.Rows.{
  get_cached_signatures_by_signer_iff, get_cached_connections_by_signer_iff, list_servers_iff,
  HasPush, is_pushed_iff,
}
use tillit.Commands.Snapshot.{KeyTools}
use tillit.Commands.Check.{active_user_id}
use tillit.Commands.Publish.{
  Upload, Answers, Run, signature_upload, connection_upload, push_server, publish,
}
use tillit.Commands.Publish.Due.{
  IsShared, IsDue, due_signature, due_connection, Grows, publish-Grows,
}
use tillit.Commands.Publish.Settled.{IsAnswered, IsServed, all-IsServed}
use tillit.Commands.Publish.Recorded.{IsUploaded, IsEarned, push_server-IsEarned}

-- The start of a run.
abbrev pub starting : Store → Run
starting s = record { store = s; sent = [] }

-- What a run of publish achieves, by the answers of the servers: what every server is to get is
-- recorded as pushed or was refused, and what is recorded newly was accepted.
pub record Achieves (answers : Answers) (unmarshal : Unmarshal) (user_id : Bytes) (s : Store)
    (run : Run) : Type 0 where
  pub signatures :
      (v : Server) (c : CachedSignature)
      → In v s.servers
      → In c s.signatures
      → c.signer ≡ user_id
      → HasPush run.store c.id item_signature v.url
        ⊎ IsAnswered answers false (signature_upload user_id v.url c) run.sent
  pub connections :
      (v : Server) (c : CachedConnection)
      → In v s.servers
      → In c s.connections
      → c.signer ≡ user_id
      → IsShared unmarshal c
      → HasPush run.store c.id item_connection v.url
        ⊎ IsAnswered answers false (connection_upload user_id v.url c) run.sent
  pub earned :
      (id : Bytes) (type : ItemType) (url : Bytes)
      → HasPush run.store id type url
      → HasPush s id type url ⊎ IsUploaded answers user_id s id type url run.sent

publish-Achieves :
    (unmarshal : Unmarshal) (tools : KeyTools) (answers : Answers) (now : ℕ) (s : Store)
    (user_id : Bytes) (run : Run)
    → active_user_id tools s ≡ some user_id
    → publish unmarshal tools answers now (starting s) ≡ some run
    → Achieves answers unmarshal user_id s run
unfolding publish
publish-Achieves unmarshal tools answers now s user_id run u e = to_servers (list_servers s) refl
  where
    earned_by :
        (id : Bytes) (type : ItemType) (url : Bytes)
        → (is_pushed s id type url ≡ true) ⊎ IsUploaded answers user_id s id type url run.sent
        → HasPush s id type url ⊎ IsUploaded answers user_id s id type url run.sent
    earned_by id type url (inl h) = inl ((is_pushed_iff s id type url).0 h)
    earned_by id type url (inr h) = inr h

    recorded :
        (id : Bytes) (type : ItemType) (w : Upload)
        → (is_pushed run.store id type w.server_url ≡ true) ⊎ IsAnswered answers false w run.sent
        → HasPush run.store id type w.server_url ⊎ IsAnswered answers false w run.sent
    recorded id type w (inl h) = inl ((is_pushed_iff run.store id type w.server_url).0 h)
    recorded id type w (inr h) = inr h

    to_servers :
        (servers : List Server)
        → list_servers s ≡ servers
        → Achieves answers unmarshal user_id s run
    to_servers [] l = absurd (ground arith)
    to_servers (v ∷ servers) l =
        let sigs = get_cached_signatures_by_signer s user_id in
        let conns = get_cached_connections_by_signer s user_id in
        let ran : some run
            ≡ some (
                each (push_server unmarshal answers now user_id sigs conns) (starting s)
                  (v ∷ servers)) =
          sym e ∙ rw (publish, u, l) refl in
        let same : run
            ≡ each (push_server unmarshal answers now user_id sigs conns) (starting s)
                (v ∷ servers) =
          cc in
        let served : (w : Server)
            → In w s.servers
            → IsServed unmarshal answers now user_id sigs conns run w =
          λ w i. rw (same) (
            all-IsServed unmarshal answers now user_id sigs conns (v ∷ servers) (starting s) w
              (rw (l) at (list_servers_iff s w).1 i)) in
        let earned_run : IsEarned answers user_id s run = rw (same) (
          each_keeps (push_server unmarshal answers now user_id sigs conns)
            (IsEarned answers user_id s) (v ∷ servers)
            (λ r w _. push_server-IsEarned answers user_id s unmarshal now r w) (starting s)
            (λ id type url h. inl h)) in
        record {
          signatures = λ w c i m own.
              recorded c.id item_signature (signature_upload user_id w.url c) (
                (served w i).signatures c
                  ((get_cached_signatures_by_signer_iff s user_id c).1 (m, own)));
          connections = λ w c i m own shared.
              recorded c.id item_connection (connection_upload user_id w.url c) (
                (served w i).connections c
                  ((get_cached_connections_by_signer_iff s user_id c).1 (m, own)) shared);
          earned = λ id type url h.
              earned_by id type url
                (earned_run id type url ((is_pushed_iff run.store id type url).1 h));
        }

-- What a run leaves alone.
active_user_id_grown :
    (unmarshal : Unmarshal) (tools : KeyTools) (user_id : Bytes) (start run : Run)
    → Grows unmarshal user_id start run
    → active_user_id tools run.store ≡ active_user_id tools start.store
unfolding active_user_id get_active_key get_key
active_user_id_grown unmarshal tools user_id start run g = rw (g.store) refl

list_servers_grown :
    (unmarshal : Unmarshal) (user_id : Bytes) (start run : Run)
    → Grows unmarshal user_id start run
    → list_servers run.store ≡ list_servers start.store
unfolding list_servers
list_servers_grown unmarshal user_id start run g = rw (g.store) refl

-- What is due after a run was refused in it.
IsDue-refused :
    (unmarshal : Unmarshal) (answers : Answers) (user_id : Bytes) (s : Store) (run : Run)
    (w : Upload)
    → Grows unmarshal user_id (starting s) run
    → Achieves answers unmarshal user_id s run
    → IsDue unmarshal run.store user_id w
    → IsAnswered answers false w run.sent
IsDue-refused unmarshal answers user_id s run w g a (due_signature c v i own known unpushed) =
    elim (a.signatures v c (rw (g.store) at known) (rw (g.store) at i) own) [
      | inl pushed ↦ absurd (unpushed pushed)
      | inr refused ↦ refused
    ]
IsDue-refused unmarshal answers user_id s run w g a
      (due_connection c v i own known shared unpushed) =
    elim (a.connections v c (rw (g.store) at known) (rw (g.store) at i) own shared) [
      | inl pushed ↦ absurd (unpushed pushed)
      | inr refused ↦ refused
    ]

-- A run of publish of an active user with a registered server returns, whatever the servers answer.
-- Afterwards every signature of the user, and every connection of the user that is public or a
-- revocation, is recorded as pushed to every registered server, or its upload to it was refused in the
-- run; and nothing else is recorded than what was before and what was accepted in the run. Another run
-- behind it, at any time and whatever the servers answer then, returns, and all that it sends was
-- refused in the first.
pub publish_again :
    (unmarshal : Unmarshal) (tools : KeyTools) (answers : Answers) (now : ℕ) (s : Store)
    (user_id : Bytes)
    → active_user_id tools s ≡ some user_id
    → list_servers s ≢ []
    → (run : Run) × (publish unmarshal tools answers now (starting s) ≡ some run)
      × Achieves answers unmarshal user_id s run
      × ((answers' : Answers) (later : ℕ)
          → (next : Run) × (publish unmarshal tools answers' later (starting run.store) ≡ some next)
            × ((w : Upload) → In w next.sent → IsAnswered answers false w run.sent))
publish_again unmarshal tools answers now s user_id u registered =
    let (run, e, g) = publish-Grows unmarshal tools answers now (starting s) user_id u registered in
    let a = publish-Achieves unmarshal tools answers now s user_id run u e in
    let lists = list_servers_grown unmarshal user_id (starting s) run g in
    (
      run,
      e,
      a,
      λ answers' later.
          let (next, e', g') =
            publish-Grows unmarshal tools answers' later (starting run.store) user_id
              (active_user_id_grown unmarshal tools user_id (starting s) run g ∙ u)
              (λ h. registered (sym lists ∙ h)) in
          (
            next,
            e',
            λ w i. elim (g'.sent w i) [
              | inl old ↦ elim old [ ]
              | inr due ↦ IsDue-refused unmarshal answers user_id s run w g a due
            ],
          ),
    )
