-- ===== src/Localstore/Revocation/Active.antt =====
-- localstore/cache_connections.go: the active connection between two users.
use tillit.Base.{
  Bytes, ==_iff, ◌≤◌, true, false, ◌&&◌, Option, none, some, List, [], ◌∷◌, any, any_iff, In, here,
  there, In-cons, In-keep_iff, In-sort_iff, ◌≡◌, refl, sym, ◌≢◌, ◌↔◌, ◌⊎◌, inl, inr, arith,
  Bool-cases, if◌then◌else◌,
}
use tillit.Localstore.{CachedConnection, Store, get_cached_connections_by_signer}
use tillit.Localstore.Revocation.{
  Kind, revokes, is_connection, is_candidate, is_better, latest, get_active_connection,
}

module _ (read_kind : Bytes → Option Kind) where
  -- A connection of this signer to the other user, which no row of the signer revokes.
  pub record IsActive (s : Store) (signer other : Bytes) (c : CachedConnection) : Type 0 where
    pub cached : In c s.connections
    pub same_signer : c.signer ≡ signer
    pub same_other : c.other_id ≡ other
    pub says_connection : is_connection read_kind c ≡ true
    pub standing :
        (r : CachedConnection)
        → In r s.connections
        → r.signer ≡ signer
        → revokes read_kind c.id r ≢ true

  -- The answer is the latest one of the candidates and the row so far, if there are any.
  abbrev IsLatest :
      List CachedConnection
      → Bytes
      → Option CachedConnection
      → List CachedConnection
      → Option CachedConnection
      → Type 0
  IsLatest conns other best cs none =
      (best ≡ none)
      × ((c : CachedConnection) → In c cs → is_candidate read_kind conns other c ≡ false)
  IsLatest conns other best cs (some b) =
      ((best ≡ some b) ⊎ (In b cs × (is_candidate read_kind conns other b ≡ true)))
      × (((p : CachedConnection) → best ≡ some p → p.created_at ≤ b.created_at)
          × ((c : CachedConnection)
              → In c cs
              → is_candidate read_kind conns other c ≡ true
              → c.created_at ≤ b.created_at))

  -- The row so far after one more row.
  abbrev next_best :
      List CachedConnection
      → Bytes
      → Option CachedConnection
      → CachedConnection
      → Option CachedConnection
  next_best conns other best c =
      if is_candidate read_kind conns other c && is_better read_kind best c then some c else best

  module _ (conns : List CachedConnection) (other : Bytes) where
    replaced :
        (best : Option CachedConnection) (c : CachedConnection) (cs : List CachedConnection)
        (r : Option CachedConnection)
        → is_candidate read_kind conns other c ≡ true
        → is_better read_kind best c ≡ true
        → IsLatest conns other (some c) cs r
        → IsLatest conns other best (c ∷ cs) r
    replaced best c cs none k better h = absurd (ground (arith, h.0))
    replaced best c cs (some b) k better h = (
      elim h.0 [ inl e ↦ inr (here (ground arith), ground arith) | inr (m, v) ↦ inr (there m, v) ],
      (
        (λ p e. older p best better e (h.1.0 c refl)),
        (λ x m v. elim (In-cons x c cs m) [
          | inl same ↦ rw (same) (h.1.0 c refl)
          | inr rest ↦ h.1.1 x rest v
        ]),
      ),
    )
      where
        older :
            (p : CachedConnection) (o : Option CachedConnection)
            → is_better read_kind o c ≡ true
            → o ≡ some p
            → c.created_at ≤ b.created_at
            → p.created_at ≤ b.created_at
        older p none t e l = absurd (ground arith)
        older p (some q) t e l = ground arith

    passed :
        (best : Option CachedConnection) (c : CachedConnection) (cs : List CachedConnection)
        (r : Option CachedConnection)
        → (is_candidate read_kind conns other c && is_better read_kind best c) ≡ false
        → IsLatest conns other best cs r
        → IsLatest conns other best (c ∷ cs) r
    passed best c cs none k h = (
      h.0,
      λ x m. elim (In-cons x c cs m) [
        | inl same ↦ rw (same) (ground (arith, h.0))
        | inr rest ↦ h.1 x rest
      ],
    )
    passed best c cs (some b) k h = (
      elim h.0 [ inl e ↦ inl e | inr (m, v) ↦ inr (there m, v) ],
      (
        h.1.0,
        (λ x m v. elim (In-cons x c cs m) [
          | inl same ↦ newer best x k (rw (sym same) v) (rw (same) refl) h.1.0
          | inr rest ↦ h.1.1 x rest v
        ]),
      ),
    )
      where
        newer :
            (o : Option CachedConnection) (x : CachedConnection)
            → (is_candidate read_kind conns other c && is_better read_kind o c) ≡ false
            → is_candidate read_kind conns other c ≡ true
            → x.created_at ≡ c.created_at
            → ((p : CachedConnection) → o ≡ some p → p.created_at ≤ b.created_at)
            → x.created_at ≤ b.created_at
        newer none x t v e l = absurd (ground arith)
        newer (some q) x t v e l = ground (arith, l q refl)

    latest-IsLatest :
        (best : Option CachedConnection) (cs : List CachedConnection)
        → IsLatest conns other best cs (latest read_kind conns other best cs)
    unfolding latest
    latest-IsLatest none [] = (refl, λ c m. elim m [ ])
    latest-IsLatest (some b) [] = (inl refl, ((λ p e. ground arith), (λ c m h. elim m [ ])))
    latest-IsLatest best (c ∷ cs) =
        elim (Bool-cases (is_candidate read_kind conns other c && is_better read_kind best c)) [
          | inl e ↦
              rw (latest, e)
                (replaced best c cs _ (ground arith) (ground arith) (latest-IsLatest (some c) cs))
          | inr e ↦ rw (latest, e) (passed best c cs _ e (latest-IsLatest best cs))
        ]

  module _ (s : Store) (signer other : Bytes) where
    conns_iff :
        (c : CachedConnection)
        → In c (get_cached_connections_by_signer s signer)
          ↔ (In c s.connections × (c.signer ≡ signer))
    unfolding get_cached_connections_by_signer
    conns_iff c = (
      λ m.
          let (n, e) = (In-keep_iff _ c s.connections).0 ((In-sort_iff _ c _).0 m) in
          (n, (==_iff c.signer signer).0 e),
      λ h.
          (In-sort_iff _ c _).1
            ((In-keep_iff _ c s.connections).1 (h.0, (==_iff c.signer signer).1 h.1)),
    )

    candidate-IsActive :
        (c : CachedConnection)
        → In c (get_cached_connections_by_signer s signer)
        → is_candidate read_kind (get_cached_connections_by_signer s signer) other c ≡ true
        → IsActive s signer other c
    unfolding is_candidate
    candidate-IsActive c m h = record {
      cached = ((conns_iff c).0 m).0;
      same_signer = ((conns_iff c).0 m).1;
      same_other = ground (arith, ==_iff c.other_id other);
      says_connection = ground arith;
      standing = λ r n e v. absurd (
          ground (
            arith,
            (any_iff (revokes read_kind c.id) (get_cached_connections_by_signer s signer)).1
                (r, (conns_iff r).1 (n, e), v),
          ));
    }

    IsActive-candidate :
        (c : CachedConnection)
        → IsActive s signer other c
        → is_candidate read_kind (get_cached_connections_by_signer s signer) other c ≡ true
    unfolding is_candidate
    IsActive-candidate c a =
        elim (Bool-cases
          (any (revokes read_kind c.id) (get_cached_connections_by_signer s signer))) [
            | inl e ↦
                let (r, m, v) =
                  (any_iff (revokes read_kind c.id) (get_cached_connections_by_signer s signer)).0
                    e in
                absurd (a.standing r ((conns_iff r).0 m).0 ((conns_iff r).0 m).1 v)
            | inr e ↦ ground (arith, a.same_other, a.says_connection, ==_iff c.other_id other)
          ]

    -- The answer is an active connection of the signer to the other user, and no active one is later;
    -- if there is no answer, there is no active one.
    pub get_active_connection-latest :
        ((c : CachedConnection)
          → get_active_connection read_kind s signer other ≡ some c
          → IsActive s signer other c
            × ((x : CachedConnection) → IsActive s signer other x → x.created_at ≤ c.created_at))
        × (get_active_connection read_kind s signer other ≡ none
            → (x : CachedConnection) → ¬ IsActive s signer other x)
    unfolding get_active_connection
    get_active_connection-latest =
        (λ c h. found c (rw (h) at latest_of), λ h x a. absurd (nothing (rw (h) at latest_of) x a))
      where
        found :
            (c : CachedConnection)
            → IsLatest
                (get_cached_connections_by_signer s signer)
                other
                none
                (get_cached_connections_by_signer s signer)
                (some c)
            → IsActive s signer other c
              × ((x : CachedConnection) → IsActive s signer other x → x.created_at ≤ c.created_at)
        found c (inl e, l) = absurd (ground (arith, e))
        found c (inr (m, v), l) = (
          candidate-IsActive c m v,
          λ x a. l.1 x ((conns_iff x).1 (a.cached, a.same_signer)) (IsActive-candidate x a),
        )

        nothing :
            IsLatest
              (get_cached_connections_by_signer s signer)
              other
              none
              (get_cached_connections_by_signer s signer)
              none
            → (x : CachedConnection) → ¬ IsActive s signer other x
        nothing l x a = absurd (
            ground
              (arith, l.1 x ((conns_iff x).1 (a.cached, a.same_signer)), IsActive-candidate x a))

        latest_of :
            IsLatest
              (get_cached_connections_by_signer s signer)
              other
              none
              (get_cached_connections_by_signer s signer)
              (get_active_connection read_kind s signer other)
        latest_of = latest-IsLatest _ other none _
