-- ===== src/Localstore/Pushes.antt =====
-- localstore/push_state.go: what is recorded as pushed stays so.
use tillit.Base.{
  Bytes, ==_iff, ==_refl, ℕ, Bool, true, false, ◌||◌, List, [], ◌∷◌, any, ◌≡◌, refl, arith,
  Bool-cases, inl, inr, first, ◌⊎◌, some, if◌then◌else◌, sym, ◌∙◌, ◌≢◌,
}
use tillit.Localstore.{
  Store, ItemType, PushStateRow, same_item, is_row, put_push, record_push, is_pushed, to_seconds,
}

same_item_refl : (t : ItemType) → same_item t t ≡ true
same_item_refl t = ==_refl t

is_row_refl : (r : PushStateRow) → is_row r.item_id r.item_type r.server_url r ≡ true
is_row_refl r = rw (==_refl r.item_id, same_item_refl r.item_type, ==_refl r.server_url) refl

-- Rows of one key answer alike.
is_row_same :
    (r q : PushStateRow) (id : Bytes) (type : ItemType) (url : Bytes)
    → is_row r.item_id r.item_type r.server_url q ≡ true
    → is_row id type url q ≡ is_row id type url r
is_row_same r q id type url h =
    rw
      (
        (==_iff q.item_id r.item_id).0 (ground arith),
        (==_iff q.item_type r.item_type).0 (ground arith),
        (==_iff q.server_url r.server_url).0 (ground arith),
      )
      refl

any-put_push :
    (r : PushStateRow) (id : Bytes) (type : ItemType) (url : Bytes) (rows : List PushStateRow)
    → any (is_row id type url) (put_push r rows)
      ≡ (is_row id type url r || any (is_row id type url) rows)
unfolding any
any-put_push r id type url [] = refl
any-put_push r id type url (q ∷ rows) =
    elim (Bool-cases (is_row r.item_id r.item_type r.server_url q)) [
      | inl e ↦ rw (e, any, is_row_same r q id type url e) (twice (is_row id type url r) _)
      | inr e ↦
          rw (e, any, any-put_push r id type url rows)
            (exchange (is_row id type url q) (is_row id type url r) _)
    ]
  where
    twice : (a b : Bool) → (a || b) ≡ (a || (a || b))
    twice true b = refl
    twice false b = refl

    exchange : (a b c : Bool) → (a || (b || c)) ≡ (b || (a || c))
    exchange true true c = refl
    exchange true false c = refl
    exchange false b c = refl

pub record_push-is_pushed :
    (s : Store) (id : Bytes) (type : ItemType) (url : Bytes) (t : ℕ)
    → is_pushed (record_push s id type url t) id type url ≡ true
unfolding is_pushed record_push
record_push-is_pushed s id type url t =
    let r : PushStateRow = record {
      item_id = id;
      item_type = type;
      server_url = url;
      pushed_at = to_seconds t;
    } in
    rw (any-put_push r id type url s.push_state, is_row_refl r) refl

pub record_push-keeps :
    (s : Store) (id : Bytes) (type : ItemType) (url : Bytes) (t : ℕ) (id' : Bytes)
    (type' : ItemType) (url' : Bytes)
    → is_pushed s id' type' url' ≡ true
    → is_pushed (record_push s id type url t) id' type' url' ≡ true
unfolding is_pushed record_push
record_push-keeps s id type url t id' type' url' h =
    let r : PushStateRow = record {
      item_id = id;
      item_type = type;
      server_url = url;
      pushed_at = to_seconds t;
    } in
    rw (any-put_push r id' type' url' s.push_state, h) (or_true (is_row id' type' url' r))
  where
    or_true : (a : Bool) → (a || true) ≡ true
    or_true true = refl
    or_true false = refl

-- What is found of a key after a row was put: that row, if it is of the key, else what was there.
pub first-put_push :
    (r : PushStateRow) (id : Bytes) (type : ItemType) (url : Bytes) (rows : List PushStateRow)
    → first (is_row id type url) (put_push r rows)
      ≡ (if is_row id type url r then some r else first (is_row id type url) rows)
unfolding first
first-put_push r id type url [] = refl
first-put_push r id type url (q ∷ rows) =
    elim (Bool-cases (is_row r.item_id r.item_type r.server_url q)) [
      | inl e ↦ elim (Bool-cases (is_row id type url r)) [
        | inl t ↦ rw (e, first, t) refl
        | inr t ↦ rw (e, first, is_row_same r q id type url e, t) refl
      ]
      | inr e ↦ elim (Bool-cases (is_row id type url q)) [
        | inl t ↦ elim (Bool-cases (is_row id type url r)) [
          | inl v ↦ absurd (true_or_false _ (clash t v) e)
          | inr v ↦ rw (e, first, t, v) refl
        ]
        | inr t ↦ rw (e, first, t, first-put_push r id type url rows) refl
      ]
    ]
  where
    true_or_false : (b : Bool) → b ≡ true → b ≢ false
    true_or_false b h e = absurd (ground arith)

    clash :
        is_row id type url q ≡ true
        → is_row id type url r ≡ true
        → is_row r.item_id r.item_type r.server_url q ≡ true
    clash t v =
        rw
          (
            (==_iff r.item_id id).0 (ground arith),
            (==_iff r.item_type type).0 (ground arith),
            (==_iff r.server_url url).0 (ground arith),
          )
          t

-- What is pushed after a record was pushed before, or is what was recorded.
pub record_push-cases :
    (s : Store) (id : Bytes) (type : ItemType) (url : Bytes) (t : ℕ) (id' : Bytes)
    (type' : ItemType) (url' : Bytes)
    → is_pushed (record_push s id type url t) id' type' url' ≡ true
    → ((id ≡ id') × (type ≡ type') × (url ≡ url')) ⊎ (is_pushed s id' type' url' ≡ true)
unfolding is_pushed record_push
record_push-cases s id type url t id' type' url' h =
    let r : PushStateRow = record {
      item_id = id;
      item_type = type;
      server_url = url;
      pushed_at = to_seconds t;
    } in
    cases r (is_row id' type' url' r) refl (sym (any-put_push r id' type' url' s.push_state) ∙ h)
  where
    cases :
        (r : PushStateRow) (b : Bool)
        → is_row id' type' url' r ≡ b
        → (b || any (is_row id' type' url') s.push_state) ≡ true
        → ((r.item_id ≡ id') × (r.item_type ≡ type') × (r.server_url ≡ url'))
          ⊎ (any (is_row id' type' url') s.push_state ≡ true)
    cases r true e h = inl (
      (==_iff r.item_id id').0 (ground arith),
      (==_iff r.item_type type').0 (ground arith),
      (==_iff r.server_url url').0 (ground arith),
    )
    cases r false e h = inr h
