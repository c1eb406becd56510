-- ===== src/Resolver/Spans/Merge.antt =====
-- resolver/query.go: merging changes neither the versions that a status covers nor the decisions.
use tillit.Base.{
  Bytes, true, false, ◌&&◌, List, [], ◌∷◌, In, here, there, In-cons, sort, In-sort_iff, IsSorted,
  more, sort-IsSorted, ◌≡◌, refl, ◌↔◌, ◌⊎◌, inl, inr, arith, Bool-cases,
}
use tillit.Base.Order.{at_most, at_most_trans, at_most-total}
use tillit.Resolver.Version.{compare_versions}
use tillit.Resolver.Version.Order.{compare_versions-IsOrder}
use tillit.Resolver.Verdict.{Status}
use tillit.Resolver.Spans.{
  VersionSpan, less_span, same_status, extend, merge_from, merge_sorted, merge_spans,
}

-- The version lies in the span.
abbrev pub Contains : VersionSpan → Bytes → Type 0
Contains s v =
    (at_most (compare_versions s.from v) ≡ true) × (at_most (compare_versions v s.to) ≡ true)

-- A span of this status holds the version.
abbrev pub IsCovered : Status → Bytes → List VersionSpan → Type 0
IsCovered st v spans = (s : VersionSpan) × In s spans × (s.status ≡ st) × Contains s v

-- Each span starts at or behind the one before it.
abbrev Ascends : VersionSpan → List VersionSpan → Type 0
Ascends last [] = Unit
Ascends last (s ∷ spans) = (at_most (compare_versions last.from s.from) ≡ true) × Ascends s spans

same_status_iff : (a b : Status) → same_status a b ≡ true → a ≡ b
same_status_iff a b h = ground arith

Ascends-weaken :
    (a b : VersionSpan) (spans : List VersionSpan)
    → at_most (compare_versions a.from b.from) ≡ true
    → Ascends b spans
    → Ascends a spans
Ascends-weaken a b [] h k = tt
Ascends-weaken a b (s ∷ spans) h k =
    (at_most_trans compare_versions-IsOrder a.from b.from s.from h k.0, k.1)

IsSorted-Ascends :
    (s : VersionSpan) (spans : List VersionSpan) → IsSorted less_span (s ∷ spans) → Ascends s spans
unfolding less_span
IsSorted-Ascends s [] k = tt
IsSorted-Ascends s (t ∷ spans) (more h k) =
    (ground (arith, compare_versions-IsOrder.flips s.from t.from), IsSorted-Ascends t spans k)

-- The extended span holds what either of the two holds.
extend-Contains :
    (last s : VersionSpan) (v : Bytes)
    → at_most (compare_versions last.from s.from) ≡ true
    → at_most (compare_versions s.from last.to) ≡ true
    → Contains (extend last s) v ↔ (Contains last v ⊎ Contains s v)
unfolding extend
extend-Contains last s v asc touch = (
  λ h. elim (Bool-cases (at_most (compare_versions v last.to))) [
    | inl low ↦ inl (h.0, low)
    | inr high ↦
        let above = at_most-total compare_versions-IsOrder v last.to high in
        inr (at_most_trans compare_versions-IsOrder s.from last.to v touch above, ground arith)
  ],
  λ h. elim h [
    | inl l ↦ (
      l.0,
      ground (
        arith,
        at_most_trans compare_versions-IsOrder v last.to s.to,
        at_most-total compare_versions-IsOrder s.to last.to,
      ),
    )
    | inr r ↦ (
      at_most_trans compare_versions-IsOrder last.from s.from v asc r.0,
      ground (arith, at_most_trans compare_versions-IsOrder v s.to last.to),
    )
  ],
)

module _ (st : Status) (v : Bytes) where
  abbrev Holds : VersionSpan → Type 0
  Holds s = (s.status ≡ st) × Contains s v

  IsCovered-cons :
      (s : VersionSpan) (spans : List VersionSpan)
      → IsCovered st v (s ∷ spans) ↔ (Holds s ⊎ IsCovered st v spans)
  IsCovered-cons s spans = (
    λ (t, m, same, c). elim (In-cons t s spans m) [
      | inl e ↦ inl (rw (← e) (same, c))
      | inr rest ↦ inr (t, rest, same, c)
    ],
    λ h. elim h [
      | inl (same, c) ↦ (s, here refl, same, c)
      | inr (t, m, same, c) ↦ (t, there m, same, c)
    ],
  )

  extend-Holds :
      (last s : VersionSpan)
      → last.status ≡ s.status
      → at_most (compare_versions last.from s.from) ≡ true
      → at_most (compare_versions s.from last.to) ≡ true
      → Holds (extend last s) ↔ (Holds last ⊎ Holds s)
  extend-Holds last s same asc touch =
      let (to, from) = extend-Contains last s v asc touch in
      let kept : (extend last s).status ≡ last.status = unfold extend in refl in
      (
        λ (e, c). elim (to c) [
          | inl l ↦ inl (cc (kept, e), l)
          | inr r ↦ inr (cc (kept, e, same), r)
        ],
        λ h. elim h [
          | inl (e, l) ↦ (cc (kept, e), from (inl l))
          | inr (e, r) ↦ (cc (kept, e, same), from (inr r))
        ],
      )

  extend-Ascends :
      (last s : VersionSpan) (spans : List VersionSpan)
      → at_most (compare_versions last.from s.from) ≡ true
      → Ascends s spans
      → Ascends (extend last s) spans
  unfolding extend
  extend-Ascends last s spans asc k = Ascends-weaken (extend last s) s spans asc k

  merge_from-IsCovered :
      (last : VersionSpan) (spans : List VersionSpan)
      → Ascends last spans
      → IsCovered st v (merge_from last spans) ↔ IsCovered st v (last ∷ spans)
  unfolding merge_from
  merge_from-IsCovered last [] k = (λ h. h, λ h. h)
  merge_from-IsCovered last (s ∷ spans) (asc, k) =
      elim (Bool-cases
        (same_status last.status s.status && at_most (compare_versions s.from last.to))) [
          | inl together ↦
              let same = same_status_iff last.status s.status (ground arith) in
              let touch : at_most (compare_versions s.from last.to) ≡ true = ground arith in
              let ih =
                merge_from-IsCovered (extend last s) spans (extend-Ascends last s spans asc k) in
              let joined = extend-Holds last s same asc touch in
              let out = IsCovered-cons (extend last s) spans in
              let outer = IsCovered-cons last (s ∷ spans) in
              let inner = IsCovered-cons s spans in
              rw (together, merge_from)
                (
                  λ h. elim (out.0 (ih.0 h)) [
                    | inl e ↦ elim (joined.0 e) [
                      | inl l ↦ outer.1 (inl l)
                      | inr r ↦ outer.1 (inr (inner.1 (inl r)))
                    ]
                    | inr rest ↦ outer.1 (inr (inner.1 (inr rest)))
                  ],
                  λ h. ih.1 (
                      out.1 (elim (outer.0 h) [
                        | inl l ↦ inl (joined.1 (inl l))
                        | inr later ↦ elim (inner.0 later) [
                          | inl r ↦ inl (joined.1 (inr r))
                          | inr rest ↦ inr rest
                        ]
                      ])),
                )
          | inr apart ↦
              let ih = merge_from-IsCovered s spans k in
              let out = IsCovered-cons last (merge_from s spans) in
              let outer = IsCovered-cons last (s ∷ spans) in
              rw (apart, merge_from)
                (
                  λ h. elim (out.0 h) [
                    | inl l ↦ outer.1 (inl l)
                    | inr rest ↦ outer.1 (inr (ih.0 rest))
                  ],
                  λ h. elim (outer.0 h) [
                    | inl l ↦ out.1 (inl l)
                    | inr rest ↦ out.1 (inr (ih.1 rest))
                  ],
                )
        ]

  sort-IsCovered :
      (spans : List VersionSpan) → IsCovered st v (sort less_span spans) ↔ IsCovered st v spans
  sort-IsCovered spans = (
    λ (s, m, e, c). (s, (In-sort_iff less_span s spans).0 m, e, c),
    λ (s, m, e, c). (s, (In-sort_iff less_span s spans).1 m, e, c),
  )

less_span-asym : (a b : VersionSpan) → less_span a b ≡ true → less_span b a ≡ false
unfolding less_span
less_span-asym a b h =
    ground (
      arith,
      compare_versions-IsOrder.flips a.from b.from,
      compare_versions-IsOrder.flips a.to b.to,
    )

merge_sorted-IsCovered :
    (st : Status) (v : Bytes) (spans : List VersionSpan)
    → IsSorted less_span spans
    → IsCovered st v (merge_sorted spans) ↔ IsCovered st v spans
unfolding merge_sorted
merge_sorted-IsCovered st v [] k = (λ h. h, λ h. h)
merge_sorted-IsCovered st v (s ∷ spans) k =
    merge_from-IsCovered st v s spans (IsSorted-Ascends s spans k)

-- Merging changes nothing that a status covers: a version lies in a merged span of some status
-- exactly if it lies in one of the raw spans of that status, for raw spans in any order, those that
-- end before they start included.
pub merge_spans-IsCovered :
    (st : Status) (v : Bytes) (spans : List VersionSpan)
    → IsCovered st v (merge_spans spans) ↔ IsCovered st v spans
unfolding merge_spans
merge_spans-IsCovered st v spans =
    let sorted = sort-IsCovered st v spans in
    let merged =
      merge_sorted-IsCovered st v (sort less_span spans)
        (sort-IsSorted less_span less_span-asym spans) in
    (λ h. sorted.0 (merged.0 h), λ h. merged.1 (sorted.1 h))
