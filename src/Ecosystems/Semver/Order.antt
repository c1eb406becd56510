-- ===== src/Ecosystems/Semver/Order.antt =====
-- ecosystems/internal/semver/semver.go: Compare orders all texts, and ignores build metadata.
use tillit.Base.{
  Bytes, ℕ, nat_eq, compare_bytes, cut, true, false, Option, none, some, List, [], ◌∷◌, ◌++◌, any,
  ◌≡◌, refl, sym, ◌∙◌, inl, inr, arith, Bool-cases,
}
use tillit.Base.Order.{
  IsOrder, compare_ℤ-IsOrder, compare_bytes-IsOrder, image-IsOrder, tie_break-IsOrder,
  shorter_first-IsOrder,
}
use tillit.Base.Release.{empty_last-IsOrder, failing_first, failing_first-IsOrder}
use tillit.Resolver.Version.Order.{by_number-IsOrder}
use tillit.Ecosystems.Semver.{
  Version, ident_number, compare_idents, cmp_pre_release, compare_parsed, optional_idents,
  parse_core, parse_cut, parse, is_valid, compare,
}

compare_idents-IsOrder : IsOrder compare_idents
unfolding compare_idents
compare_idents-IsOrder = by_number-IsOrder ident_number

cmp_pre_release-IsOrder : IsOrder cmp_pre_release
unfolding cmp_pre_release
cmp_pre_release-IsOrder = shorter_first-IsOrder compare_idents-IsOrder

compare_parsed-IsOrder : IsOrder compare_parsed
unfolding compare_parsed
compare_parsed-IsOrder =
    tie_break-IsOrder (image-IsOrder (λ (v : Version). v.major) compare_ℤ-IsOrder) (
      tie_break-IsOrder (image-IsOrder (λ (v : Version). v.minor) compare_ℤ-IsOrder) (
        tie_break-IsOrder (image-IsOrder (λ (v : Version). v.patch) compare_ℤ-IsOrder)
          (image-IsOrder (λ (v : Version). v.pre) (empty_last-IsOrder cmp_pre_release-IsOrder))))

-- Compare is a total preorder on all texts, those that do not parse included: it is reflexive,
-- exchanging the arguments exchanges -1 and 1, texts that tie compare alike to any third, and "less
-- than" is transitive.
pub compare-IsOrder : IsOrder compare
unfolding compare
compare-IsOrder = failing_first-IsOrder parse compare_parsed-IsOrder compare_bytes-IsOrder

cut_behind :
    (v b : Bytes) → any (λ c. nat_eq c b'+') v ≡ false → cut b'+' (v ++ b'+' ∷ b) ≡ some (v, b)
unfolding cut any
cut_behind [] b h = refl
cut_behind (c ∷ v) b h = elim (Bool-cases (nat_eq c b'+')) [
  | inl e ↦ absurd (ground arith)
  | inr e ↦ rw (cut, e, cut_behind v b (ground arith)) refl
]

cut-none : (v : Bytes) → any (λ c. nat_eq c b'+') v ≡ false → cut b'+' v ≡ none
unfolding cut any
cut-none [] h = refl
cut-none (c ∷ v) h = elim (Bool-cases (nat_eq c b'+')) [
  | inl e ↦ absurd (ground arith)
  | inr e ↦ rw (cut, e, cut-none v (ground arith)) refl
]

parse_core-build :
    (s : Bytes) (build : List Bytes) (p : Version)
    → parse_core [] s ≡ some p
    → parse_core build s ≡ some (record p { build = build })
unfolding parse_core
parse_core-build s build p h = ground arith

parse-cut :
    (c : ℕ) (s : Bytes) (parts : Option (Bytes × Bytes))
    → cut b'+' (c ∷ s) ≡ parts
    → parse (c ∷ s) ≡ parse_cut (c ∷ s) parts
unfolding parse
parse-cut c s parts e = rw (← e) refl

parse_cut-none : (s : Bytes) → parse_cut s none ≡ parse_core [] s
unfolding parse_cut optional_idents
parse_cut-none s = refl

parse_cut-some :
    (s v b : Bytes) (ids : List Bytes)
    → optional_idents (some b) ≡ some ids
    → parse_cut s (some (v, b)) ≡ parse_core ids v
unfolding parse_cut
parse_cut-some s v b ids i = rw (parse_cut, i) refl

parse-build :
    (v b : Bytes) (ids : List Bytes) (p : Version)
    → parse v ≡ some p
    → any (λ c. nat_eq c b'+') v ≡ false
    → optional_idents (some b) ≡ some ids
    → parse (v ++ b'+' ∷ b) ≡ some (record p { build = ids })
unfolding parse
parse-build [] b ids p h n i = absurd (ground arith)
parse-build (c ∷ v) b ids p h n i =
    parse-cut c (v ++ b'+' ∷ b) (some (c ∷ v, b)) (cut_behind (c ∷ v) b n)
    ∙ (parse_cut-some (c ∷ v ++ b'+' ∷ b) (c ∷ v) b ids i
        ∙ parse_core-build (c ∷ v) ids p
            (sym (parse-cut c v none (cut-none (c ∷ v) n) ∙ parse_cut-none (c ∷ v)) ∙ h))

-- Build metadata is ignored: a valid version with well-formed metadata behind it is valid, and
-- compares to every text as the version without it.
pub compare-build :
    (v b : Bytes) (ids : List Bytes) (p : Version)
    → parse v ≡ some p
    → any (λ c. nat_eq c b'+') v ≡ false
    → optional_idents (some b) ≡ some ids
    → (is_valid (v ++ b'+' ∷ b) ≡ true) × ((w : Bytes) → compare (v ++ b'+' ∷ b) w ≡ compare v w)
unfolding compare compare_parsed
compare-build v b ids p h n i = (
  rw (is_valid, parse-build v b ids p h n i) refl,
  λ w. rw (compare, parse-build v b ids p h n i, h) (same (parse w) w),
)
  where
    same :
        (o : Option Version) (w : Bytes)
        → failing_first compare_parsed
            (some (record p { build = ids }))
            o
            (compare_bytes (v ++ b'+' ∷ b) w)
          ≡ failing_first compare_parsed (some p) o (compare_bytes v w)
    same none w = refl
    same (some q) w = refl
