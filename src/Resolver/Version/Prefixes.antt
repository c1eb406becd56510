-- ===== src/Resolver/Version/Prefixes.antt =====
-- resolver/version.go: where one version goes on behind the other.
use Prim.Native.Nat.{Ordering}
use tillit.Base.{
  ℕ, Bytes, codes, ℤ, trim_prefix, drop_prefix, cut, split, extend_first, atoi, nat_eq, nat_eq_iff,
  none, some, List, [], ◌∷◌, ◌++◌, All, ◌≡◌, ◌≢◌, refl, ap, ◌∙◌, arith, Bool-cases, inl, inr,
}
use tillit.Base.Order.{padded}
use tillit.Resolver.Version.{
  compare_segments, compare_numeric_dotted, split_pre_release, compare_versions,
}
use tillit.Resolver.Version.Order.{compare_segments-IsOrder, compare_versions-eq-tie_break}

abbrev pub Lacks : ℕ → Bytes → Type 0
Lacks b = All (λ c. c ≢ b)

cut-Lacks : (b : ℕ) (s : Bytes) → Lacks b s → cut b s ≡ none
unfolding cut
cut-Lacks b [] l = refl
cut-Lacks b (c ∷ s) l = ground (arith, nat_eq_iff c b, cut-Lacks b s l.1)

Lacks-append : (b : ℕ) (s t : Bytes) → Lacks b s → Lacks b t → Lacks b (s ++ t)
Lacks-append b [] t l m = m
Lacks-append b (c ∷ s) t l m = (l.0, Lacks-append b s t l.1 m)

split-Lacks : (b : ℕ) (s : Bytes) → Lacks b s → split b s ≡ s ∷ []
unfolding split
split-Lacks b [] l = refl
split-Lacks b (c ∷ s) l = ground (arith, nat_eq_iff c b, split-Lacks b s l.1)

extend_first-append :
    (c : ℕ) (p : Bytes) (ps qs : List Bytes)
    → extend_first c ((p ∷ ps) ++ qs) ≡ extend_first c (p ∷ ps) ++ qs
extend_first-append c p ps qs = refl

-- A split is never empty.
split-cons : (b : ℕ) (s : Bytes) → (p : Bytes) × (ps : List Bytes) × (split b s ≡ p ∷ ps)
unfolding split
split-cons b [] = ([], [], refl)
split-cons b (c ∷ s) = elim (Bool-cases (nat_eq c b)) [
  | inl e ↦ ([], split b s, rw (e, split))
  | inr e ↦ let (p, ps, h) = split-cons b s in (c ∷ p, ps, rw (e, split, h))
]

split-append : (b : ℕ) (s t : Bytes) → split b (s ++ b ∷ t) ≡ split b s ++ split b t
unfolding split
split-append b [] t = ground (arith, nat_eq_iff b b)
split-append b (c ∷ s) t = elim (Bool-cases (nat_eq c b)) [
  | inl e ↦ rw (e, split, split-append b s t)
  | inr e ↦ let (p, ps, h) = split-cons b s in rw (e, split, split-append b s t, h)
]

-- Equal segments in front decide nothing.
padded-append :
    (s t : List Bytes) → padded compare_segments [] (s ++ t) s ≡ padded compare_segments [] t []
unfolding padded
padded-append [] t = refl
padded-append (a ∷ s) t = ground (arith, compare_segments-IsOrder.reflexive a, padded-append s t)

-- A number compares as lower than the empty text that pads the shorter version.
number-lt-padding : (d : Bytes) (n : ℤ) → atoi d ≡ some n → compare_segments d [] ≡ Ordering.lt
unfolding compare_segments atoi
number-lt-padding d n h = ground arith

number-padded-lt :
    (d : Bytes) (n : ℤ) → atoi d ≡ some n → padded compare_segments [] (d ∷ []) [] ≡ Ordering.lt
unfolding padded
number-padded-lt d n h = ground (arith, number-lt-padding d n h)

trim-append :
    (v d : Bytes) → trim_prefix (codes "v") (v ++ b'.' ∷ d) ≡ trim_prefix (codes "v") v ++ b'.' ∷ d
unfolding trim_prefix drop_prefix
trim-append [] d = refl
trim-append (c ∷ w) d = ground arith

trim-Lacks : (b : ℕ) (v : Bytes) → Lacks b v → Lacks b (trim_prefix (codes "v") v)
unfolding trim_prefix drop_prefix
trim-Lacks b [] l = l
trim-Lacks b (c ∷ w) l = elim (Bool-cases (nat_eq b'v' c)) [
  | inl e ↦ rw (e, trim_prefix, drop_prefix) l.1
  | inr e ↦ rw (e, trim_prefix, drop_prefix) l
]

split_pre_release-Lacks :
    (v : Bytes) → Lacks b'-' v → split_pre_release v ≡ (trim_prefix (codes "v") v, [])
unfolding split_pre_release
split_pre_release-Lacks v l = rw (cut-Lacks b'-' (trim_prefix (codes "v") v) (trim-Lacks b'-' v l))

-- A release with one more numeric segment than another compares as lower, not as higher, than it:
-- 1.0.1 comes before 1.0.
pub longer-lt :
    (v d : Bytes) (n : ℤ)
    → Lacks b'-' v
    → Lacks b'-' d
    → Lacks b'.' d
    → atoi d ≡ some n
    → compare_versions (v ++ b'.' ∷ d) v ≡ Ordering.lt
unfolding compare_numeric_dotted
longer-lt v d n lv ld dots h =
    let t : Bytes = trim_prefix (codes "v") v in
    let whole =
      split_pre_release-Lacks (v ++ b'.' ∷ d)
        (Lacks-append b'-' v (b'.' ∷ d) lv (omega arith, ld)) in
    let segments : split b'.' (t ++ b'.' ∷ d) ≡ split b'.' t ++ d ∷ [] =
      split-append b'.' t d ∙ ap (λ r. split b'.' t ++ r) (split-Lacks b'.' d dots) in
    rw (
      compare_versions-eq-tie_break,
      whole,
      split_pre_release-Lacks v lv,
      trim-append v d,
      segments,
      padded-append (split b'.' t) (d ∷ []),
      number-padded-lt d n h,
    )
