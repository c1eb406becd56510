-- ===== src/Ecosystems/Requirements/Names.antt =====
-- ecosystems/pypi/requirements_parse.go: normal names of packages.
use tillit.Base.{
  Bytes, ◌==◌, ℕ, ◌+◌, nat_eq, Bool, true, false, ◌&&◌, [], ◌∷◌, ◌≡◌, ◌≢◌, ◌<◌, ◌⊎◌, ◌||◌, inl, inr,
  leb, Bool-cases, ==_iff, refl, sym, ◌∙◌, arith, if◌then◌else◌,
}
use tillit.Ecosystems.Requirements.{
  CharClass, upper, separator, other, classify, normalize_from, trim_hyphens,
  normalize_package_name,
}

-- No capital, and none of '-', '.' and '_'.
pub record IsPlain (c : ℕ) : Type 0 where
  pub capital : (c < b'A') ⊎ (b'Z' < c)
  pub hyphen : c ≢ b'-'
  pub dot : c ≢ b'.'
  pub underscore : c ≢ b'_'

-- A normal name behind what was written: no capitals, and separators are single hyphens, none of them
-- at the start or the end.
pub data IsNormal : Bool → Bool → Bytes → Type 0 where
  ended : (written prev_sep : Bool) → IsNormal written prev_sep []
  letter :
      (written prev_sep : Bool) (c : ℕ) (t : Bytes)
      → IsPlain c
      → IsNormal true false t
      → IsNormal written prev_sep (c ∷ t)
  hyphen : (d : ℕ) (t : Bytes) → IsNormal true true (d ∷ t) → IsNormal true false (b'-' ∷ d ∷ t)

classify-IsPlain : (c : ℕ) → classify c ≡ other → IsPlain c
unfolding classify
classify-IsPlain c h = record {
  capital = apart;
  hyphen = λ e. absurd (ground arith);
  dot = λ e. absurd (ground arith);
  underscore = λ e. absurd (ground arith);
}
  where
    apart : (c < b'A') ⊎ (b'Z' < c)
    apart = elim (Bool-cases (leb b'A' c)) [
      | inl a ↦ elim (Bool-cases (leb c b'Z')) [
        | inl b ↦ absurd (ground arith)
        | inr b ↦ inr (ground arith)
      ]
      | inr a ↦ inl (ground arith)
    ]

IsPlain-classify : (c : ℕ) → IsPlain c → classify c ≡ other
unfolding classify
IsPlain-classify c p = elim p.capital [
  | inl h ↦ ground (arith, p.hyphen, p.dot, p.underscore)
  | inr h ↦ ground (arith, p.hyphen, p.dot, p.underscore)
]

classify-lower : (c : ℕ) → classify c ≡ upper → classify (c + 32) ≡ other
unfolding classify
classify-lower c h = ground arith

classify-other : (c : ℕ) → classify c ≡ other → nat_eq c b'-' ≡ false
unfolding classify
classify-other c h = ground arith

trim_hyphens-other :
    (c : ℕ) (s : Bytes) → nat_eq c b'-' ≡ false → trim_hyphens (c ∷ s) ≡ c ∷ trim_hyphens s
unfolding trim_hyphens
trim_hyphens-other c s h = rw (trim_hyphens, h) refl

trim_hyphens-IsNormal :
    (s : Bytes)
    → IsNormal true true (trim_hyphens s)
    → IsNormal true false (trim_hyphens (b'-' ∷ s))
unfolding trim_hyphens ◌==◌
trim_hyphens-IsNormal s = split_on (trim_hyphens s)
  where
    split_on :
        (r : Bytes)
        → IsNormal true true r
        → IsNormal true false (if nat_eq b'-' b'-' && r == [] then [] else b'-' ∷ r)
    split_on [] n = ended true false
    split_on (d ∷ t) n = hyphen d t n

-- One character in front of a normal rest, by its class.
step-IsNormal :
    (written prev_sep : Bool) (c : ℕ) (s : Bytes) (k : CharClass)
    → classify c ≡ k
    → ((w p : Bool) → IsNormal w p (trim_hyphens (normalize_from w p s)))
    → IsNormal written prev_sep (trim_hyphens (normalize_from written prev_sep (c ∷ s)))
unfolding normalize_from trim_hyphens
step-IsNormal written prev_sep c s upper e ih =
    rw
      (
        normalize_from,
        e,
        trim_hyphens-other (c + 32) (normalize_from true false s)
            (classify-other (c + 32) (classify-lower c e)),
      )
      (letter written prev_sep (c + 32) _ (classify-IsPlain (c + 32) (classify-lower c e))
        (ih true false))
step-IsNormal written prev_sep c s other e ih =
    rw (normalize_from, e, trim_hyphens-other c (normalize_from true false s) (classify-other c e))
      (letter written prev_sep c _ (classify-IsPlain c e) (ih true false))
step-IsNormal true false c s separator e ih =
    rw (normalize_from, e) (trim_hyphens-IsNormal (normalize_from true true s) (ih true true))
step-IsNormal true true c s separator e ih = rw (normalize_from, e) (ih true true)
step-IsNormal false false c s separator e ih = rw (normalize_from, e) (ih false false)
step-IsNormal false true c s separator e ih = rw (normalize_from, e) (ih false true)

normalize_from-IsNormal :
    (written prev_sep : Bool) (s : Bytes)
    → IsNormal written prev_sep (trim_hyphens (normalize_from written prev_sep s))
unfolding normalize_from trim_hyphens
normalize_from-IsNormal written prev_sep [] = ended written prev_sep
normalize_from-IsNormal written prev_sep (c ∷ s) =
    step-IsNormal written prev_sep c s (classify c) refl (λ w p. normalize_from-IsNormal w p s)

-- A normal name stays as it is.
normalize_from-normal :
    (written prev_sep : Bool) (t : Bytes)
    → IsNormal written prev_sep t
    → (normalize_from written prev_sep t ≡ t) × (trim_hyphens t ≡ t)
unfolding normalize_from trim_hyphens classify ◌==◌
normalize_from-normal written prev_sep t (ended w p) = (refl, refl)
normalize_from-normal written prev_sep t (letter w p c u plain n) =
    let e = IsPlain-classify c plain in
    let (a, b) = normalize_from-normal true false u n in
    (rw (normalize_from, e, a) refl, trim_hyphens-other c u (classify-other c e) ∙ rw (b) refl)
normalize_from-normal written prev_sep t (hyphen d u n) =
    let (a, b) = normalize_from-normal true true (d ∷ u) n in
    (rw (normalize_from, a) refl, rw (trim_hyphens, b) refl)

-- The lower-cased letters of a text, without the separators.
abbrev pub letters : Bytes → Bytes
letters [] = []
letters (c ∷ s) =
    let rest = letters s in
    if nat_eq c b'-' || (nat_eq c b'.' || nat_eq c b'_')
    then rest
    else (if leb b'A' c && leb c b'Z' then c + 32 else c) ∷ rest

letters-trim_hyphens : (s : Bytes) → letters (trim_hyphens s) ≡ letters s
unfolding trim_hyphens
letters-trim_hyphens [] = refl
letters-trim_hyphens (c ∷ s) = elim (Bool-cases (nat_eq c b'-' && trim_hyphens s == [])) [
  | inl e ↦
      let gone : trim_hyphens s ≡ [] = (==_iff (trim_hyphens s) []).0 (ground arith) in
      let none_left : letters s ≡ [] = sym (letters-trim_hyphens s) ∙ rw (gone) refl in
      let dash : nat_eq c b'-' ≡ true = ground arith in rw (trim_hyphens, e, dash, none_left) refl
  | inr e ↦ rw (trim_hyphens, e, letters-trim_hyphens s) refl
]

letters-step :
    (written prev_sep : Bool) (c : ℕ) (s : Bytes) (k : CharClass)
    → classify c ≡ k
    → ((w p : Bool) → letters (normalize_from w p s) ≡ letters s)
    → letters (normalize_from written prev_sep (c ∷ s)) ≡ letters (c ∷ s)
unfolding normalize_from classify
letters-step written prev_sep c s upper e ih = rw (normalize_from, e, ih true false) (ground arith)
letters-step written prev_sep c s other e ih = rw (normalize_from, e, ih true false) refl
letters-step true false c s separator e ih = rw (normalize_from, e, ih true true) (ground arith)
letters-step true true c s separator e ih = rw (normalize_from, e, ih true true) (ground arith)
letters-step false false c s separator e ih = rw (normalize_from, e, ih false false) (ground arith)
letters-step false true c s separator e ih = rw (normalize_from, e, ih false true) (ground arith)

letters-normalize_from :
    (written prev_sep : Bool) (s : Bytes) → letters (normalize_from written prev_sep s) ≡ letters s
unfolding normalize_from
letters-normalize_from written prev_sep [] = refl
letters-normalize_from written prev_sep (c ∷ s) =
    letters-step written prev_sep c s (classify c) refl (λ w p. letters-normalize_from w p s)

-- A normalised name is normal, has the letters of the raw one, and is the raw one if that is normal.
pub record IsNormalized (raw name : Bytes) : Type 0 where
  pub normal : IsNormal false false name
  pub letters : letters name ≡ letters raw
  pub fixed : IsNormal false false raw → name ≡ raw

pub normalize_package_name-IsNormalized :
    (raw : Bytes) → IsNormalized raw (normalize_package_name raw)
unfolding normalize_package_name
normalize_package_name-IsNormalized raw = record {
  normal = normalize_from-IsNormal false false raw;
  letters =
      letters-trim_hyphens (normalize_from false false raw)
      ∙ letters-normalize_from false false raw;
  fixed = λ n. let (a, b) = normalize_from-normal false false raw n in rw (a, b) refl;
}
