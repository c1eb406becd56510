-- ===== src/Ecosystems/Pypi.antt =====
-- ecosystems/pypi/version.go: versions by PEP 440.
-- The result -1, 0 or 1 is `lt`, `eq` or `gt`. strings.ToLower is the parameter `to_lower`. The regular
-- expressions are matched by hand: they are anchored, and no byte can start both what may be left out
-- and what follows it.
pub mod Compare
use tillit.Base.{
  Bytes, codes, ◌==◌, ℕ, ◌*◌, ◌+◌, ◌-◌, ◌^◌, ltb, nat_eq, ℤ, pos, negsuc, cut, atoi, unsigned,
  is_digit, drop_prefix, trim_prefix, leb, Bool, true, false, not, ◌&&◌, ◌||◌, Option, none, some,
  List, [], ◌∷◌, any, if◌then◌else◌,
}

-- A number that is absent is -1.
pub record Version : Type 0 where
  pub epoch : ℤ
  pub release : List ℤ
  pub pre_kind : Bytes
  pub pre_num : ℤ
  pub post_num : ℤ
  pub dev_num : ℤ
  pub local : Bytes

-- strconv.Atoi of digits without a look at its error: a number out of range is the highest.
unfoldable pub clamped : Bytes → ℤ
clamped s = elim (unsigned s) [
  | none ↦ pos 0
  | some n ↦ if ltb n (2 ^ 63) then pos n else pos (2 ^ 63 - 1)
]

-- `\d*`, and the rest.
unfoldable pub span_digits : Bytes → Bytes × Bytes
span_digits [] = ([], [])
span_digits (c ∷ s) = let (l, r) = span_digits s in if is_digit c then (c ∷ l, r) else ([], c ∷ s)

-- `\d+`, as a number, and the rest.
unfoldable pub match_number : Bytes → Option (ℤ × Bytes)
match_number s = elim ((span_digits s).0) [
  | [] ↦ none
  | c ∷ ds ↦ some (clamped (c ∷ ds), (span_digits s).1)
]

-- `[._-]?`
unfoldable pub is_separator : ℕ → Bool
is_separator c = nat_eq c b'.' || (nat_eq c b'_' || nat_eq c b'-')

unfoldable pub skip_separator : Bytes → Bytes
skip_separator [] = []
skip_separator (c ∷ s) = if is_separator c then s else c ∷ s

-- The first of the tags that the rest of the expression, a number behind a separator, matches behind.
unfoldable pub match_tagged : List Bytes → Bytes → Option (Bytes × ℤ × Bytes)
match_tagged [] s = none
match_tagged (tag ∷ tags) s =
    let others = match_tagged tags s in
    elim (drop_prefix tag s) [
      | none ↦ others
      | some r ↦ elim (match_number (skip_separator r)) [
        | none ↦ others
        | some (n, rest) ↦ some (tag, n, rest)
      ]
    ]

abbrev pub pre_tags : List Bytes
pre_tags =
    codes "alpha"
    ∷ codes "beta"
    ∷ codes "preview"
    ∷ codes "pre"
    ∷ codes "rc"
    ∷ codes "a"
    ∷ codes "b"
    ∷ codes "c"
    ∷ []

abbrev pub post_tags : List Bytes
post_tags = codes "post" ∷ codes "rev" ∷ codes "r" ∷ []

-- canonPreKind
unfoldable pub canon_pre_kind : Bytes → Bytes
canon_pre_kind s =
    if s == codes "a" || s == codes "alpha"
    then codes "a"
    else if s == codes "b" || s == codes "beta"
    then codes "b"
    else if s == codes "c" || (s == codes "rc" || (s == codes "pre" || s == codes "preview"))
    then codes "rc"
    else s

-- The pre-release: its kind, its number and the rest.
unfoldable pub parse_pre : Bytes → Bytes × ℤ × Bytes
parse_pre s = elim (match_tagged pre_tags (skip_separator s)) [
  | none ↦ ([], pos 0, s)
  | some (tag, n, rest) ↦ (canon_pre_kind tag, n, rest)
]

-- A dash and a number.
unfoldable pub implicit_post : Bytes → ℤ × Bytes
implicit_post [] = (negsuc 0, [])
implicit_post (c ∷ s) =
    if nat_eq c b'-'
    then elim (match_number s) [ none ↦ (negsuc 0, c ∷ s) | some (n, rest) ↦ (n, rest) ]
    else (negsuc 0, c ∷ s)

unfoldable pub parse_post : Bytes → ℤ × Bytes
parse_post s = elim (match_tagged post_tags (skip_separator s)) [
  | none ↦ implicit_post s
  | some (tag, n, rest) ↦ (n, rest)
]

unfoldable pub parse_dev : Bytes → ℤ × Bytes
parse_dev s = elim (match_tagged (codes "dev" ∷ []) (skip_separator s)) [
  | none ↦ (negsuc 0, s)
  | some (tag, n, rest) ↦ (n, rest)
]

unfoldable pub starts_digit : Bytes → Bool
starts_digit [] = false
starts_digit (c ∷ s) = is_digit c

-- The loop over the release: the digits of the segment in front, the numbers of those behind it, and
-- the rest. A dot goes on only before a digit.
unfoldable pub segments : Bytes → Bytes × List ℤ × Bytes
segments [] = ([], [], [])
segments (c ∷ s) =
    let (ds, ns, r) = segments s in
    if is_digit c
    then (c ∷ ds, ns, r)
    else if nat_eq c b'.' && starts_digit s
    then ([], clamped ds ∷ ns, r)
    else ([], [], c ∷ s)

-- `none` is an error; so below.
unfoldable pub parse_release : Bytes → Option (List ℤ × Bytes)
parse_release s =
    let (ds, ns, r) = segments s in if ds == [] then none else some (clamped ds ∷ ns, r)

-- Behind the epoch.
unfoldable pub parse_suffixes : Bytes → ℤ → Bytes → Option Version
parse_suffixes local epoch s = elim (parse_release s) [
  | none ↦ none
  | some (release, s₁) ↦
      let (pre_kind, pre_num, s₂) = parse_pre s₁ in
      let (post_num, s₃) = parse_post s₂ in
      let (dev_num, s₄) = parse_dev s₃ in
      if s₄ == []
      then some (record {
        epoch = epoch;
        release = release;
        pre_kind = pre_kind;
        pre_num = pre_num;
        post_num = post_num;
        dev_num = dev_num;
        local = local;
      })
      else none
]

-- The epoch in front of the first '!'; an empty one is none of Atoi's numbers.
unfoldable pub parse_epoch : Bytes → Bytes → Option Version
parse_epoch local s = elim (cut b'!' s) [
  | none ↦ parse_suffixes local (pos 0) s
  | some (l, r) ↦ elim (atoi l) [ none ↦ none | some epoch ↦ parse_suffixes local epoch r ]
]

abbrev pub in_front_first : ℕ → List Bytes → List Bytes
in_front_first c [] = (c ∷ []) ∷ []
in_front_first c (p ∷ ps) = (c ∷ p) ∷ ps

unfoldable pub split_local : Bytes → List Bytes
split_local [] = [] ∷ []
split_local (c ∷ s) =
    if is_separator c then [] ∷ split_local s else in_front_first c (split_local s)

unfoldable pub is_local_byte : ℕ → Bool
is_local_byte c = (leb b'a' c && leb c b'z') || (leb b'0' c && leb c b'9')

-- `^[a-z0-9]+([._-][a-z0-9]+)*$`
unfoldable pub is_local : Bytes → Bool
is_local s = not (any (λ p. p == [] || any (λ c. not (is_local_byte c)) p) (split_local s))

-- The local label behind the first '+'; the empty one does not match.
unfoldable pub parse_local : Bytes → Option Version
parse_local s = elim (cut b'+' s) [
  | none ↦ parse_epoch [] s
  | some (l, r) ↦ if is_local r then parse_epoch r l else none
]

unfoldable pub parse_version : (Bytes → Bytes) → Bytes → Option Version
parse_version to_lower input =
    if input == []
    then none
    else if trim_prefix (codes "v") (to_lower input) == []
    then none
    else parse_local (trim_prefix (codes "v") (to_lower input))
