-- ===== src/Ecosystems/Requirements.antt =====
-- ecosystems/pypi/requirements_parse.go: the requirements with "==" of a requirements.txt. Texts
-- are valid UTF-8; the lines are those of bufio.Scanner, which fails on none, and strings.TrimSpace
-- and strings.Fields are parameters.
pub mod Names
pub mod Packages
mod Examples
use tillit.Base.{
  Bytes, codes, ◌==◌, ℕ, ◌+◌, suc, nat_eq, leb, has_prefix, cut, Bool, true, false, not, ◌&&◌, ◌||◌,
  Option, none, some, List, [], ◌∷◌, ◌++◌, any, if◌then◌else◌,
}
use tillit.Base.Keyed.{each}
use tillit.Commands.Check.{PackageRef}

pub record TextTools : Type 0 where
  pub trim_space : Bytes → Bytes
  pub fields : Bytes → List Bytes

abbrev pub up_to : Bytes → Option (Bytes × Bytes) → Bytes
up_to s none = s
up_to s (some (l, r)) = l

unfoldable pub strip_comment : Bytes → Bytes
strip_comment s = up_to s (cut b'#' s)

-- What stands before and behind the first "==".
unfoldable pub cut_pin : Bytes → Option (Bytes × Bytes)
cut_pin [] = none
cut_pin (c ∷ []) = none
cut_pin (c ∷ d ∷ s) =
    let rest = cut_pin (d ∷ s) in
    if nat_eq c b'=' && nat_eq d b'='
    then some ([], s)
    else elim rest [ none ↦ none | some (l, r) ↦ some (c ∷ l, r) ]

-- The fields before the first that starts with "--", if there is one.
unfoldable pub before_options : List Bytes → Option (List Bytes)
before_options [] = none
before_options (f ∷ fs) =
    let rest = before_options fs in
    if has_prefix (codes "--") f
    then some []
    else elim rest [ none ↦ none | some gs ↦ some (f ∷ gs) ]

-- strings.Join with a space.
unfoldable pub join_spaces : List Bytes → Bytes
join_spaces [] = []
join_spaces (f ∷ []) = f
join_spaces (f ∷ g ∷ fs) = f ++ b' ' ∷ join_spaces (g ∷ fs)

unfoldable pub strip_inline_options : TextTools → Bytes → Bytes
strip_inline_options tools s = elim (before_options (tools.fields s)) [
  | none ↦ s
  | some fs ↦ join_spaces fs
]

-- The cases of the switch on a character.
pub data CharClass : Type 0 where
  upper separator other : CharClass

unfoldable pub classify : ℕ → CharClass
classify c =
    if leb b'A' c && leb c b'Z'
    then upper
    else if nat_eq c b'-' || (nat_eq c b'_' || nat_eq c b'.')
    then separator
    else other

-- The loop, with whether something was written, and whether a hyphen was written last.
unfoldable pub normalize_from : Bool → Bool → Bytes → Bytes
normalize_from written prev_sep [] = []
normalize_from written prev_sep (c ∷ s) = elim (classify c) [
  | upper ↦ (c + 32) ∷ normalize_from true false s
  | separator ↦ elim (not prev_sep && written) [
    | true ↦ b'-' ∷ normalize_from written true s
    | false ↦ normalize_from written prev_sep s
  ]
  | other ↦ c ∷ normalize_from true false s
]

-- strings.TrimRight of hyphens
unfoldable pub trim_hyphens : Bytes → Bytes
trim_hyphens [] = []
trim_hyphens (c ∷ s) =
    let rest = trim_hyphens s in if nat_eq c b'-' && rest == [] then [] else c ∷ rest

unfoldable pub normalize_package_name : Bytes → Bytes
normalize_package_name s = trim_hyphens (normalize_from false false s)

-- The name without its extras.
unfoldable pub name_of : TextTools → Bytes → Bytes
name_of tools raw = elim (cut b'[' raw) [ none ↦ raw | some (l, r) ↦ tools.trim_space l ]

-- `none` is not ok.
unfoldable pub split_pinned_requirement : TextTools → Bytes → Option (Bytes × Bytes)
split_pinned_requirement tools s = elim (cut_pin s) [
  | none ↦ none
  | some (l, r) ↦
      if tools.trim_space l == [] || tools.trim_space r == []
      then none
      else if has_prefix (codes "=") (tools.trim_space r)
      then none
      else if name_of tools (tools.trim_space l) == []
      then none
      else some (normalize_package_name (name_of tools (tools.trim_space l)), tools.trim_space r)
]

unfoldable pub looks_like_url : Bytes → Bool
looks_like_url s =
    any (λ p. has_prefix p s)
      (codes "http://"
        ∷ codes "https://"
        ∷ codes "ftp://"
        ∷ codes "file://"
        ∷ codes "git+"
        ∷ codes "hg+"
        ∷ codes "svn+"
        ∷ codes "bzr+"
        ∷ [])

pub data WarningKind : Type 0 where
  skipping_option skipping_url not_pinned : WarningKind

pub record Warning : Type 0 where
  pub line : ℕ
  pub kind : WarningKind
  pub text : Bytes

-- What the loop keeps; the packages are also those seen.
pub record Parsing : Type 0 where
  pub packages : List PackageRef
  pub warnings : List Warning
  pub pending : Bytes
  pub pending_line : ℕ
  pub current_line : ℕ

abbrev pub requirement : Bytes → Bytes → PackageRef
requirement name version = record {
  ecosystem = codes "pypi";
  package_id = name;
  version = version;
  direct = false;
  hash = [];
  source = [];
}

unfoldable pub add_package : Bytes → Bytes → List PackageRef → List PackageRef
add_package name version pkgs =
    if any (λ p. p.package_id == name && p.version == version) pkgs
    then pkgs
    else pkgs ++ requirement name version ∷ []

abbrev pub warn : WarningKind → ℕ → Bytes → Parsing → Parsing
warn kind line text st = record st {
  warnings = st.warnings ++ record { line = line; kind = kind; text = text } ∷ [];
}

-- The part of flush behind stripping.
unfoldable pub flush_text : TextTools → Bytes → ℕ → Parsing → Parsing
flush_text tools text line st =
    if text == []
    then st
    else if has_prefix (codes "-") text
    then warn skipping_option line text st
    else if looks_like_url text
    then warn skipping_url line text st
    else elim (split_pinned_requirement tools text) [
      | none ↦ warn not_pinned line text st
      | some (name, version) ↦ record st { packages = add_package name version st.packages }
    ]

-- Without the environment marker behind ';'.
abbrev pub strip_marker : TextTools → Bytes → Bytes
strip_marker tools text = elim (cut b';' text) [ none ↦ text | some (l, r) ↦ tools.trim_space l ]

unfoldable pub flush : TextTools → Bytes → ℕ → Parsing → Parsing
flush tools text line st =
    if tools.trim_space (strip_comment text) == []
    then st
    else flush_text tools
        (strip_inline_options tools (strip_marker tools (tools.trim_space (strip_comment text))))
        line st

-- The line without a backslash at its end, if there is one.
unfoldable pub continued : Bytes → Option Bytes
continued [] = none
continued (c ∷ []) = if nat_eq c b'\\' then some [] else none
continued (c ∷ d ∷ s) = elim (continued (d ∷ s)) [ none ↦ none | some t ↦ some (c ∷ t) ]

-- The body of the loop over the lines.
unfoldable pub read_line : TextTools → Parsing → Bytes → Parsing
read_line tools st raw =
    let now : Parsing = record st { current_line = suc st.current_line } in
    elim (continued raw) [
      | some part ↦ record now {
        pending = now.pending ++ part ++ b' ' ∷ [];
        pending_line = if now.pending == [] then now.current_line else now.pending_line;
      }
      | none ↦
          if now.pending == []
          then flush tools raw now.current_line now
          else record (flush tools (now.pending ++ raw) now.pending_line now) {
            pending = [];
            pending_line = 0;
          }
    ]

abbrev pub no_requirements : Parsing
no_requirements = record {
  packages = [];
  warnings = [];
  pending = [];
  pending_line = 0;
  current_line = 0;
}

abbrev pub flush_pending : TextTools → Parsing → Parsing
flush_pending tools st = if st.pending == [] then st else flush tools st.pending st.pending_line st

unfoldable pub parse_requirements : TextTools → List Bytes → Parsing
parse_requirements tools lines = flush_pending tools (each (read_line tools) no_requirements lines)
