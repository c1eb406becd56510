-- ===== src/Ecosystems/Requirements/Examples.antt =====
-- ecosystems/pypi/requirements_parse.go on a few lines, with white space left alone.
use tillit.Base.{Bytes, codes, List, [], ◌∷◌, map, ◌≡◌, refl}
use tillit.Ecosystems.Requirements.{TextTools, normalize_package_name, parse_requirements}

abbrev tools : TextTools
tools = record { trim_space = λ s. s; fields = λ s. s ∷ [] }

abbrev lines : List Bytes
lines =
    codes "Zope._Interface==1.0;x"
    ∷ codes "zope-interface==1.0 # again"
    ∷ codes "b[c]==\\"
    ∷ codes "2"
    ∷ codes "-e ."
    ∷ codes "d===1"
    ∷ []

name : normalize_package_name (codes "._Zope._Interface-") ≡ codes "zope-interface"
unfolding normalize_package_name tillit.Ecosystems.Requirements.trim_hyphens
    tillit.Ecosystems.Requirements.normalize_from tillit.Ecosystems.Requirements.classify
    tillit.Base.◌==◌
name = refl

-- What stands behind the first "==" is the version, whatever operators it or the name has.
several :
    map {B = Bytes × Bytes}
      (λ p. (p.package_id, p.version))
      (parse_requirements tools (codes "foo==1.0,<2" ∷ codes "foo>=1,==2" ∷ [])).packages
    ≡ (codes "foo", codes "1.0,<2") ∷ (codes "foo>=1,", codes "2") ∷ []
unfolding parse_requirements tillit.Base.◌==◌ tillit.Base.Keyed.each
    tillit.Ecosystems.Requirements.read_line tillit.Ecosystems.Requirements.continued
    tillit.Ecosystems.Requirements.flush tillit.Ecosystems.Requirements.strip_comment
    tillit.Base.cut tillit.Ecosystems.Requirements.flush_text
    tillit.Ecosystems.Requirements.strip_inline_options
    tillit.Ecosystems.Requirements.before_options tillit.Base.has_prefix
    tillit.Ecosystems.Requirements.looks_like_url tillit.Base.any
    tillit.Ecosystems.Requirements.split_pinned_requirement tillit.Ecosystems.Requirements.cut_pin
    tillit.Ecosystems.Requirements.name_of tillit.Ecosystems.Requirements.add_package
    tillit.Ecosystems.Requirements.classify tillit.Ecosystems.Requirements.join_spaces
    tillit.Ecosystems.Requirements.normalize_from normalize_package_name
    tillit.Ecosystems.Requirements.trim_hyphens
several = refl

versions :
    map (λ p. p.version) (parse_requirements tools lines).packages
    ≡ codes "1.0" ∷ codes "1.0 " ∷ codes " 2" ∷ []
unfolding parse_requirements tillit.Base.◌==◌ tillit.Base.Keyed.each
    tillit.Ecosystems.Requirements.read_line tillit.Ecosystems.Requirements.continued
    tillit.Ecosystems.Requirements.flush tillit.Ecosystems.Requirements.strip_comment
    tillit.Base.cut tillit.Ecosystems.Requirements.flush_text
    tillit.Ecosystems.Requirements.strip_inline_options
    tillit.Ecosystems.Requirements.before_options tillit.Base.has_prefix
    tillit.Ecosystems.Requirements.looks_like_url tillit.Base.any
    tillit.Ecosystems.Requirements.split_pinned_requirement tillit.Ecosystems.Requirements.cut_pin
    tillit.Ecosystems.Requirements.name_of tillit.Ecosystems.Requirements.add_package
    tillit.Ecosystems.Requirements.classify tillit.Ecosystems.Requirements.join_spaces
    tillit.Ecosystems.Requirements.normalize_from normalize_package_name
    tillit.Ecosystems.Requirements.trim_hyphens
versions = refl
