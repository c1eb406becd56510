-- ===== src/Ecosystems/Semver/Examples.antt =====
-- ecosystems/internal/semver/semver.go on concrete versions.
use Prim.Native.Nat.{Ordering}
use tillit.Base.{Bytes, codes, pos, List, [], ◌∷◌, ◌++◌, Option, some, Bool, true, false, ◌≡◌, refl}
use tillit.Ecosystems.Semver.{Version, parse, is_valid, compare}

numbers_first : compare (codes "1.0.0-alpha.2") (codes "1.0.0-alpha.beta") ≡ Ordering.lt
unfolding compare parse tillit.Ecosystems.Semver.parse_cut tillit.Ecosystems.Semver.optional_idents
    tillit.Base.cut tillit.Ecosystems.Semver.parse_core tillit.Ecosystems.Semver.pre_idents
    tillit.Ecosystems.Semver.split_idents tillit.Base.any tillit.Base.split
    tillit.Ecosystems.Semver.is_ident tillit.Base.◌==◌ tillit.Ecosystems.Semver.is_all_digits
    tillit.Base.is_digit tillit.Ecosystems.Semver.has_leading_zero tillit.Ecosystems.Semver.number
    tillit.Base.atoi tillit.Ecosystems.Semver.compare_parsed tillit.Base.Release.empty_last
    tillit.Ecosystems.Semver.cmp_pre_release tillit.Base.Order.shorter_first
    tillit.Ecosystems.Semver.compare_idents tillit.Ecosystems.Semver.ident_number
    tillit.Base.compare_bytes
numbers_first = refl

release_last : compare (codes "1.0.0") (codes "1.0.0-rc.1") ≡ Ordering.gt
unfolding compare parse tillit.Ecosystems.Semver.parse_cut tillit.Ecosystems.Semver.optional_idents
    tillit.Base.cut tillit.Ecosystems.Semver.parse_core tillit.Ecosystems.Semver.pre_idents
    tillit.Base.any tillit.Base.split tillit.Ecosystems.Semver.number
    tillit.Ecosystems.Semver.has_leading_zero tillit.Base.atoi tillit.Ecosystems.Semver.split_idents
    tillit.Ecosystems.Semver.is_ident tillit.Base.◌==◌ tillit.Ecosystems.Semver.is_all_digits
    tillit.Ecosystems.Semver.compare_parsed tillit.Base.Release.empty_last
release_last = refl

leading_zero : is_valid (codes "1.02.0") ≡ false
unfolding parse tillit.Ecosystems.Semver.parse_cut tillit.Ecosystems.Semver.optional_idents
    tillit.Base.cut tillit.Ecosystems.Semver.parse_core tillit.Ecosystems.Semver.pre_idents
    tillit.Base.any tillit.Base.split tillit.Ecosystems.Semver.number
    tillit.Ecosystems.Semver.has_leading_zero tillit.Base.atoi
leading_zero = refl
