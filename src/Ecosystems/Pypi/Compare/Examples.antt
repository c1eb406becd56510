-- ===== src/Ecosystems/Pypi/Compare/Examples.antt =====
-- ecosystems/pypi/version.go on concrete versions.
use Prim.Native.Nat.{Ordering}
use tillit.Base.{Bytes, codes, ℤ, pos, negsuc, Option, none, some, List, [], ◌∷◌, ◌≡◌, refl, arith}
use tillit.Base.Order.{IsOrder}
use tillit.Ecosystems.Pypi.{Version, parse_version}
use tillit.Ecosystems.Pypi.Compare.{cmp_version, compare_pep440}

abbrev same : Bytes → Bytes
same text = text

abbrev candidate : Version
candidate = record {
  epoch = pos 1;
  release = pos 2 ∷ pos 0 ∷ [];
  pre_kind = codes "rc";
  pre_num = pos 3;
  post_num = negsuc 0;
  dev_num = pos 4;
  local = codes "x.1";
}

parses : parse_version same (codes "v1!2.0-preview.3.dev4+x.1") ≡ some candidate
unfolding parse_version tillit.Base.◌==◌ tillit.Base.trim_prefix tillit.Ecosystems.Pypi.parse_local
    tillit.Base.cut tillit.Ecosystems.Pypi.is_local tillit.Base.any
    tillit.Ecosystems.Pypi.split_local tillit.Ecosystems.Pypi.is_separator
    tillit.Ecosystems.Pypi.is_local_byte tillit.Ecosystems.Pypi.parse_epoch tillit.Base.atoi
    tillit.Ecosystems.Pypi.parse_suffixes tillit.Ecosystems.Pypi.parse_release
    tillit.Ecosystems.Pypi.segments tillit.Ecosystems.Pypi.parse_dev
    tillit.Ecosystems.Pypi.match_tagged tillit.Base.digits tillit.Base.drop_prefix
    tillit.Base.is_digit tillit.Base.unsigned tillit.Ecosystems.Pypi.canon_pre_kind
    tillit.Ecosystems.Pypi.clamped tillit.Ecosystems.Pypi.implicit_post
    tillit.Ecosystems.Pypi.match_number tillit.Ecosystems.Pypi.parse_post
    tillit.Ecosystems.Pypi.parse_pre tillit.Ecosystems.Pypi.skip_separator
    tillit.Ecosystems.Pypi.span_digits tillit.Ecosystems.Pypi.starts_digit
parses = refl

no_number : parse_version same (codes "1.0a") ≡ none
unfolding parse_version tillit.Base.◌==◌ tillit.Base.trim_prefix tillit.Ecosystems.Pypi.parse_local
    tillit.Base.cut tillit.Ecosystems.Pypi.parse_epoch tillit.Ecosystems.Pypi.parse_suffixes
    tillit.Ecosystems.Pypi.parse_release tillit.Ecosystems.Pypi.segments tillit.Base.is_digit
    tillit.Ecosystems.Pypi.parse_dev tillit.Ecosystems.Pypi.match_tagged
    tillit.Ecosystems.Pypi.skip_separator tillit.Ecosystems.Pypi.parse_post
    tillit.Ecosystems.Pypi.parse_pre tillit.Ecosystems.Pypi.starts_digit
    tillit.Ecosystems.Pypi.is_separator tillit.Base.any tillit.Base.atoi tillit.Base.digits
    tillit.Base.drop_prefix tillit.Base.unsigned tillit.Ecosystems.Pypi.canon_pre_kind
    tillit.Ecosystems.Pypi.clamped tillit.Ecosystems.Pypi.implicit_post
    tillit.Ecosystems.Pypi.is_local tillit.Ecosystems.Pypi.is_local_byte
    tillit.Ecosystems.Pypi.match_number tillit.Ecosystems.Pypi.span_digits
    tillit.Ecosystems.Pypi.split_local
no_number = refl

implicit_post : compare_pep440 same (codes "1.0") (codes "1.0-1") ≡ Ordering.lt
unfolding compare_pep440 parse_version tillit.Base.◌==◌ tillit.Base.trim_prefix
    tillit.Ecosystems.Pypi.parse_local tillit.Base.cut tillit.Ecosystems.Pypi.parse_epoch
    tillit.Ecosystems.Pypi.parse_suffixes tillit.Ecosystems.Pypi.parse_release
    tillit.Ecosystems.Pypi.segments tillit.Base.is_digit tillit.Ecosystems.Pypi.parse_dev
    tillit.Ecosystems.Pypi.match_tagged tillit.Ecosystems.Pypi.skip_separator
    tillit.Ecosystems.Pypi.parse_post tillit.Ecosystems.Pypi.parse_pre
    tillit.Ecosystems.Pypi.starts_digit tillit.Base.any tillit.Base.Order.padded
    tillit.Base.Order.shorter_first tillit.Base.atoi tillit.Base.compare_bytes tillit.Base.digits
    tillit.Base.drop_prefix tillit.Base.unsigned tillit.Ecosystems.Pypi.Compare.as_local_segment
    tillit.Ecosystems.Pypi.Compare.classify_phase tillit.Ecosystems.Pypi.Compare.cmp_in_phase
    tillit.Ecosystems.Pypi.Compare.cmp_local tillit.Ecosystems.Pypi.Compare.cmp_release cmp_version
    tillit.Ecosystems.Pypi.Compare.compare_labels
    tillit.Ecosystems.Pypi.Compare.compare_local_segment
    tillit.Ecosystems.Pypi.Compare.pre_kind_rank tillit.Ecosystems.Pypi.Compare.strip_trailing_zeros
    tillit.Ecosystems.Pypi.Compare.strip_zeros tillit.Ecosystems.Pypi.canon_pre_kind
    tillit.Ecosystems.Pypi.clamped tillit.Ecosystems.Pypi.implicit_post
    tillit.Ecosystems.Pypi.is_local tillit.Ecosystems.Pypi.is_local_byte
    tillit.Ecosystems.Pypi.is_separator tillit.Ecosystems.Pypi.match_number
    tillit.Ecosystems.Pypi.span_digits tillit.Ecosystems.Pypi.split_local
implicit_post = refl

padding : compare_pep440 same (codes "1.0") (codes "1.0.0") ≡ Ordering.eq
unfolding compare_pep440 parse_version tillit.Base.◌==◌ tillit.Base.trim_prefix
    tillit.Ecosystems.Pypi.parse_local tillit.Base.cut tillit.Ecosystems.Pypi.parse_epoch
    tillit.Ecosystems.Pypi.parse_suffixes tillit.Ecosystems.Pypi.parse_release
    tillit.Ecosystems.Pypi.segments tillit.Base.is_digit tillit.Ecosystems.Pypi.parse_dev
    tillit.Ecosystems.Pypi.match_tagged tillit.Ecosystems.Pypi.skip_separator
    tillit.Ecosystems.Pypi.parse_post tillit.Ecosystems.Pypi.parse_pre
    tillit.Ecosystems.Pypi.starts_digit tillit.Base.any tillit.Base.Order.padded
    tillit.Base.Order.shorter_first tillit.Base.atoi tillit.Base.compare_bytes tillit.Base.digits
    tillit.Base.drop_prefix tillit.Base.unsigned tillit.Ecosystems.Pypi.Compare.as_local_segment
    tillit.Ecosystems.Pypi.Compare.classify_phase tillit.Ecosystems.Pypi.Compare.cmp_in_phase
    tillit.Ecosystems.Pypi.Compare.cmp_local tillit.Ecosystems.Pypi.Compare.cmp_release cmp_version
    tillit.Ecosystems.Pypi.Compare.compare_labels
    tillit.Ecosystems.Pypi.Compare.compare_local_segment
    tillit.Ecosystems.Pypi.Compare.pre_kind_rank tillit.Ecosystems.Pypi.Compare.strip_trailing_zeros
    tillit.Ecosystems.Pypi.Compare.strip_zeros tillit.Ecosystems.Pypi.canon_pre_kind
    tillit.Ecosystems.Pypi.clamped tillit.Ecosystems.Pypi.implicit_post
    tillit.Ecosystems.Pypi.is_local tillit.Ecosystems.Pypi.is_local_byte
    tillit.Ecosystems.Pypi.is_separator tillit.Ecosystems.Pypi.match_number
    tillit.Ecosystems.Pypi.span_digits tillit.Ecosystems.Pypi.split_local
padding = refl

late_dev : compare_pep440 same (codes "1.0a1.dev202401011200") (codes "1.0a1") ≡ Ordering.gt
unfolding compare_pep440 parse_version tillit.Base.◌==◌ tillit.Base.trim_prefix
    tillit.Ecosystems.Pypi.parse_local tillit.Base.cut tillit.Ecosystems.Pypi.parse_epoch
    tillit.Ecosystems.Pypi.parse_suffixes tillit.Ecosystems.Pypi.parse_release
    tillit.Ecosystems.Pypi.segments tillit.Base.is_digit tillit.Ecosystems.Pypi.parse_dev
    tillit.Ecosystems.Pypi.match_tagged tillit.Ecosystems.Pypi.skip_separator
    tillit.Ecosystems.Pypi.parse_post tillit.Ecosystems.Pypi.parse_pre
    tillit.Ecosystems.Pypi.starts_digit tillit.Base.any tillit.Base.Order.padded
    tillit.Base.Order.shorter_first tillit.Base.atoi tillit.Base.compare_bytes tillit.Base.digits
    tillit.Base.drop_prefix tillit.Base.unsigned tillit.Ecosystems.Pypi.Compare.as_local_segment
    tillit.Ecosystems.Pypi.Compare.classify_phase tillit.Ecosystems.Pypi.Compare.cmp_in_phase
    tillit.Ecosystems.Pypi.Compare.cmp_local tillit.Ecosystems.Pypi.Compare.cmp_release cmp_version
    tillit.Ecosystems.Pypi.Compare.compare_labels
    tillit.Ecosystems.Pypi.Compare.compare_local_segment
    tillit.Ecosystems.Pypi.Compare.pre_kind_rank tillit.Ecosystems.Pypi.Compare.strip_trailing_zeros
    tillit.Ecosystems.Pypi.Compare.strip_zeros tillit.Ecosystems.Pypi.canon_pre_kind
    tillit.Ecosystems.Pypi.clamped tillit.Ecosystems.Pypi.implicit_post
    tillit.Ecosystems.Pypi.is_local tillit.Ecosystems.Pypi.is_local_byte
    tillit.Ecosystems.Pypi.is_separator tillit.Ecosystems.Pypi.match_number
    tillit.Ecosystems.Pypi.span_digits tillit.Ecosystems.Pypi.split_local
late_dev = refl
