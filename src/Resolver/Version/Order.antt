-- ===== src/Resolver/Version/Order.antt =====
-- resolver/version.go: CompareVersions orders all texts.
use mathlib.Core.Path.{fun_ext}
use tillit.Base.{Bytes, ℤ, compare_bytes, atoi, Option, split, [], ◌≡◌, arith}
use tillit.Base.Order.{
  IsOrder, compare_ℤ-IsOrder, compare_bytes-IsOrder, image-IsOrder, tie_break, tie_break-IsOrder,
  padded-IsOrder,
}
use tillit.Base.Release.{empty_last-IsOrder}
use tillit.Resolver.Version.{
  by_number, compare_segments, compare_numeric_dotted, compare_pre, split_pre_release,
  compare_versions,
}

-- Segments that are both numbers, by any reading of numbers, compare so; the others as texts.
pub by_number-IsOrder :
    (number : Bytes → Option ℤ)
    → IsOrder (λ a b. by_number (number a) (number b) (compare_bytes a b))
by_number-IsOrder number = record {
  reflexive = λ a. ground (arith, compare_ℤ-IsOrder.reflexive, compare_bytes-IsOrder.reflexive a);
  flips = λ a b. ground (arith, compare_bytes-IsOrder.flips a b);
  ties = λ a b d h. ground (arith, compare_bytes-IsOrder.ties a b d);
  transitive = λ a b d h k. ground (arith, compare_bytes-IsOrder.transitive a b d);
}

pub compare_segments-IsOrder : IsOrder compare_segments
unfolding compare_segments
compare_segments-IsOrder = by_number-IsOrder atoi

compare_pre-IsOrder : IsOrder compare_pre
unfolding compare_pre
compare_pre-IsOrder = empty_last-IsOrder compare_bytes-IsOrder

compare_numeric_dotted-IsOrder : IsOrder compare_numeric_dotted
unfolding compare_numeric_dotted
compare_numeric_dotted-IsOrder =
    image-IsOrder (split b'.') (padded-IsOrder compare_segments-IsOrder [])

pub compare_versions-eq-tie_break :
    (a b : Bytes)
    → compare_versions a b
      ≡ tie_break
          (compare_numeric_dotted (split_pre_release a).0 (split_pre_release b).0)
          (compare_pre (split_pre_release a).1 (split_pre_release b).1)
unfolding compare_versions
compare_versions-eq-tie_break a b = ground arith

-- CompareVersions is a total preorder on all texts, malformed ones included: it is reflexive,
-- exchanging the arguments exchanges -1 and 1, texts that tie compare alike to any third, and "less
-- than" is transitive. So every sort by it is well defined.
pub compare_versions-IsOrder : IsOrder compare_versions
compare_versions-IsOrder = rw (fun_ext (λ a. fun_ext (compare_versions-eq-tie_break a))) (
    tie_break-IsOrder (image-IsOrder (λ v. (split_pre_release v).0) compare_numeric_dotted-IsOrder)
      (image-IsOrder (λ v. (split_pre_release v).1) compare_pre-IsOrder))
