-- ===== src/Ecosystems/Gosum/Order.antt =====
-- ecosystems/gosum/version.go: compareGoVersion orders all texts.
use mathlib.Core.Path.{fun_ext}
use tillit.Base.{Bytes, split, [], ◌≡◌, arith}
use tillit.Base.Order.{
  IsOrder, image-IsOrder, tie_break, tie_break-IsOrder, padded-IsOrder, shorter_first-IsOrder,
}
use tillit.Base.Release.{empty_last, empty_last-IsOrder}
use tillit.Resolver.Version.Order.{compare_segments-IsOrder}
use tillit.Ecosystems.Gosum.{
  split_version, compare_dotted_numeric, compare_pre_release, compare_go_version,
}

compare_dotted_numeric-IsOrder : IsOrder compare_dotted_numeric
unfolding compare_dotted_numeric
compare_dotted_numeric-IsOrder =
    image-IsOrder (split b'.') (padded-IsOrder compare_segments-IsOrder [])

compare_pre_release-IsOrder : IsOrder compare_pre_release
unfolding compare_pre_release
compare_pre_release-IsOrder =
    image-IsOrder (split b'.') (shorter_first-IsOrder compare_segments-IsOrder)

compare_go_version-eq-tie_break :
    (a b : Bytes)
    → compare_go_version a b
      ≡ tie_break
          (compare_dotted_numeric (split_version a).0 (split_version b).0)
          (empty_last compare_pre_release (split_version a).1 (split_version b).1)
unfolding compare_go_version
compare_go_version-eq-tie_break a b = ground arith

-- compareGoVersion is a total preorder on all texts, malformed ones included: it is reflexive,
-- exchanging the arguments exchanges -1 and 1, texts that tie compare alike to any third, and "less
-- than" is transitive.
pub compare_go_version-IsOrder : IsOrder compare_go_version
compare_go_version-IsOrder = rw (fun_ext (λ a. fun_ext (compare_go_version-eq-tie_break a))) (
    tie_break-IsOrder (image-IsOrder (λ v. (split_version v).0) compare_dotted_numeric-IsOrder)
      (image-IsOrder (λ v. (split_version v).1) (empty_last-IsOrder compare_pre_release-IsOrder)))
