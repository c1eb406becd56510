-- ===== src/Ecosystems/Gosum.antt =====
-- ecosystems/gosum/version.go: the comparison of two versions of Go modules.
-- The result -1, 0 or 1 is `lt`, `eq` or `gt`. Its loops compare two segments as
-- resolver/version.go does.
pub mod Order
mod Examples
use Prim.Native.Nat.{Ordering}
use tillit.Base.{Bytes, codes, trim_prefix, cut, split, []}
use tillit.Base.Order.{padded, shorter_first}
use tillit.Base.Release.{empty_last}
use tillit.Resolver.Version.{base_and_pre, compare_segments}

unfoldable pub split_version : Bytes → Bytes × Bytes
split_version v = let t = trim_prefix (codes "v") v in base_and_pre t (cut b'-' t)

pub compare_dotted_numeric : Bytes → Bytes → Ordering
compare_dotted_numeric a b = padded compare_segments [] (split b'.' a) (split b'.' b)

pub compare_pre_release : Bytes → Bytes → Ordering
compare_pre_release a b = shorter_first compare_segments (split b'.' a) (split b'.' b)

pub compare_go_version : Bytes → Bytes → Ordering
compare_go_version a b =
    let (a_main, a_pre) = split_version a in
    let (b_main, b_pre) = split_version b in
    elim (compare_dotted_numeric a_main b_main) [
      | Ordering.lt ↦ Ordering.lt
      | Ordering.gt ↦ Ordering.gt
      | Ordering.eq ↦ empty_last compare_pre_release a_pre b_pre
    ]
