-- ===== src/Resolver/Version.antt =====
-- resolver/version.go: the generic comparison of two versions.
-- The result -1, 0 or 1 is `lt`, `eq` or `gt`.
pub mod Order
pub mod Prefixes
mod Examples
use Prim.Native.Nat.{Ordering}
use tillit.Base.{
  ◌∷◌, Bytes, codes, ℤ, compare_ℤ, compare_bytes, trim_prefix, cut, split, atoi, Option, none, some,
  [],
}
use tillit.Base.Order.{padded}
use tillit.Base.Release.{empty_last}

-- The numeric part and the suffix behind the first dash.
abbrev pub base_and_pre : Bytes → Option (Bytes × Bytes) → Bytes × Bytes
base_and_pre v none = (v, [])
base_and_pre v (some parts) = parts

unfoldable pub split_pre_release : Bytes → Bytes × Bytes
split_pre_release v = let t = trim_prefix (codes "v") v in base_and_pre t (cut b'-' t)

-- One round of the loop: segments that are both numbers compare as numbers, a number comes before
-- any other text, and other texts compare bytewise.
abbrev pub by_number : Option ℤ → Option ℤ → Ordering → Ordering
by_number (some m) (some n) o = compare_ℤ m n
by_number (some m) none o = Ordering.lt
by_number none (some n) o = Ordering.gt
by_number none none o = o

unfoldable pub compare_segments : Bytes → Bytes → Ordering
compare_segments a b = by_number (atoi a) (atoi b) (compare_bytes a b)

unfoldable pub compare_numeric_dotted : Bytes → Bytes → Ordering
compare_numeric_dotted a b = padded compare_segments [] (split b'.' a) (split b'.' b)

-- The switch on the two suffixes.
unfoldable pub compare_pre : Bytes → Bytes → Ordering
compare_pre a b = empty_last compare_bytes a b

unfoldable pub compare_versions : Bytes → Bytes → Ordering
compare_versions a b =
    let (a_base, a_pre) = split_pre_release a in
    let (b_base, b_pre) = split_pre_release b in
    elim (compare_numeric_dotted a_base b_base) [
      | Ordering.lt ↦ Ordering.lt
      | Ordering.gt ↦ Ordering.gt
      | Ordering.eq ↦ compare_pre a_pre b_pre
    ]
