-- ===== src/Resolver/Version/Examples.antt =====
-- resolver/version.go on concrete versions.
use Prim.Native.Nat.{Ordering}
use tillit.Base.{Bytes, codes, ◌≡◌, refl, ℤ, pos, arith, atoi, some}
use tillit.Resolver.Version.{compare_versions}
use tillit.Resolver.Version.Prefixes.{longer-lt}

pre_release : compare_versions (codes "v1.2.0-rc1") (codes "1.2.0") ≡ Ordering.lt
unfolding compare_versions tillit.Resolver.Version.compare_numeric_dotted tillit.Base.Order.padded
    tillit.Base.split tillit.Resolver.Version.split_pre_release tillit.Base.cut
    tillit.Base.trim_prefix tillit.Resolver.Version.compare_segments atoi
    tillit.Resolver.Version.compare_pre tillit.Base.Release.empty_last
pre_release = refl

numeric : compare_versions (codes "1.10") (codes "1.9") ≡ Ordering.gt
unfolding compare_versions tillit.Resolver.Version.compare_numeric_dotted tillit.Base.Order.padded
    tillit.Base.split tillit.Resolver.Version.split_pre_release tillit.Base.cut
    tillit.Base.trim_prefix tillit.Resolver.Version.compare_segments atoi
numeric = refl

one : atoi (codes "1") ≡ some (pos 1)
unfolding atoi
one = refl

longer-lt_example : compare_versions (codes "1.0.1") (codes "1.0") ≡ Ordering.lt
longer-lt_example =
    longer-lt (codes "1.0") (codes "1") (pos 1) (omega arith, (omega arith, (omega arith, tt)))
      (omega arith, tt) (omega arith, tt) one
