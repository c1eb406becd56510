-- ===== src/Ecosystems/Gosum/Examples.antt =====
-- ecosystems/gosum/version.go on concrete versions.
use Prim.Native.Nat.{Ordering}
use tillit.Base.{codes, ◌≡◌, refl}
use tillit.Ecosystems.Gosum.{compare_go_version}

pre_release : compare_go_version (codes "v1.0.0-alpha.2") (codes "v1.0.0-alpha.10") ≡ Ordering.lt
unfolding compare_go_version tillit.Ecosystems.Gosum.compare_dotted_numeric tillit.Base.Order.padded
    tillit.Base.split tillit.Ecosystems.Gosum.split_version tillit.Base.cut tillit.Base.trim_prefix
    tillit.Resolver.Version.compare_segments tillit.Base.atoi tillit.Base.Release.empty_last
    tillit.Ecosystems.Gosum.compare_pre_release tillit.Base.Order.shorter_first
    tillit.Base.compare_bytes
pre_release = refl

release : compare_go_version (codes "v1.0.0") (codes "v1.0.0-rc1") ≡ Ordering.gt
unfolding compare_go_version tillit.Ecosystems.Gosum.compare_dotted_numeric tillit.Base.Order.padded
    tillit.Base.split tillit.Ecosystems.Gosum.split_version tillit.Base.cut tillit.Base.trim_prefix
    tillit.Resolver.Version.compare_segments tillit.Base.atoi tillit.Base.Release.empty_last
release = refl
