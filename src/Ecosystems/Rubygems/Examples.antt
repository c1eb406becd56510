-- ===== src/Ecosystems/Rubygems/Examples.antt =====
-- ecosystems/rubygems/version.go on concrete versions.
use Prim.Native.Nat.{Ordering}
use tillit.Base.{Bytes, codes, List, [], ◌∷◌, ◌++◌, Bool, true, false, ◌≡◌, refl}
use tillit.Ecosystems.Rubygems.{compare_gem_segments, compare_gem_version, validate_gem_version}

padding : compare_gem_version (codes "1.0") (codes "1.0.0") ≡ Ordering.eq
unfolding compare_gem_version compare_gem_segments tillit.Ecosystems.Rubygems.split_gem_segments
    tillit.Base.split tillit.Base.trim_prefix tillit.Ecosystems.Rubygems.compare_gem_segment
    tillit.Ecosystems.Rubygems.try_atoi tillit.Base.unsigned
    tillit.Ecosystems.Rubygems.classify_gem_trailing tillit.Ecosystems.Rubygems.classify_from
padding = refl

pre_release : compare_gem_version (codes "1.0.pre") (codes "1.0") ≡ Ordering.lt
unfolding compare_gem_version compare_gem_segments tillit.Ecosystems.Rubygems.split_gem_segments
    tillit.Base.split tillit.Base.trim_prefix tillit.Ecosystems.Rubygems.compare_gem_segment
    tillit.Ecosystems.Rubygems.try_atoi tillit.Base.unsigned
    tillit.Ecosystems.Rubygems.classify_gem_trailing tillit.Ecosystems.Rubygems.classify_from
pre_release = refl

numbered : compare_gem_version (codes "1.0.pre.1") (codes "1.0") ≡ Ordering.gt
unfolding compare_gem_version compare_gem_segments tillit.Ecosystems.Rubygems.split_gem_segments
    tillit.Base.split tillit.Base.trim_prefix tillit.Ecosystems.Rubygems.compare_gem_segment
    tillit.Ecosystems.Rubygems.try_atoi tillit.Base.unsigned
    tillit.Ecosystems.Rubygems.classify_gem_trailing tillit.Ecosystems.Rubygems.classify_from
numbered = refl

no_dashes : validate_gem_version (codes "1.0-pre") ≡ false
unfolding validate_gem_version tillit.Base.◌==◌ tillit.Base.any tillit.Base.split
    tillit.Ecosystems.Rubygems.is_gem_byte
no_dashes = refl
