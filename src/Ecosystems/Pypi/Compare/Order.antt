-- ===== src/Ecosystems/Pypi/Compare/Order.antt =====
-- ecosystems/pypi/version.go: comparePEP440 orders all texts.
use Prim.Native.Nat.{Ordering}
use tillit.Base.{
  Bytes, ◌==◌, ==_iff, ℕ, zero, suc, ℤ, pos, compare_ℤ, [], ◌≡◌, ◌≢◌, refl, inl, inr, Bool-cases,
}
use tillit.Base.Order.{
  IsOrder, compare-IsOrder, compare_ℤ-IsOrder, compare_bytes-IsOrder, image-IsOrder,
  tie_break-IsOrder, padded-IsOrder, shorter_first-IsOrder, by_class-IsOrder,
}
use tillit.Base.Release.{failing_first-IsOrder}
use tillit.Ecosystems.Rubygems.Order.{number_last-IsOrder}
use tillit.Ecosystems.Pypi.{Version, split_local, parse_version}
use tillit.Ecosystems.Pypi.Compare.{
  classify_phase, pre_kind_rank, dev_for_order, strip_trailing_zeros, cmp_release, as_local_segment,
  compare_local_segment, cmp_local, label, compare_labels, cmp_in_phase, cmp_version,
  compare_pep440,
}

cmp_release-IsOrder : IsOrder cmp_release
unfolding cmp_release
cmp_release-IsOrder = image-IsOrder strip_trailing_zeros (padded-IsOrder compare_ℤ-IsOrder (pos 0))

compare_local_segment-IsOrder : IsOrder compare_local_segment
unfolding compare_local_segment
compare_local_segment-IsOrder = number_last-IsOrder as_local_segment

cmp_local-IsOrder : IsOrder cmp_local
unfolding cmp_local
cmp_local-IsOrder = image-IsOrder split_local (shorter_first-IsOrder compare_local_segment-IsOrder)

ties-IsOrder : IsOrder (λ (a b : Bytes). Ordering.eq)
ties-IsOrder = record {
  reflexive = λ a. refl;
  flips = λ a b. refl;
  ties = λ a b d h. refl;
  transitive = λ a b d h k. h;
}

compare_labels-IsOrder : IsOrder compare_labels
unfolding compare_labels
compare_labels-IsOrder = failing_first-IsOrder label cmp_local-IsOrder ties-IsOrder

dev_for_order-IsOrder :
    IsOrder (λ (a b : Version). compare_ℤ (dev_for_order a.dev_num) (dev_for_order b.dev_num))
dev_for_order-IsOrder = image-IsOrder (λ (v : Version). dev_for_order v.dev_num) compare_ℤ-IsOrder

cmp_in_phase-IsOrder : (phase : ℕ) → IsOrder (cmp_in_phase phase)
unfolding cmp_in_phase
cmp_in_phase-IsOrder zero = image-IsOrder (λ (v : Version). v.dev_num) compare_ℤ-IsOrder
cmp_in_phase-IsOrder (suc zero) =
    tie_break-IsOrder (image-IsOrder (λ (v : Version). pre_kind_rank v.pre_kind) compare-IsOrder) (
      tie_break-IsOrder (image-IsOrder (λ (v : Version). v.pre_num) compare_ℤ-IsOrder)
        dev_for_order-IsOrder)
cmp_in_phase-IsOrder (suc (suc zero)) = record {
  reflexive = λ a. refl;
  flips = λ a b. refl;
  ties = λ a b d h. refl;
  transitive = λ a b d h k. h;
}
cmp_in_phase-IsOrder (suc (suc (suc n))) =
    tie_break-IsOrder (image-IsOrder (λ (v : Version). v.post_num) compare_ℤ-IsOrder)
      dev_for_order-IsOrder

cmp_version-IsOrder : IsOrder cmp_version
unfolding cmp_version
cmp_version-IsOrder =
    tie_break-IsOrder (image-IsOrder (λ (v : Version). v.epoch) compare_ℤ-IsOrder) (
      tie_break-IsOrder (image-IsOrder (λ (v : Version). v.release) cmp_release-IsOrder) (
        tie_break-IsOrder (by_class-IsOrder classify_phase cmp_in_phase-IsOrder)
          (image-IsOrder (λ (v : Version). v.local) compare_labels-IsOrder)))

-- comparePEP440 is a total preorder on all texts, those that do not parse included, whatever ToLower
-- is: it is reflexive, exchanging the arguments exchanges -1 and 1, texts that tie compare alike to any
-- third, and "less than" is transitive.
pub compare_pep440-IsOrder : (to_lower : Bytes → Bytes) → IsOrder (compare_pep440 to_lower)
unfolding compare_pep440
compare_pep440-IsOrder to_lower =
    failing_first-IsOrder (parse_version to_lower) cmp_version-IsOrder compare_bytes-IsOrder

pre_phase : (v : Version) → v.pre_kind ≢ [] → classify_phase v ≡ suc zero
unfolding classify_phase
pre_phase v h = elim (Bool-cases (v.pre_kind == [])) [
  | inl e ↦ absurd (h ((==_iff v.pre_kind []).0 e))
  | inr e ↦ rw (classify_phase, e) refl
]

-- A post-release of a pre-release is not told from the pre-release: two versions that differ in the
-- post-release number alone tie if they have a pre-release kind.
pub post_of_pre_ties :
    (v : Version) (post_num : ℤ)
    → v.pre_kind ≢ []
    → cmp_version v (record v { post_num = post_num }) ≡ Ordering.eq
unfolding cmp_version cmp_in_phase
post_of_pre_ties v post_num h =
    rw
      (
        cmp_version,
        compare_ℤ-IsOrder.reflexive v.epoch,
        cmp_release-IsOrder.reflexive v.release,
        compare_labels-IsOrder.reflexive v.local,
        pre_phase v h,
        pre_phase (record v { post_num = post_num }) h,
        cmp_in_phase,
        compare-IsOrder.reflexive (pre_kind_rank v.pre_kind),
        compare_ℤ-IsOrder.reflexive v.pre_num,
        dev_for_order-IsOrder.reflexive v,
      )
      refl
