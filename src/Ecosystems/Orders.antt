-- ===== src/Ecosystems/Orders.antt =====
-- ecosystems/internal/semver/semver.go and ecosystems/pypi/version.go: the comparisons of the registries'
-- versions together.
use tillit.Base.{Bytes}
use tillit.Base.Order.{IsOrder}
use tillit.Ecosystems.Semver.{compare}
use tillit.Ecosystems.Semver.Order.{compare-IsOrder}
use tillit.Ecosystems.Pypi.Compare.{compare_pep440}
use tillit.Ecosystems.Pypi.Compare.Order.{compare_pep440-IsOrder}

-- Compare of semver and, whatever ToLower is, comparePEP440 are total preorders on all texts, those that
-- do not parse included: each is reflexive, exchanging the arguments exchanges -1 and 1, texts that tie
-- compare alike to any third, and "less than" is transitive.
pub comparisons-IsOrder :
    IsOrder compare × ((to_lower : Bytes → Bytes) → IsOrder (compare_pep440 to_lower))
comparisons-IsOrder = (compare-IsOrder, compare_pep440-IsOrder)
