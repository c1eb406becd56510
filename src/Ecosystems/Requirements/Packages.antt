-- ===== src/Ecosystems/Requirements/Packages.antt =====
-- ecosystems/pypi/requirements_parse.go: what the parsed packages are.
use tillit.Base.{
  Bytes, codes, ◌==◌, has_prefix, Bool, false, ◌&&◌, Option, some, List, [], ◌∷◌, any, All, ◌≡◌,
  ◌≢◌,
}
use tillit.Commands.Check.{PackageRef}
use tillit.Ecosystems.Requirements.Names.{IsNormal}

-- A package of PyPI under a normal name, at a version text that is there and does not start with '='.
pub record IsRequirement (p : PackageRef) : Type 0 where
  pub ecosystem : p.ecosystem ≡ codes "pypi"
  pub name : IsNormal false false p.package_id
  pub version : p.version ≢ []
  pub operator : has_prefix (codes "=") p.version ≡ false

abbrev same_pin : Bytes → Bytes → PackageRef → Bool
same_pin name version p = p.package_id == name && p.version == version

-- No two of the packages have a name and a version in common.
abbrev pub AreDistinct : List PackageRef → Type 0
AreDistinct [] = Unit
AreDistinct (p ∷ ps) =
    (any (λ q. q.package_id == p.package_id && q.version == p.version) ps ≡ false) × AreDistinct ps

-- What the loop keeps.
pub record IsRead (ps : List PackageRef) : Type 0 where
  pub requirements : All IsRequirement ps
  pub distinct : AreDistinct ps

abbrev pin : Bytes → Bytes → Option (Bytes × Bytes)
pin name version = some (name, version)
