-- ===== src/Ecosystems.antt =====
-- ecosystems/: the version orders of the package ecosystems, and requirements files.
pub mod Gosum
pub mod Semver
pub mod Rubygems
pub mod Pypi
pub mod Orders
pub mod Requirements
