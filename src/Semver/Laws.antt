-- ===== src/Semver/Laws.antt =====
-- Versions: printing and parsing, and the order behind `is_compatible_with`.
pub mod Positions
pub mod Steps
pub mod RoundTrip
use linglong_box.Prelude.{
  ℕ, ◌+◌, ◌-◌, ◌*◌, ◌^◌, ◌≤◌, ◌<◌, ◌≡◌, ◌≢◌, refl, sym, ◌∙◌, ap, ◌↔◌, ◌⊎◌, Bool, true, false, ◌||◌,
  Option, none, some, List, [], ◌∷◌, ◌++◌, Bytes, length, All, Lacks, drop, take, arith,
  append_assoc, ◌==◌, if◌then◌else◌,
}
use linglong_box.Semver.{Semver, is_compatible_with}

-- A version is compatible with a requirement exactly when the major numbers agree and its pair of
-- minor and patch number is at least the required pair, in lexicographic order.
pub is_compatible_with_iff :
    (this other : Semver)
    → (is_compatible_with this other ≡ true) ↔ (
        (this.major ≡ other.major)
        × ((other.minor < this.minor) ⊎ ((other.minor ≡ this.minor) × (other.patch ≤ this.patch))))
unfolding is_compatible_with
is_compatible_with_iff this other = ground arith
