-- ===== src/Tests/Versions.antt =====
-- Version specifications at concrete texts.
use agent_features.Common.{◌≡◌, refl, ◌↔◌, true, false, length}
use agent_features.Common.Text.{codes, split}
use agent_features.Catalog.Version.{triple, match_version}
use agent_features.Catalog.Version.Ranges.{AtMost, SameRelease}
use agent_features.Catalog.Version.Exact.{match_version-equals}
use agent_features.Catalog.Version.Meaning.{tilde, match_version-Means_iff}
use agent_features.Tests.Data.{program}

runs :
    (match_version (codes "1.9.3") (codes " ^1.2") ≡ true)
    × (match_version (codes "2.0.0") (codes "^1.2") ≡ false)
    × (match_version (codes "1.2.9") (codes "~1.2.3") ≡ true)
    × (match_version (codes "1.3.0") (codes "~1.2.3") ≡ false)
    × (match_version (codes "1.3.0-rc1") (codes "1.3") ≡ true)
    × (match_version (codes "1.3.0") (codes ">=1.4") ≡ false)
unfolding program
runs = (refl, refl, refl, refl, refl, refl)

match_version-equals_example : (triple (codes "0.0.0")).major ≡ 0
match_version-equals_example =
    match_version-equals (codes "0.0.0") (codes "=0.0") (codes "0.0") (unfold program in refl) refl
      (unfold program in refl)

match_version-Means_iff_example : (match_version (codes "1.2.9") (codes " ~1.2.3") ≡ true) ↔ (
    AtMost (triple (codes "1.2.3")) (triple (codes "1.2.9"))
    × SameRelease
        (length (split b'.' (codes "1.2.3")))
        (triple (codes "1.2.3"))
        (triple (codes "1.2.9")))
match_version-Means_iff_example =
    match_version-Means_iff (codes "1.2.9") (codes " ~1.2.3") (tilde (codes "1.2.3")) tt
      (unfold program in refl)
