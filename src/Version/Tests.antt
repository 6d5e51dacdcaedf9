-- ===== src/Version/Tests.antt =====
-- The comparison of Minecraft versions on some of them.
use miniverse_backend.Base.{◌≡◌, refl, ◌≢◌, inr, none, some, List, [], Text, str, Result, ok, arith}
use miniverse_backend.Base.Int.{pos, negsuc}
use miniverse_backend.Version.Scan.{int}
use miniverse_backend.Version.Grammar.{
  parse_version, release_pattern, main_version, old_prerelease_pattern, new_prerelease_pattern,
  old_snapshot_pattern, new_snapshot_pattern,
}
use miniverse_backend.Version.Digits.{IsDigits}
use miniverse_backend.Version.Compare.{MinecraftVersion, compare_versions}
use miniverse_backend.Version.Parse.{IsShort, release_old, pre, rc, parse-release}
use miniverse_backend.Version.Order.{negate_result, compare_versions_antisym, compare_releases}

-- `1`, `20`, `4` and `8`
abbrev one : Text
one = str "1"

abbrev twenty : Text
twenty = str "20"

abbrev four : Text
four = str "4"

abbrev eight : Text
eight = str "8"

abbrev no_versions : Result (List MinecraftVersion)
no_versions = ok []

one-IsShort : IsShort one
one-IsShort = ((refl, tt), refl)

twenty-IsShort : IsShort twenty
twenty-IsShort = ((refl, (refl, tt)), refl)

four-IsShort : IsShort four
four-IsShort = ((refl, tt), refl)

eight-IsDigits : IsDigits eight
eight-IsDigits = (refl, tt)

eight-IsShort : IsShort eight
eight-IsShort = (eight-IsDigits, refl)

compare_releases_example :
    (compare_versions no_versions (str "1.20.4") (str "1.20.8") ≡ ok (some (negsuc 0)))
    × (compare_versions no_versions (str "1.20.8") (str "1.20.4") ≡ ok (some (pos 1)))
unfolding int
compare_releases_example =
    compare_releases no_versions one twenty four one twenty eight one-IsShort twenty-IsShort
      four-IsShort one-IsShort twenty-IsShort eight-IsShort (inr (refl, inr (refl, omega arith)))

pre-ne-rc : pre ≢ rc
pre-ne-rc = ground arith

other : str "1.20.4" ≢ str "x"
other = ground arith

-- No version at all.
nonsense : parse_version (str "x") ≡ none
unfolding parse_version release_pattern main_version old_prerelease_pattern new_prerelease_pattern
    old_snapshot_pattern new_snapshot_pattern
nonsense = refl

compare_versions_antisym_example :
    compare_versions no_versions (str "1.20.4") (str "1.20.8")
    ≡ negate_result (compare_versions no_versions (str "1.20.8") (str "1.20.4"))
compare_versions_antisym_example =
    compare_versions_antisym no_versions (str "1.20.4") (str "1.20.8")
      (release_old (str "1.20.4") (int one) (int twenty) (int four))
      (release_old (str "1.20.8") (int one) (int twenty) (int eight))
      (parse-release one twenty four one-IsShort twenty-IsShort four-IsShort).0
      (parse-release one twenty eight one-IsShort twenty-IsShort eight-IsShort).0
