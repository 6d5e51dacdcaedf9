-- ===== src/Version/Parse.antt =====
-- What `parse_version` makes of well-formed versions.
use miniverse_backend.Base.{
  ℕ, ◌≡◌, refl, Bool, true, none, some, [], ◌∷◌, ◌++◌, Text, str, length, arith,
}
use miniverse_backend.Version.Scan.{
  int, one_or_two, one_or_more, exactly_two, pre_or_rc, literal, at_end,
}
use miniverse_backend.Version.Grammar.{
  ParsedMinecraftVersion, release, prerelease, System, old, new, number, parsed, parse_version,
  release_pattern, old_prerelease_pattern,
}
use miniverse_backend.Version.Digits.{
  IsDigits, three_part, two_part, main_version-three_part, main_version-two_part, digits_all,
}

-- One or two digits.
abbrev pub IsShort : Text → Type 0
IsShort t = IsDigits t × (one_or_two (length t) ≡ true)

abbrev pub release_old : Text → ℕ → ℕ → ℕ → ParsedMinecraftVersion
release_old t major minor patch = parsed t release old major minor patch (number 0) none

-- `major.minor.patch` and `major.minor` of one or two digits each parse to a release of the old
-- system with those numbers, the patch being 0 where it is missing.
pub parse-release :
    (a b c : Text)
    → IsShort a
    → IsShort b
    → IsShort c
    → (parse_version (three_part a b c [])
        ≡ some (release_old (three_part a b c []) (int a) (int b) (int c)))
      × (parse_version (two_part a b []) ≡ some (release_old (two_part a b []) (int a) (int b) 0))
unfolding parse_version release_pattern at_end
parse-release a b c sa sb sc = (
  ground (arith, main_version-three_part one_or_two one_or_two a b sa.0 sb.0 c [] sc.0 tt),
  ground (arith, main_version-two_part one_or_two one_or_two a b sa.0 sb.0 [] tt),
)

-- The words of a prerelease.
pub data Word : Type 0 where
  pre rc : Word

abbrev pub word : Word → Text
word pre = str "pre"
word rc = str "rc"

pre_or_rc-word : (w : Word) (n : Text) → pre_or_rc (word w ++ n) ≡ some (word w, n)
unfolding pre_or_rc
pre_or_rc-word pre n = refl
pre_or_rc-word rc n = refl

-- `-pre1`, `-rc2`: a word and a number
abbrev pub tag : Word → Text → Text
tag w n = b'-' ∷ (word w ++ n)

abbrev pub prerelease_old : Text → ℕ → ℕ → ℕ → Word → ℕ → ParsedMinecraftVersion
prerelease_old t major minor patch w n =
    parsed t prerelease old major minor patch (number n) (some (word w))

module _ (a b c n : Text) (w : Word) (sa : IsShort a) (sb : IsShort b) (sc : IsShort c) where
  -- No release pattern matches a version that goes on with a dash.
  release_pattern-tag :
      (s : System) (fits_major fits : ℕ → Bool)
      → (release_pattern s fits_major fits (three_part a b c (tag w n)) ≡ none)
        × (release_pattern s fits_major fits (two_part a b (tag w n)) ≡ none)
  unfolding release_pattern at_end
  release_pattern-tag s fits_major fits = (
    ground (arith, main_version-three_part fits_major fits a b sa.0 sb.0 c (tag w n) sc.0 refl),
    ground (arith, main_version-two_part fits_major fits a b sa.0 sb.0 (tag w n) (refl, refl)),
  )

  module _ (dn : IsDigits n) (some_digit : one_or_more (length n) ≡ true) where
    old_prerelease_pattern-tag :
        (old_prerelease_pattern (three_part a b c (tag w n))
          ≡ some (prerelease_old (three_part a b c (tag w n)) (int a) (int b) (int c) w (int n)))
        × (old_prerelease_pattern (two_part a b (tag w n))
            ≡ some (prerelease_old (two_part a b (tag w n)) (int a) (int b) 0 w (int n)))
    unfolding old_prerelease_pattern at_end literal
    old_prerelease_pattern-tag = (
      ground (
        arith,
        main_version-three_part one_or_two one_or_two a b sa.0 sb.0 c (tag w n) sc.0 refl,
        pre_or_rc-word w n,
        digits_all one_or_more n dn,
      ),
      ground (
        arith,
        main_version-two_part one_or_two one_or_two a b sa.0 sb.0 (tag w n) (refl, refl),
        pre_or_rc-word w n,
        digits_all one_or_more n dn,
      ),
    )

-- A prerelease of the old system, `major.minor.patch-word number` with no blank, parses to its
-- numbers, its word as the suffix and its number as the type version.
pub parse-prerelease :
    (a b c n : Text) (w : Word)
    → IsShort a
    → IsShort b
    → IsShort c
    → IsDigits n
    → one_or_more (length n) ≡ true
    → (parse_version (three_part a b c (tag w n))
        ≡ some (prerelease_old (three_part a b c (tag w n)) (int a) (int b) (int c) w (int n)))
      × (parse_version (two_part a b (tag w n))
          ≡ some (prerelease_old (two_part a b (tag w n)) (int a) (int b) 0 w (int n)))
unfolding parse_version
parse-prerelease a b c n w sa sb sc dn some_digit = ground (
  arith,
  release_pattern-tag a b c n w sa sb sc old one_or_two one_or_two,
  release_pattern-tag a b c n w sa sb sc new exactly_two one_or_more,
  old_prerelease_pattern-tag a b c n w sa sb sc dn some_digit,
)
