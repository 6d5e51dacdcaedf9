-- ===== src/Version/Grammar.antt =====
-- The six patterns of app/services/minecraft_service.py, `ParsedMinecraftVersion` and `parse_version`.
use miniverse_backend.Base.{ℕ, Bool, Option, none, some, Text, str, if◌then◌else◌}
use miniverse_backend.Version.Scan.{
  ◌>>=◌, or_else, int, one_or_two, exactly_two, one_or_more, digits, literal, lower, pre_or_rc,
  at_end, matched,
}

pub data VersionType : Type 0 where
  release prerelease snapshot : VersionType

pub data System : Type 0 where
  old new : System

-- The field `type_version` holds an `int`, but the letter of an old snapshot.
pub data TypeVersion : Type 0 where
  number : ℕ → TypeVersion
  letter : ℕ → TypeVersion

pub record ParsedMinecraftVersion : Type 0 where
  pub value : Text
  pub type : VersionType
  pub system : System
  pub major : ℕ
  pub minor : ℕ
  pub patch : ℕ
  pub type_version : TypeVersion
  pub suffix : Option Text

-- `(?:\.(?P<patch>…))?`, with `int(match.group('patch') or 0)`
unfoldable pub patch_group : (ℕ → Bool) → Text → ℕ × Text
unfolding literal digits
patch_group fits t = elim (literal (str ".") t >>= digits fits) [
  | none ↦ (0, t)
  | some (run, rest) ↦ (int run, rest)
]

-- `(?P<major>…)\.(?P<minor>…)(?:\.(?P<patch>…))?`
unfoldable pub main_version : (ℕ → Bool) → (ℕ → Bool) → Text → Option (ℕ × ℕ × ℕ × Text)
unfolding patch_group
main_version fits_major fits t = do
  (major, t1) ← digits fits_major t
  t2 ← literal (str ".") t1
  (minor, t3) ← digits fits t2
  let (patch, t4) = patch_group fits t3
  some (int major, int minor, patch, t4)

-- The record, if the pattern has reached its end.
abbrev finish : Text → ParsedMinecraftVersion → Option ParsedMinecraftVersion
finish rest p = if at_end rest then some p else none

abbrev pub parsed :
    Text → VersionType → System → ℕ → ℕ → ℕ → TypeVersion → Option Text → ParsedMinecraftVersion
parsed t type system major minor patch type_version suffix = record {
  value = matched t;
  type = type;
  system = system;
  major = major;
  minor = minor;
  patch = patch;
  type_version = type_version;
  suffix = suffix;
}

unfoldable pub release_pattern :
    System → (ℕ → Bool) → (ℕ → Bool) → Text → Option ParsedMinecraftVersion
release_pattern system fits_major fits t = do
  (a, b, c, rest) ← main_version fits_major fits t
  finish rest (parsed t release system a b c (number 0) none)

unfoldable pub old_prerelease_pattern : Text → Option ParsedMinecraftVersion
old_prerelease_pattern t = do
  (a, b, c, t1) ← main_version one_or_two one_or_two t
  t2 ← literal (str "-") t1
  (suffix, t3) ← pre_or_rc t2
  (run, rest) ← digits one_or_more t3
  finish rest (parsed t prerelease old a b c (number (int run)) (some suffix))

unfoldable pub new_prerelease_pattern : Text → Option ParsedMinecraftVersion
new_prerelease_pattern t = do
  (a, b, c, t1) ← main_version exactly_two one_or_more t
  t2 ← literal (str "-") t1
  (suffix, t3) ← pre_or_rc t2
  t4 ← literal (str "-") t3
  (run, rest) ← digits one_or_more t4
  finish rest (parsed t prerelease new a b c (number (int run)) (some suffix))

unfoldable pub old_snapshot_pattern : Text → Option ParsedMinecraftVersion
old_snapshot_pattern t = do
  (year, t1) ← digits exactly_two t
  t2 ← literal (str "w") t1
  (week, t3) ← digits exactly_two t2
  (c, rest) ← lower t3
  finish rest (parsed t snapshot old (int year) (int week) 0 (letter c) none)

unfoldable pub new_snapshot_pattern : Text → Option ParsedMinecraftVersion
new_snapshot_pattern t = do
  (a, b, c, t1) ← main_version exactly_two one_or_more t
  t2 ← literal (str "-snapshot-") t1
  (run, rest) ← digits one_or_more t2
  finish rest (parsed t snapshot new a b c (number (int run)) (some (str "snapshot")))

-- The patterns in the order in which they are tried.
unfoldable pub parse_version : Text → Option ParsedMinecraftVersion
parse_version t = or_else (release_pattern old one_or_two one_or_two t) (
    or_else (release_pattern new exactly_two one_or_more t) (
      or_else (old_prerelease_pattern t) (
        or_else (new_prerelease_pattern t)
          (or_else (old_snapshot_pattern t) (new_snapshot_pattern t)))))
