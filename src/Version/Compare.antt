-- ===== src/Version/Compare.antt =====
-- The comparison functions of app/services/minecraft_service.py. The list of versions that
-- `get_minecraft_versions` returns, or its failure, is an argument. A date is a number of seconds.
use miniverse_backend.Base.{
  ℕ, Bool, true, false, ◌||◌, Option, none, some, List, Text, str, ◌==◌, first, ltb, eqb, Result,
  ok, err, Error, if◌then◌else◌,
}
use miniverse_backend.Base.Int.{ℤ, pos, sub_ℕ, bit}
use miniverse_backend.Version.Scan.{int, digits, one_or_more, pre_or_rc, at_end, ◌>>=◌}
use miniverse_backend.Version.Grammar.{
  ParsedMinecraftVersion, VersionType, release, prerelease, snapshot, old, new, parse_version,
}

-- `MinecraftVersionType` of app/enums/minecraft_version.py
pub data MinecraftVersionType : Type 0 where
  release_type snapshot_type alpha_type beta_type : MinecraftVersionType

-- `MinecraftVersion` of app/schemas/minecraft.py
pub record MinecraftVersion : Type 0 where
  pub version : Text
  pub version_type : MinecraftVersionType
  pub date : ℕ
  pub major : Bool

-- `(a > b) - (a < b)`
abbrev pub three_way : ℕ → ℕ → ℤ
three_way a b = sub_ℕ (bit (ltb b a)) (bit (ltb a b))

-- The callers leave the last two arguments at their default 0.
unfoldable pub compare_main_versions : ℕ → ℕ → ℕ → ℕ → ℕ → ℕ → ℕ → ℕ → ℤ
compare_main_versions major1 minor1 patch1 major2 minor2 patch2 type_version1 type_version2 =
    if eqb major1 major2
    then (if eqb minor1 minor2
        then (if eqb patch1 patch2
            then (if eqb type_version1 type_version2
                then pos 0
                else three_way type_version1 type_version2)
            else three_way patch1 patch2)
        else three_way minor1 minor2)
    else three_way major1 major2

-- `re.match(r"^(pre|rc)(\d+)$", id)`: is group 1 "rc", and group 2
unfoldable pub prerelease_identifier : Text → Option (Bool × Text)
unfolding pre_or_rc digits at_end
prerelease_identifier id = do
  (word, t) ← pre_or_rc id
  (run, rest) ← digits one_or_more t
  if at_end rest then some (word == str "rc", run) else none

-- After the match: `None.group(1)` raises.
abbrev compare_identifiers : Option (Bool × Text) → Option (Bool × Text) → Result (Option ℤ)
compare_identifiers none _ = err Error.attribute_error
compare_identifiers (some _) none = err Error.attribute_error
compare_identifiers (some (rc1, value1)) (some (rc2, value2)) =
    if eqb (bit rc1) (bit rc2)
    then ok (some (sub_ℕ (int value1) (int value2)))
    else ok (some (three_way (bit rc1) (bit rc2)))

unfoldable pub compare_prerelease_identifiers : Text → Text → Result (Option ℤ)
compare_prerelease_identifiers id1 id2 =
    if id1 == id2
    then ok (some (pos 0))
    else compare_identifiers (prerelease_identifier id1) (prerelease_identifier id2)

abbrev pub date_of : Text → List MinecraftVersion → Option MinecraftVersion
date_of v = first (λ m. m.version == v)

abbrev compare_dates : Option MinecraftVersion → Option MinecraftVersion → Option ℤ
compare_dates none _ = none
compare_dates (some a) none = none
compare_dates (some a) (some b) = some (three_way a.date b.date)

unfoldable pub compare_by_publish_date :
    Result (List MinecraftVersion) → Text → Text → Result (Option ℤ)
compare_by_publish_date (err e) v1 v2 = err e
compare_by_publish_date (ok all_versions) v1 v2 =
    ok (compare_dates (date_of v1 all_versions) (date_of v2 all_versions))

-- `compare_prerelease_identifiers(v1.suffix, v2.suffix)`: `re.match` raises on `None`.
abbrev pub compare_suffixes : Option Text → Option Text → Result (Option ℤ)
compare_suffixes none none = ok (some (pos 0))
compare_suffixes none (some _) = err Error.type_error
compare_suffixes (some _) none = err Error.type_error
compare_suffixes (some id1) (some id2) = compare_prerelease_identifiers id1 id2

abbrev pub is_old_snapshot : ParsedMinecraftVersion → Bool
is_old_snapshot p = elim p.type [
  | snapshot ↦ elim p.system [ old ↦ true | new ↦ false ]
  | _ ↦ false
]

-- The tests on the two types, in their order.
abbrev pub compare_types :
    VersionType → VersionType → Result (Option ℤ) → Result (Option ℤ) → Result (Option ℤ)
compare_types release prerelease suffixes dates = ok (some (pos 1))
compare_types prerelease release suffixes dates = ok (some (ℤ.negsuc 0))
compare_types prerelease prerelease suffixes dates = suffixes
compare_types _ _ suffixes dates = dates

abbrev pub unless_zero : ℤ → Result (Option ℤ) → Result (Option ℤ)
unless_zero (pos ℕ.zero) rest = rest
unless_zero other rest = ok (some other)

unfoldable pub compare_parsed :
    ParsedMinecraftVersion → ParsedMinecraftVersion → Result (Option ℤ) → Result (Option ℤ)
compare_parsed p q dates =
    if is_old_snapshot p || is_old_snapshot q
    then dates
    else unless_zero (compare_main_versions p.major p.minor p.patch q.major q.minor q.patch 0 0)
        (compare_types p.type q.type (compare_suffixes p.suffix q.suffix) dates)

-- `if v2_parsed is None or v2_parsed is None`: only the second version is tested.
abbrev compare_options :
    Option ParsedMinecraftVersion
    → Option ParsedMinecraftVersion
    → Result (Option ℤ)
    → Result (Option ℤ)
compare_options _ none dates = ok none
compare_options none (some q) dates = err Error.attribute_error
compare_options (some p) (some q) dates = compare_parsed p q dates

unfoldable pub compare_versions : Result (List MinecraftVersion) → Text → Text → Result (Option ℤ)
compare_versions versions v1 v2 =
    if v1 == v2
    then ok (some (pos 0))
    else compare_options (parse_version v1) (parse_version v2)
        (compare_by_publish_date versions v1 v2)
