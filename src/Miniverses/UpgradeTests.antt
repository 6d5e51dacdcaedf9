-- ===== src/Miniverses/UpgradeTests.antt =====
-- Changes of the version, of the mods, and the start-up, on a small database.
use miniverse_backend.Base.{
  ◌++◌, ◌≡◌, refl, ap, inr, arith, true, false, some, [], ◌∷◌, str, ◌==◌, ok, err, Error,
}
use miniverse_backend.Models.{Miniverse, MiniverseType}
use miniverse_backend.Version.Scan.{int, span, digits, literal, at_end, matched}
use miniverse_backend.Version.Grammar.{
  patch_group, main_version, release_pattern, old_prerelease_pattern, new_prerelease_pattern,
  old_snapshot_pattern, new_snapshot_pattern, parse_version,
}
use miniverse_backend.Settings.{get_miniverse_path}
use miniverse_backend.Files.Disk.{path_eq}
use miniverse_backend.Files.Calls.{mkdir, write_file}
use miniverse_backend.Miniverses.Setup.{container_config, init_data_path, init_icon, init_proxy_mod}
use miniverse_backend.Miniverses.Docker.{
  create_container, start_container, get_container_by_name, catch_all, catch_not_found,
}
use miniverse_backend.Miniverses.Lifecycle.{
  start_miniverse, stop_miniverse, create_miniverse_container, stop_miniverse_container,
}
use miniverse_backend.Version.Parse.{IsShort}
use miniverse_backend.Version.Order.{IsBefore, compare_releases}
use miniverse_backend.Version.Compare.{compare_versions, compare_parsed, compare_main_versions}
use miniverse_backend.Mods.Samples.{tables_with_mod, installed}
use miniverse_backend.Mods.Queries.{list_project_versions, compatible_versions}
use miniverse_backend.Mods.Updates.{mod_updates}
use miniverse_backend.Miniverses.World.{World, row}
use miniverse_backend.Miniverses.Samples.{test_host, settings, world_m, tables, world_on}
use miniverse_backend.Miniverses.Upgrade.{
  accept_comparison, check_version, restart_with, update_miniverse_game_version,
}
use miniverse_backend.Miniverses.Upgrades.{
  inside, version_of, unsafe_update_refused, update_game_version_runs,
}
use miniverse_backend.Miniverses.Changes
use miniverse_backend.Miniverses.Unsafe.{GivesNone, answer, turn_of}
use miniverse_backend.Miniverses.World.{mods_of}

abbrev fabric : Miniverse
fabric = record world_m { type = MiniverseType.fabric; container_id = some (str "c") }

abbrev modded : World test_host
modded = world_on test_host [] (record tables_with_mod { miniverses = fabric ∷ [] })

fabric_there : row (str "m") modded.session ≡ some fabric
unfolding ◌==◌
fabric_there = refl

other_version : (str "1.20.4" == str "1.20.5") ≡ false
unfolding ◌==◌
other_version = refl

one-IsShort : IsShort (str "1")
one-IsShort = ((refl, tt), refl)

twenty-IsShort : IsShort (str "20")
twenty-IsShort = ((refl, (refl, tt)), refl)

four-IsShort : IsShort (str "4")
four-IsShort = ((refl, tt), refl)

five-IsShort : IsShort (str "5")
five-IsShort = ((refl, tt), refl)

before :
    IsBefore
      (int (str "1"))
      (int (str "20"))
      (int (str "4"))
      (int (str "1"))
      (int (str "20"))
      (int (str "5"))
unfolding int
before = inr (refl, inr (refl, omega arith))

later_version :
    accept_comparison (compare_versions (err Error.http_error) (str "1.20.4") (str "1.20.5"))
    ≡ ok tt
unfolding accept_comparison
later_version =
    ap accept_comparison
      (compare_releases (err Error.http_error) (str "1") (str "20") (str "4") (str "1") (str "20")
        (str "5") one-IsShort twenty-IsShort four-IsShort one-IsShort twenty-IsShort five-IsShort
        before).0

-- Modrinth cannot be reached.
nothing_given : GivesNone (str "1.20.5") installed (
    answer test_host fabric
      (str "1.20.5")
      installed
      (turn_of test_host fabric (str "1.20.5") [] modded))
unfolding mod_updates compatible_versions list_project_versions ◌==◌
nothing_given = tt

only_mod : mods_of fabric.id modded.session ≡ [] ++ installed ∷ []
unfolding ◌==◌
only_mod = refl

unsafe_update_refused_example :
    ((update_miniverse_game_version test_host settings (str "m") (str "1.20.5") modded).0
      ≡ err Error.validation)
    × (inside (update_miniverse_game_version test_host settings (str "m") (str "1.20.5") modded).1
        ≡ inside modded)
unsafe_update_refused_example =
    unsafe_update_refused test_host settings (str "m") (str "1.20.5") modded fabric fabric_there []
      [] installed other_version refl later_version only_mod tt nothing_given

abbrev plain : World test_host
plain = world_on test_host [] tables

upgraded :
    (update_miniverse_game_version test_host settings (str "m") (str "1.20.5") plain).0 ≡ ok tt
unfolding update_miniverse_game_version check_version accept_comparison restart_with
    compare_versions compare_parsed compare_main_versions patch_group main_version release_pattern
    old_prerelease_pattern new_prerelease_pattern old_snapshot_pattern new_snapshot_pattern
    parse_version span int digits literal at_end matched stop_miniverse stop_miniverse_container
    start_miniverse create_miniverse_container init_data_path init_icon init_proxy_mod mkdir
    write_file get_miniverse_path path_eq create_container start_container get_container_by_name
    catch_all catch_not_found container_config ◌==◌
upgraded = refl

update_game_version_runs_example :
    version_of (
      row
        (str "m")
        (update_miniverse_game_version test_host settings (str "m") (str "1.20.5") plain).1.db)
    ≡ some (str "1.20.5", true)
update_game_version_runs_example =
    update_game_version_runs test_host settings (str "m") (str "1.20.5") plain upgraded
