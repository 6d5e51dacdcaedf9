-- ===== src/Miniverses/StartTests.antt =====
-- Starting on a small database.
use miniverse_backend.Base.{◌≡◌, refl, true, some, [], ◌∷◌, str, ◌==◌, ok}
use miniverse_backend.Models.{Tables}
use miniverse_backend.Settings.{get_miniverse_path}
use miniverse_backend.Files.Disk.{path_eq}
use miniverse_backend.Files.Calls.{mkdir, write_file}
use miniverse_backend.Miniverses.Setup.{container_config, init_data_path, init_icon, init_proxy_mod}
use miniverse_backend.Miniverses.Proxy.{start_proxy_containers}
use miniverse_backend.Miniverses.Docker.{
  create_container, start_container, get_container_by_name, catch_all, catch_not_found,
}
use miniverse_backend.Miniverses.Lifecycle.{start_miniverse, create_miniverse_container}
use miniverse_backend.Miniverses.World.{World, row}
use miniverse_backend.Miniverses.Samples.{test_host, settings, world_m, tables, world_on}
use miniverse_backend.Miniverses.Startup.{docker_startup, start_each, start_started}
use miniverse_backend.Miniverses.Started.{IsAccepted, docker_startup_runs}
use miniverse_backend.Miniverses.Running.{IsLastStarted, status, start_miniverse_runs}

abbrev started_m : Tables
started_m = record tables { miniverses = record world_m { started = true } ∷ [] }

abbrev switched_on : World test_host
switched_on = world_on test_host [] started_m

switched_on_there : row (str "m") switched_on.db ≡ some (record world_m { started = true })
unfolding ◌==◌
switched_on_there = refl

starts_up : (docker_startup test_host settings switched_on).0 ≡ ok tt
unfolding docker_startup start_each start_started start_proxy_containers start_miniverse
    create_miniverse_container init_data_path init_icon init_proxy_mod mkdir write_file
    get_miniverse_path path_eq create_container start_container get_container_by_name catch_all
    catch_not_found container_config ◌==◌
starts_up = refl

docker_startup_runs_example :
    IsAccepted test_host (row (str "m") (docker_startup test_host settings switched_on).1.db)
docker_startup_runs_example =
    docker_startup_runs test_host settings (str "m") (record world_m { started = true }) switched_on
      switched_on_there refl starts_up

starts : (start_miniverse test_host settings (str "m") switched_on).0 ≡ ok (str "x")
unfolding start_miniverse create_miniverse_container init_data_path init_icon init_proxy_mod mkdir
    write_file get_miniverse_path path_eq create_container start_container get_container_by_name
    catch_all catch_not_found container_config ◌==◌
starts = refl

start_miniverse_runs_example :
    (status (row (str "m") (start_miniverse test_host settings (str "m") switched_on).1.db)
      ≡ some (true, some (str "x")))
    × IsLastStarted test_host settings
        (str "m")
        switched_on
        (str "x")
        (start_miniverse test_host settings (str "m") switched_on).1.outside
start_miniverse_runs_example =
    start_miniverse_runs test_host settings (str "m") switched_on (str "x") starts
