-- ===== src/Miniverses/Tests.antt =====
-- Miniverses on a small database.
use miniverse_backend.Base.{
  ◌≡◌, refl, ◌≢◌, true, none, some, [], ◌∷◌, str, ◌==◌, ltb, ok, err, Error, arith,
}
use miniverse_backend.Role.{Role, role_value}
use miniverse_backend.Models.{Miniverse, get_miniverse_role}
use miniverse_backend.Miniverses.Samples.{
  test_host, settings, carol, carols_role, world_m, world_n, tables, w,
}
use miniverse_backend.Miniverses.World.{row}
use miniverse_backend.Miniverses.Proxy.{get, generate_router_routes}
use miniverse_backend.Miniverses.Lifecycle.{
  create_miniverse_container, start_miniverse, stop_miniverse, stop_miniverse_container,
}
use miniverse_backend.Settings.{get_miniverse_path}
use miniverse_backend.Files.Disk.{path_eq}
use miniverse_backend.Files.Calls.{mkdir, write_file}
use miniverse_backend.Miniverses.Setup.{container_config, init_data_path, init_icon, init_proxy_mod}
use miniverse_backend.Miniverses.Docker.{
  create_container, start_container, get_container_by_name, catch_all, catch_not_found,
}
use miniverse_backend.Miniverses.Uuid.{is_uuid4}
use miniverse_backend.Miniverses.Api
use miniverse_backend.Miniverses.Api.{find_user, handle_miniverse, set_user_role_handler}
use miniverse_backend.Miniverses.Guards.{
  role_in, IsOther, handle_miniverse_refuses, set_user_role_grants,
}
use miniverse_backend.Miniverses.Update.{
  Field, MiniverseData, fields_to_update, update_field, update_fields, is_changed, is_used,
  set_field,
}
use miniverse_backend.Miniverses.Renames.{IsDistinct, update_fields-IsDistinct}
use miniverse_backend.Miniverses.Routes.{last_owner, get-generate_router_routes}

user_below_admin :
    ltb (role_value (get_miniverse_role (carols_role ∷ []) (str "m"))) (role_value Role.admin)
    ≡ true
unfolding role_value get_miniverse_role ◌==◌
user_below_admin = refl

handle_miniverse_refuses_example :
    handle_miniverse test_host settings carol (carols_role ∷ []) (Api.delete_miniverse (str "m")) w
    ≡ (err Error.not_authorized, w)
handle_miniverse_refuses_example =
    handle_miniverse_refuses test_host settings carol (carols_role ∷ [])
      (Api.delete_miniverse (str "m")) w user_below_admin

carol-IsOther : IsOther (str "c") (str "m") (str "d") (str "m")
unfolding ◌==◌
carol-IsOther = refl

carol_found : find_user (str "carol") tables.users ≡ some carol
unfolding find_user is_uuid4 ◌==◌
carol_found = refl

set_user_role_grants_example :
    ((set_user_role_handler test_host settings carol [] (str "m") (str "carol") Role.admin w).0
      ≡ ok Api.nothing)
    × (role_in
          (str "c")
          (str "m")
          (set_user_role_handler test_host settings carol []
            (str "m")
            (str "carol")
            Role.admin
            w).1.db.users_roles
        ≡ Role.admin)
    × (role_in
          (str "d")
          (str "m")
          (set_user_role_handler test_host settings carol []
            (str "m")
            (str "carol")
            Role.admin
            w).1.db.users_roles
        ≡ role_in (str "d") (str "m") w.session.users_roles)
set_user_role_grants_example =
    set_user_role_grants test_host settings carol [] (str "m") (str "carol") Role.admin carol w
      (str "d") (str "m") carol-IsOther carol_found

starts : (start_miniverse test_host settings (str "m") w).0 ≡ ok (str "x")
unfolding start_miniverse create_miniverse_container init_data_path init_icon init_proxy_mod mkdir
    write_file get_miniverse_path path_eq create_container start_container get_container_by_name
    catch_all catch_not_found container_config ◌==◌
starts = refl

stops : (stop_miniverse test_host settings (str "m") w).0 ≡ ok tt
unfolding stop_miniverse stop_miniverse_container get_container_by_name catch_all ◌==◌
stops = refl

m-ne-n : str "m" ≢ str "n"
m-ne-n = ground arith

m_there : row (str "m") tables ≡ some world_m
unfolding ◌==◌
m_there = refl

abbrev changes : MiniverseData
changes = record {
  name = some (str "new");
  description = none;
  subdomain = none;
  java_version = some (str "21");
  mc_version = none;
  allow_bedrock = none;
  online_mode = none;
}

tables-IsDistinct : IsDistinct tables.miniverses
unfolding ◌==◌
tables-IsDistinct = ((refl, (refl, tt)), (refl, (refl, tt)), (refl, (refl, tt)))

update_fields-IsDistinct_example :
    IsDistinct (update_fields test_host (str "m") changes fields_to_update w).1.session.miniverses
update_fields-IsDistinct_example =
    update_fields-IsDistinct test_host (str "m") changes fields_to_update w tables-IsDistinct

abbrev changed_m : Miniverse
changed_m = record world_m { name = str "new"; java_version = some (str "21") }

updated :
    (update_fields test_host (str "m") changes fields_to_update w).0
    ≡ ok (Field.name ∷ Field.java_version ∷ [])
unfolding update_fields update_field is_changed is_used set_field ◌==◌
updated = refl

updated_row :
    row (str "m") (update_fields test_host (str "m") changes fields_to_update w).1.session
    ≡ some changed_m
unfolding update_fields update_field is_changed is_used set_field ◌==◌
updated_row = refl

get-generate_router_routes_example :
    get (str "s.net") (generate_router_routes settings (world_m ∷ world_n ∷ []))
    ≡ last_owner settings (str "s.net") (world_m ∷ world_n ∷ []) none
get-generate_router_routes_example =
    get-generate_router_routes settings (str "s.net") (world_m ∷ world_n ∷ [])
