-- ===== src/Miniverses/Lifecycle.antt =====
-- Starting, stopping, creating and deleting in app/services/miniverse_service.py. A miniverse object
-- is the row of its id in the session, so that what one function writes the next one reads.
use miniverse_backend.Base.{
  Bool, true, false, not, Option, none, some, List, [], ◌∷◌, ◌++◌, Text, ◌==◌, keep, Result, ok,
  err, Error, Action, ◌>>=◌, ◌>>◌, pure, gets, or_raise, raise_if, modify, exists,
}
use miniverse_backend.Role.{Role}
use miniverse_backend.Models.{Miniverse, MiniverseType, MiniverseUserRole, Tables, User}
use miniverse_backend.Settings.{Settings, get_miniverse_path}
use miniverse_backend.Files.Calls.{mkdir, remove_directory}
use miniverse_backend.Events.{
  user_list_from_user_role_list, miniverse_created_event, miniverse_deleted_event,
  miniverse_updated_event,
}
use miniverse_backend.Miniverses.World.{
  Host, World, call, on_disk, commit, publish, has_miniverse_id, assign, the,
}
use miniverse_backend.Miniverses.Docker.{
  create_container, start_container, stop_container, remove_container, get_container_by_name,
}
use miniverse_backend.Miniverses.Setup.{container_name, container_config, data_path, init_data_path}
use miniverse_backend.Miniverses.Proxy.{update_proxy_config}

abbrev pub with_container : Option Text → Miniverse → Miniverse
with_container c m = record m { container_id = c }

abbrev pub with_started : Bool → Miniverse → Miniverse
with_started b m = record m { started = b }

abbrev pub roles_of : Text → Tables → List MiniverseUserRole
roles_of i t = keep (λ r. r.miniverse_id == i) t.users_roles

-- `DELETE` of a row: the relationships cascade to its roles and its mods.
abbrev pub delete_row : Text → Tables → Tables
delete_row i t = record t {
  miniverses = keep (λ m. not (has_miniverse_id i m)) t.miniverses;
  users_roles = keep (λ r. not (r.miniverse_id == i)) t.users_roles;
  mods = keep (λ m. not (m.miniverse_id == i)) t.mods;
}

-- `MiniverseCreate` of app/schemas/miniverse.py.
pub record MiniverseCreate : Type 0 where
  pub name : Text
  pub type : MiniverseType
  pub description : Option Text
  pub java_version : Option Text
  pub mc_version : Text
  pub subdomain : Option Text
  pub online_mode : Bool
  pub is_on_lite_proxy : Bool

module _ (h : Host) (settings : Settings) where
  unfoldable pub create_miniverse_container : Text → Action (World h) Text
  create_miniverse_container i = do
    m ← the i
    container ← call (create_container h (container_config settings m))
    assign i (with_container (some container))
    commit
    pure container

  -- The end of `start_miniverse`, by whether a container of the name exists.
  abbrev pub start_in : Text → Option Text → Action (World h) Text
  start_in i (some existing_container) = do
    assign i (with_container (some existing_container))
    commit
    call (start_container h existing_container)
    pure existing_container
  start_in i none = do
    container ← create_miniverse_container i
    call (start_container h container)
    has ← gets (λ w. h.has_controller i w.outside)
    raise_if (not has) Error.attribute_error
    call (h.start_controller i)
    publish (miniverse_updated_event i none)
    pure container

  unfoldable pub start_miniverse : Text → Action (World h) Text
  unfolding create_miniverse_container
  start_miniverse i = do
    m ← the i
    init_data_path h settings m
    assign i (with_started true)
    commit
    found ← call (get_container_by_name h (container_name i))
    start_in i found

  -- `except DockerNotFound: pass`
  abbrev pub ignore_not_found : Result (Unit {0}) × World h → Result (Unit {0}) × World h
  ignore_not_found (err Error.docker_not_found, w) = (ok tt, w)
  ignore_not_found (r, w) = (r, w)

  -- The call is made only if the object itself has a container id: the id that was looked up by name
  -- is not used.
  abbrev stop_in : Option Text → Option Text → Action (World h) (Unit {0})
  stop_in none looked_up w = (ok tt, w)
  stop_in (some container_id) looked_up w =
      ignore_not_found (call (stop_container h container_id) w)

  -- Without a container id the container is looked up by its name.
  abbrev looked_up_for : Option Text → Text → Action (World h) (Option Text)
  looked_up_for none name = call (get_container_by_name h name)
  looked_up_for (some container_id) name = pure (some container_id)

  unfoldable pub stop_miniverse_container : Text → Action (World h) (Unit {0})
  stop_miniverse_container i = do
    m ← the i
    looked_up ← looked_up_for m.container_id (container_name i)
    stop_in m.container_id looked_up

  unfoldable pub stop_miniverse : Text → Action (World h) (Unit {0})
  unfolding stop_miniverse_container
  stop_miniverse i = do
    stop_miniverse_container i
    has ← gets (λ w. h.has_controller i w.outside)
    raise_if (not has) Error.attribute_error
    call (h.stop_controller i)
    assign i (λ m. record m { started = false; container_id = none })
    commit
    publish (miniverse_updated_event i none)

  unfoldable pub restart_miniverse : Text → Action (World h) Text
  restart_miniverse i = do stop_miniverse i; start_miniverse i

  -- `miniverses_manager.get_miniverse_controller(miniverse.id).…`
  abbrev on_controller : Text → Action h.State Bool → Action (World h) Bool
  on_controller i act = do
    has ← gets (λ w. h.has_controller i w.outside)
    raise_if (not has) Error.attribute_error
    call act

  unfoldable pub miniverse_set_player_operator : Text → Text → Bool → Action (World h) Bool
  miniverse_set_player_operator i player_id operator =
      on_controller i (h.set_player_operator i player_id operator)

  unfoldable pub miniverse_kick_player : Text → Text → Text → Action (World h) Bool
  miniverse_kick_player i player_id reason = on_controller i (h.kick_player i player_id reason)

  unfoldable pub miniverse_ban_player : Text → Text → Text → Action (World h) Bool
  miniverse_ban_player i player_id reason = on_controller i (h.ban_player i player_id reason)

  unfoldable pub miniverse_unban_player : Text → Text → Action (World h) Bool
  miniverse_unban_player i player_id = on_controller i (h.unban_player i player_id)

  abbrev remove_old_container : Option Text → Action (World h) (Unit {0})
  remove_old_container none = pure tt
  remove_old_container (some container_id) = call (remove_container h container_id)

  unfoldable pub delete_miniverse : Text → Action (World h) (Unit {0})
  delete_miniverse i = do
    m ← the i
    users ← gets (λ w. user_list_from_user_role_list (roles_of i w.session))
    call (h.remove_controller i)
    remove_old_container m.container_id
    on_disk (modify (remove_directory (get_miniverse_path settings i [] false)))
    modify (λ w. record w { session = delete_row i w.session })
    commit
    call (h.delete_miniverse_cache i)
    update_proxy_config h settings
    publish (miniverse_deleted_event i users)

  -- `new_id` is the `uuid4` of the row, `secret` the random management secret. A missing subdomain
  -- breaks the column's `NOT NULL`.
  unfoldable pub create_miniverse : Text → Text → MiniverseCreate → User → Action (World h) Text
  create_miniverse new_id secret data_in creator = do
    subdomain ← or_raise data_in.subdomain Error.integrity_error
    taken ← gets (λ w. exists (has_miniverse_id new_id) w.session.miniverses)
    raise_if taken Error.integrity_error
    let m : Miniverse = record {
      id = new_id;
      name = data_in.name;
      type = data_in.type;
      description = data_in.description;
      container_id = none;
      java_version = data_in.java_version;
      mc_version = data_in.mc_version;
      subdomain = subdomain;
      online_mode = data_in.online_mode;
      is_on_lite_proxy = true;
      allow_bedrock = false;
      started = false;
      management_server_secret = some secret;
    }
    modify λ w. record w {
      session = record (w.session) { miniverses = w.session.miniverses ++ m ∷ [] };
    }
    commit
    let user_role : MiniverseUserRole = record {
      user_id = creator.id;
      miniverse_id = new_id;
      role = Role.admin;
    }
    modify λ w. record w {
      session = record (w.session) { users_roles = w.session.users_roles ++ user_role ∷ [] };
    }
    commit
    on_disk (mkdir (data_path h settings new_id))
    call (h.add_controller m)
    _ ← start_miniverse new_id
    update_proxy_config h settings
    users ← gets (λ w. user_list_from_user_role_list (roles_of new_id w.session))
    publish (miniverse_created_event new_id users)
    pure new_id
