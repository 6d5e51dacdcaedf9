-- ===== src/Miniverses/Proxy.antt =====
-- app/services/proxy_service.py: the routes of the Minecraft router.
use miniverse_backend.Base.{
  true, false, Option, none, some, List, [], ◌∷◌, ◌++◌, Text, str, Action, ◌>>=◌, ◌>>◌, pure, gets,
}
use miniverse_backend.Base.Dict.{Dict, insert, lookup}
use miniverse_backend.Models.{Miniverse}
use miniverse_backend.Settings.{Settings}
use miniverse_backend.Files.Path.{join}
use miniverse_backend.Files.Calls.{mkdir, write_file}
use miniverse_backend.Miniverses.World.{Host, World, ContainerConfig, call, on_disk}
use miniverse_backend.Miniverses.Docker.{
  create_container, start_container, stop_container, kill_container, get_container_by_name,
}

abbrev pub Routes : Type 0
Routes = Dict Text

abbrev pub get : Text → Routes → Option Text
get k d = lookup k d

-- `f"{m.subdomain}.{settings.DOMAIN_NAME}"` and `f"miniverse-{m.id}:25565"`
abbrev pub route_key : Settings → Text → Text
route_key settings subdomain = subdomain ++ (b'.' ∷ settings.domain_name)

abbrev pub route_target : Text → Text
route_target miniverse_id = str "miniverse-" ++ (miniverse_id ++ str ":25565")

unfoldable pub routes_onto : Settings → Routes → List Miniverse → Routes
routes_onto settings d [] = d
routes_onto settings d (m ∷ ms) =
    routes_onto settings (insert (route_key settings m.subdomain) (route_target m.id) d) ms

-- The mappings of the dictionary that `generate_router_routes` returns.
unfoldable pub generate_router_routes : Settings → List Miniverse → Routes
unfolding routes_onto
generate_router_routes settings miniverse_list = routes_onto settings [] miniverse_list

abbrev reload_router : {h : Host} → Option Text → Action (World h) (Unit {0})
reload_router none = pure tt
reload_router {h} (some id) = call (kill_container h id (str "SIGHUP"))

abbrev webhook_url : Option Text → Text
webhook_url none = str "http://miniverse-api:8000/api-internal/mc-router"
webhook_url (some proxy) = str "http://host.docker.internal:8000/api-internal/mc-router"

-- `str(path)` of an absolute path
abbrev pub text_of_file : List Text → Text
text_of_file path = b'/' ∷ join path

module _ (h : Host) (settings : Settings) where
  abbrev pub router_config : ContainerConfig
  router_config = record {
    image = str "itzg/mc-router:latest";
    name = str "miniverse-router";
    network = settings.docker_network_name;
    volumes =
        (text_of_file (settings.host_data_path ++ str "proxy" ∷ []), str "/config", str "ro") ∷ [];
    ports = (str "25565/tcp", 25_565) ∷ [];
    command =
        str "--routes-config"
        ∷ str "/config/routes.json"
        ∷ str "--routes-config-watch"
        ∷ str "--connection-rate-limit"
        ∷ str "10"
        ∷ str "--webhook-url"
        ∷ webhook_url settings.proxy_socks
        ∷ str "--webhook-require-user"
        ∷ [];
    environment = [];
    tty = false;
    stdin_open = false;
    auto_remove = true;
  }

  abbrev start_router : Option Text → Action (World h) (Unit {0})
  start_router (some id) = pure tt
  start_router none = do
    _ ← call (create_container h router_config)
    call (start_container h (str "miniverse-router"))

  unfoldable pub start_proxy_containers : Action (World h) (Unit {0})
  start_proxy_containers = do
    router_container ← call (get_container_by_name h (str "miniverse-router"))
    start_router router_container

  unfoldable pub update_proxy_config : Action (World h) (Unit {0})
  update_proxy_config = do
    miniverse_list ← gets (λ w. w.session.miniverses)
    let directory = settings.data_path ++ str "proxy" ∷ []
    on_disk (mkdir directory)
    on_disk (
        write_file (directory ++ str "routes.json" ∷ [])
          (h.dumps_routes (generate_router_routes settings miniverse_list)))
    router_container ← call (get_container_by_name h (str "miniverse-router"))
    reload_router router_container

  abbrev stop_router : Option Text → Action (World h) (Unit {0})
  stop_router none = pure tt
  stop_router (some id) = call (stop_container h id)

  unfoldable pub stop_proxy_containers : Action (World h) (Unit {0})
  stop_proxy_containers = do
    proxy_container ← call (get_container_by_name h (str "miniverse-router"))
    stop_router proxy_container
