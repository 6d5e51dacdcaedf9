-- ===== src/Miniverses/Setup.antt =====
-- `init_data_path` of app/services/miniverse_service.py, which prepares the data directory, and what
-- `create_miniverse_container` asks the daemon for.
use miniverse_backend.Base.{
  Bool, true, false, ◌&&◌, Option, none, some, [], ◌∷◌, ◌++◌, Text, str, Action, ◌>>=◌, ◌>>◌, pure,
  gets, if◌then◌else◌,
}
use miniverse_backend.Models.{Miniverse, MiniverseType}
use miniverse_backend.Settings.{Settings, get_miniverse_path}
use miniverse_backend.Files.Path.{FilePath}
use miniverse_backend.Files.Disk.{path_exists}
use miniverse_backend.Files.Calls.{mkdir, write_file}
use miniverse_backend.Mods.Service.{automatic_mod_install}
use miniverse_backend.Miniverses.World.{Host, World, ContainerConfig, on_disk}
use miniverse_backend.Miniverses.Proxy.{text_of_file}

-- `"miniverse-" + miniverse.id`
abbrev pub container_name : Text → Text
container_name miniverse_id = str "miniverse-" ++ miniverse_id

-- `miniverse.type.value.upper()`
abbrev type_value : MiniverseType → Text
type_value MiniverseType.vanilla = str "VANILLA"
type_value MiniverseType.paper = str "PAPER"
type_value MiniverseType.fabric = str "FABRIC"
type_value MiniverseType.forge = str "FORGE"
type_value MiniverseType.neo_forge = str "NEOFORGE"

-- `java_version if java_version else "latest"`
abbrev image_tag : Option Text → Text
image_tag none = str "latest"
image_tag (some []) = str "latest"
image_tag (some (c ∷ t)) = c ∷ t

unfoldable pub container_config : Settings → Miniverse → ContainerConfig
unfolding get_miniverse_path
container_config settings m = record {
  image = str "itzg/minecraft-server:" ++ image_tag m.java_version;
  name = container_name m.id;
  network = settings.docker_network_name;
  volumes =
      (
        text_of_file (get_miniverse_path settings m.id (str "data" ∷ []) true),
        str "/data",
        str "rw",
      )
      ∷ [];
  ports = [];
  command = [];
  environment =
      (str "EULA", some (str "TRUE"))
      ∷ (str "TYPE", some (type_value m.type))
      ∷ (str "VERSION", some m.mc_version)
      ∷ (str "MOTD", some (str "Welcome to " ++ (m.name ++ str "!")))
      ∷ (
        str "ONLINE_MODE",
        some (if m.is_on_lite_proxy && m.online_mode then str "TRUE" else str "FALSE"),
      )
      ∷ (str "SERVER_PORT", some (str "25565"))
      ∷ (str "MAX_MEMORY", some (str "90%"))
      ∷ (str "MANAGEMENT_SERVER_ENABLED", some (str "TRUE"))
      ∷ (str "MANAGEMENT_SERVER_TLS_ENABLED", some (str "FALSE"))
      ∷ (str "MANAGEMENT_SERVER_HOST", some (str "0.0.0.0"))
      ∷ (str "MANAGEMENT_SERVER_PORT", some (str "25585"))
      ∷ (str "MANAGEMENT_SERVER_SECRET", m.management_server_secret)
      ∷ [];
  tty = true;
  stdin_open = true;
  auto_remove = true;
}

module _ (h : Host) (settings : Settings) where
  -- `get_miniverse_path(miniverse.id, "data")`
  abbrev pub data_path : Text → FilePath
  data_path miniverse_id = get_miniverse_path settings miniverse_id (str "data" ∷ []) false

  -- `parsed_game_version == 'release'` compares an object with a text and is false.
  abbrev prioritize_release : Bool
  prioritize_release = false

  abbrev write_config : FilePath → Option Text → Text → Action (World h) (Unit {0})
  write_config path table key =
      on_disk (write_file path (h.dumps_toml table key settings.proxy_secret))

  -- A miniverse that is not behind the proxy's own login, by its type
  unfoldable pub init_standalone :
      MiniverseType → Miniverse → FilePath → Action (World h) (Unit {0})
  init_standalone MiniverseType.fabric m config_path = do
    _ ← automatic_mod_install h settings (str "P7dR8mSH") m prioritize_release false
    _ ← automatic_mod_install h settings (str "8dI2tmqs") m prioritize_release true
    write_config (config_path ++ str "FabricProxy-Lite.toml" ∷ []) none (str "secret")
  init_standalone MiniverseType.neo_forge m config_path = do
    _ ← automatic_mod_install h settings (str "vDyrHl8l") m prioritize_release true
    write_config (config_path ++ str "pcf-common.toml" ∷ []) (some (str "modernForwarding"))
        (str "forwardingSecret")
  init_standalone MiniverseType.forge m config_path = do
    _ ← automatic_mod_install h settings (str "vDyrHl8l") m prioritize_release true
    write_config (config_path ++ str "pcf-common.toml" ∷ []) (some (str "modernForwarding"))
        (str "forwardingSecret")
  init_standalone MiniverseType.vanilla m config_path = pure tt
  init_standalone MiniverseType.paper m config_path = pure tt

  unfoldable pub init_icon : Miniverse → Action (World h) (Unit {0})
  unfolding get_miniverse_path
  init_icon m = do
    let icon_path = data_path m.id ++ str "server-icon.png" ∷ []
    there ← gets (λ w. path_exists icon_path w.disk)
    if there then pure tt else on_disk (write_file icon_path h.icon)

  unfoldable pub init_proxy_mod : Miniverse → Action (World h) (Unit {0})
  unfolding init_standalone get_miniverse_path
  init_proxy_mod m =
      let config_path = data_path m.id ++ str "config" ∷ [] in
      if m.is_on_lite_proxy
      then pure tt
      else (do on_disk (mkdir config_path); init_standalone m.type m config_path)

  unfoldable pub init_data_path : Miniverse → Action (World h) (Unit {0})
  unfolding init_icon init_proxy_mod
  init_data_path m = do init_icon m; init_proxy_mod m
