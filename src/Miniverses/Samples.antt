-- ===== src/Miniverses/Samples.antt =====
-- A small database, disk and outside world for the tests: the state outside is the list of the running
-- containers, and Modrinth answers what the host is built with.
use miniverse_backend.Base.{
  true, false, none, List, [], ◌∷◌, Text, str, ◌==◌, ok, err, Error, Action, Result, keep, not,
  length,
}
use miniverse_backend.Json.{Json}
use miniverse_backend.Role.{Role}
use miniverse_backend.Models.{Miniverse, MiniverseType, MiniverseUserRole, User, Tables}
use miniverse_backend.Settings.{Settings}
use miniverse_backend.Files.Disk.{Disk, dir}
use miniverse_backend.Files.Path.{FilePath}
use miniverse_backend.Miniverses.World.{Host, World}

abbrev pub nothing_done : {A : Type 0} → A → Action (List Text) A
nothing_done a s = (ok a, s)

-- A daemon that creates a container `x` whenever it is asked for one, and Modrinth's answers by the URL.
abbrev pub host_with : (Text → Result Json) → Host
host_with answers = record {
  State = List Text;
  images_get = λ i. nothing_done tt;
  images_pull = λ i. nothing_done tt;
  containers_create = λ c. nothing_done (str "x");
  containers_get = λ c. nothing_done c;
  containers_list = λ n. nothing_done [];
  container_start = λ c s. (ok tt, c ∷ s);
  container_stop = λ c s. (ok tt, keep (λ d. not (d == c)) s);
  container_restart = λ c. nothing_done tt;
  container_kill = λ c n. nothing_done tt;
  container_remove = λ c. nothing_done tt;
  aio_get = λ c. nothing_done c;
  attach_and_write = λ c t s. (ok tt, t ∷ s);
  fetch_json = λ url p s. (answers url, s);
  download = λ url. nothing_done url;
  fromisoformat = λ t. ok (length t);
  uuid4 = nothing_done (str "u");
  get_minecraft_versions = λ s. err Error.http_error;
  add_controller = λ m. nothing_done tt;
  remove_controller = λ i. nothing_done tt;
  has_controller = λ i s. true;
  start_controller = λ i. nothing_done tt;
  stop_controller = λ i. nothing_done tt;
  set_player_operator = λ i p b. nothing_done true;
  kick_player = λ i p r. nothing_done true;
  ban_player = λ i p r. nothing_done true;
  unban_player = λ i p. nothing_done true;
  get_player_list = λ i. nothing_done [];
  get_banned_player_list = λ i. nothing_done [];
  delete_miniverse_cache = λ i. nothing_done tt;
  dumps_routes = λ r. [];
  dumps_toml = λ t k v. v;
  icon = str "png";
}

abbrev pub test_host : Host
test_host = host_with λ url. err Error.http_error

abbrev pub settings : Settings
settings = record {
  data_path = str "d" ∷ [];
  host_data_path = str "h" ∷ [];
  domain_name = str "net";
  docker_network_name = str "network";
  proxy_secret = str "s";
  proxy_socks = none;
}

abbrev pub carol : User
carol = record { id = str "c"; is_active = true; username = str "carol"; role = Role.user }

abbrev pub carols_role : MiniverseUserRole
carols_role = record { user_id = str "c"; miniverse_id = str "m"; role = Role.user }

abbrev pub world_m : Miniverse
world_m = record {
  id = str "m";
  name = str "one";
  type = MiniverseType.vanilla;
  description = none;
  container_id = none;
  java_version = none;
  mc_version = str "1.20.4";
  subdomain = str "s";
  online_mode = true;
  is_on_lite_proxy = true;
  allow_bedrock = false;
  started = false;
  management_server_secret = none;
}

abbrev pub world_n : Miniverse
world_n = record world_m { id = str "n"; name = str "two"; subdomain = str "t" }

abbrev pub tables : Tables
tables = record {
  users = carol ∷ [];
  users_roles = carols_role ∷ [];
  miniverses = world_m ∷ world_n ∷ [];
  mods = [];
}

-- The data directory of the miniverse `m`
abbrev pub data_m : FilePath
data_m = str "d" ∷ str "miniverses" ∷ str "m" ∷ str "data" ∷ []

abbrev pub disk : Disk
disk =
    record { path = str "d" ∷ []; node = dir }
    ∷ record { path = str "d" ∷ str "miniverses" ∷ []; node = dir }
    ∷ record { path = str "d" ∷ str "miniverses" ∷ str "m" ∷ []; node = dir }
    ∷ record { path = data_m; node = dir }
    ∷ []

abbrev pub world_on : (h : Host) → h.State → Tables → World h
world_on h s t = record { db = t; session = t; events = []; disk = disk; outside = s }

abbrev pub w : World test_host
w = world_on test_host [] tables
