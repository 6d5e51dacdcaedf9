-- ===== src/Miniverses/World.antt =====
-- The state that the miniverse services work on: the tables as committed, the session's view of
-- them, the events published so far, the disk, and everything else outside the database.
use miniverse_backend.Base.{
  ℕ, Bool, Option, List, [], ◌∷◌, ◌++◌, Text, ◌==◌, keep, first, adjust, Result, ok, Error, Action,
  ◌>>=◌, gets, or_raise,
}
use miniverse_backend.Json.{Json}
use miniverse_backend.Models.{Miniverse, Mod, Tables}
use miniverse_backend.Version.Compare.{MinecraftVersion}
use miniverse_backend.Files.Disk.{Disk}
use miniverse_backend.Events.{MiniverseEvent}

-- What `containers.create` is called with. A volume is the path on the host, where it is bound, and the
-- mode; a port is the container's and the host's.
pub record ContainerConfig : Type 0 where
  pub image : Text
  pub name : Text
  pub network : Text
  pub volumes : List (Text × Text × Text)
  pub ports : List (Text × ℕ)
  pub command : List Text
  pub environment : List (Text × Option Text)
  pub tty : Bool
  pub stdin_open : Bool
  pub auto_remove : Bool

-- What stands outside the program and is reached by calls: the Docker daemon through its SDK, where a
-- container is its id, and through `aiodocker` (`aio_get`, `attach_and_write`); HTTP requests; `datetime.fromisoformat`; `uuid4` and `random`; the cache and the
-- connexion services behind `MiniversesManager`.
pub record Host : Type 1 where
  pub State : Type 0
  pub images_get : Text → Action State (Unit {0})
  pub images_pull : Text → Action State (Unit {0})
  pub containers_create : ContainerConfig → Action State Text
  pub containers_get : Text → Action State Text
  pub containers_list : Text → Action State (List Text)
  pub container_start : Text → Action State (Unit {0})
  pub container_stop : Text → Action State (Unit {0})
  pub container_restart : Text → Action State (Unit {0})
  pub container_kill : Text → Text → Action State (Unit {0})
  pub container_remove : Text → Action State (Unit {0})
  pub aio_get : Text → Action State Text
  pub attach_and_write : Text → Text → Action State (Unit {0})
  pub fetch_json : Text → List (Text × Option Text) → Action State Json
  pub download : Text → Action State Text
  pub fromisoformat : Text → Result ℕ
  pub uuid4 : Action State Text
  pub get_minecraft_versions : State → Result (List MinecraftVersion)
  pub add_controller : Miniverse → Action State (Unit {0})
  pub remove_controller : Text → Action State (Unit {0})
  pub has_controller : Text → State → Bool
  pub start_controller : Text → Action State (Unit {0})
  pub stop_controller : Text → Action State (Unit {0})
  pub set_player_operator : Text → Text → Bool → Action State Bool
  pub kick_player : Text → Text → Text → Action State Bool
  pub ban_player : Text → Text → Text → Action State Bool
  pub unban_player : Text → Text → Action State Bool
  pub get_player_list : Text → Action State (List (Text × Text))
  pub get_banned_player_list : Text → Action State (List (Text × Text))
  pub delete_miniverse_cache : Text → Action State (Unit {0})
  pub dumps_routes : List (Text × Text) → Text
  pub dumps_toml : Option Text → Text → Text → Text
  pub icon : Text

pub record World (h : Host) : Type 0 where
  pub db : Tables
  pub session : Tables
  pub events : List MiniverseEvent
  pub disk : Disk
  pub outside : h.State

module _ {h : Host} where
  -- A call of something outside.
  abbrev pub call : {A : Type 0} → Action h.State A → Action (World h) A
  call m w = let (r, s) = m w.outside in (r, record w { outside = s })

  -- A call on the disk.
  abbrev pub on_disk : {A : Type 0} → Action Disk A → Action (World h) A
  on_disk m w = let (r, d) = m w.disk in (r, record w { disk = d })

  abbrev pub commit : Action (World h) (Unit {0})
  commit w = (ok tt, record w { db = w.session })

  abbrev pub publish : MiniverseEvent → Action (World h) (Unit {0})
  publish e w = (ok tt, record w { events = w.events ++ e ∷ [] })

  -- A request: a fresh session at its start, and a rollback of what is not committed if it raises.
  abbrev pub in_request : {A : Type 0} → Action (World h) A → Action (World h) A
  in_request m w =
      let (r, w') = m (record w { session = w.db }) in (r, record w' { session = w'.db })

abbrev pub has_miniverse_id : Text → Miniverse → Bool
has_miniverse_id i m = m.id == i

-- The row of an object that the session holds.
abbrev pub row : Text → Tables → Option Miniverse
row i t = first (has_miniverse_id i) t.miniverses

abbrev pub has_mod_id : Text → Mod → Bool
has_mod_id i m = m.id == i

abbrev pub mod_row : Text → Tables → Option Mod
mod_row i t = first (has_mod_id i) t.mods

-- `miniverse.mods`
abbrev pub mods_of : Text → Tables → List Mod
mods_of i t = keep (λ m. m.miniverse_id == i) t.mods

abbrev pub set_mod_row : Text → (Mod → Mod) → Tables → Tables
set_mod_row i f t = record t { mods = adjust (has_mod_id i) f t.mods }

abbrev pub set_row : Text → (Miniverse → Miniverse) → Tables → Tables
set_row i f t = record t { miniverses = adjust (has_miniverse_id i) f t.miniverses }

module _ {h : Host} where
  -- An attribute of the object is written.
  abbrev pub assign : Text → (Miniverse → Miniverse) → Action (World h) (Unit {0})
  assign i f w = (ok tt, record w { session = set_row i f w.session })

  -- An attribute of the object is read.
  abbrev pub the : Text → Action (World h) Miniverse
  the i = do found ← gets (λ w. row i w.session); or_raise found Error.attribute_error

  abbrev pub assign_mod : Text → (Mod → Mod) → Action (World h) (Unit {0})
  assign_mod i f w = (ok tt, record w { session = set_mod_row i f w.session })

  abbrev pub the_mod : Text → Action (World h) Mod
  the_mod i = do found ← gets (λ w. mod_row i w.session); or_raise found Error.attribute_error
