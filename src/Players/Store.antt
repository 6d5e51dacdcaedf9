-- ===== src/Players/Store.antt =====
-- `ServerStatusStore` of app/services/connexion/server_status_store.py over Redis, for any kind of
-- values, and the values that the player lists of mc-router need.
use miniverse_backend.Base.{
  Bool, true, false, Option, none, some, List, [], ◌∷◌, ◌++◌, Text, str, if◌then◌else◌,
}
use miniverse_backend.Base.Dict.{Dict, insert, lookup, discard}
use miniverse_backend.Events.{EventType, MiniverseEvent, miniverse_control_event}

-- `MSMPPlayer` of app/schemas/player.py
pub record Player : Type 0 where
  pub id : Text
  pub name : Text

-- The values behind the two keys that are used here: a list of players, and a `dict` of players.
pub data Json : Type 0 where
  player_list : List Player → Json
  player_dict : Dict Player → Json

pub record Status (V : Type 0) : Type 0 where
  pub redis : Dict V
  pub events : List MiniverseEvent

-- `f"{miniverse_id}.{method_name}"`
abbrev pub key : Text → Text → Text
key miniverse_id method_name = miniverse_id ++ (b'.' ∷ method_name)

-- `ServerStatusStore.get`
abbrev pub get : {V : Type 0} → Text → Text → Status V → Option V
get miniverse_id method_id s = lookup (key miniverse_id method_id) s.redis

-- `dumps` is `json.dumps`. Redis gives back bytes, which differ from every `str`, so that the test
-- against the old value fails only if there is neither an old nor a new value. `None` stands for the
-- event that is not published.
module _ {V : Type 0} (dumps : V → Text) where
  abbrev pub published : Text → Option EventType → Text → Status V → Status V
  published miniverse_id none payload s = s
  published miniverse_id (some type) payload s = record s {
    events = s.events ++ miniverse_control_event miniverse_id type payload ∷ [];
  }

  abbrev pub was_there : Option V → Bool
  was_there none = false
  was_there (some v) = true

  unfoldable pub set : Text → Text → Option EventType → Option V → Status V → Status V
  unfolding lookup insert discard
  set miniverse_id method_name publish (some v) s =
      published miniverse_id publish (dumps v)
        (record s { redis = insert (key miniverse_id method_name) v s.redis })
  set miniverse_id method_name publish none s =
      if was_there (lookup (key miniverse_id method_name) s.redis)
      then published miniverse_id publish (str "null")
          (record s { redis = discard (key miniverse_id method_name) s.redis })
      else s
