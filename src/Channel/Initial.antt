-- ===== src/Channel/Initial.antt =====
-- `send_init_data` of app/api/v1/websockets.py, with the schemas that it sends (app/schemas/events.py and
-- app/schemas/miniverse.py): what a user is told when the WebSocket opens.
use miniverse_backend.Base.{
  Bool, Option, none, some, List, [], ◌∷◌, Text, ◌==◌, keep, map, Error, Action, ◌>>=◌, pure, raise,
  gets,
}
use miniverse_backend.Role
use miniverse_backend.Role.{Role}
use miniverse_backend.Models.{
  MiniverseType, Miniverse, MiniverseUserRole, Mod, Tables, get_miniverse_role,
}
use miniverse_backend.Players.Store.{Player}
use miniverse_backend.Management.Messages.{Operator, PlayerBan}

-- `ModSchema` of app/schemas/mods.py: all columns but the file's name.
pub record ModSchema : Type 0 where
  pub id : Text
  pub slug : Text
  pub version_id : Option Text
  pub project_id : Option Text
  pub title : Text
  pub icon_url : Option Text
  pub version_name : Option Text
  pub version_number : Option Text
  pub miniverse_id : Text

-- `MiniverseSchema`: neither the container nor the secret of the management server.
pub record MiniverseSchema : Type 0 where
  pub id : Text
  pub name : Text
  pub type : MiniverseType
  pub description : Option Text
  pub java_version : Option Text
  pub mc_version : Text
  pub subdomain : Text
  pub online_mode : Bool
  pub is_on_lite_proxy : Bool
  pub allow_bedrock : Bool
  pub started : Bool
  pub mods : List ModSchema
  pub users_roles : List MiniverseUserRole

-- `SyncEventItem`
pub record SyncEventItem : Type 0 where
  pub miniverse : MiniverseSchema
  pub players : List Player
  pub seen_players : List Player
  pub operators : List Operator
  pub banned_players : List PlayerBan

-- The class of a controller.
pub data Kind : Type 0 where
  websocket mc_router other_class : Kind

-- What `miniverses_manager` and its controllers offer: `get_miniverse_controller`, and the lists.
pub record Controllers (S : Type 0) : Type 0 where
  pub kind_of : Text → S → Option Kind
  pub get_msmp_player_list : Text → Action S (List Player)
  pub get_msmp_seen_player_list : Text → Action S (List Player)
  pub get_msmp_operator_list : Text → Action S (List Operator)
  pub get_msmp_banned_player_list : Text → Action S (List PlayerBan)

abbrev mod_schema : Mod → ModSchema
mod_schema m = record {
  id = m.id;
  slug = m.slug;
  version_id = m.version_id;
  project_id = m.project_id;
  title = m.title;
  icon_url = m.icon_url;
  version_name = m.version_name;
  version_number = m.version_number;
  miniverse_id = m.miniverse_id;
}

-- `MiniverseSchema.model_validate(miniverse)`
abbrev pub miniverse_schema : Tables → Miniverse → MiniverseSchema
miniverse_schema t m = record {
  id = m.id;
  name = m.name;
  type = m.type;
  description = m.description;
  java_version = m.java_version;
  mc_version = m.mc_version;
  subdomain = m.subdomain;
  online_mode = m.online_mode;
  is_on_lite_proxy = m.is_on_lite_proxy;
  allow_bedrock = m.allow_bedrock;
  started = m.started;
  mods = map mod_schema (keep (λ (d : Mod). d.miniverse_id == m.id) t.mods);
  users_roles = keep (λ (r : MiniverseUserRole). r.miniverse_id == m.id) t.users_roles;
}

-- The miniverses that the user has a role in.
unfoldable pub visible : List MiniverseUserRole → List Miniverse → List Miniverse
unfolding get_miniverse_role Role.ge
visible roles = keep (λ m. Role.ge (get_miniverse_role roles m.id) (some Role.user))

module _ {S : Type 0} (controllers : Controllers S) (t : Tables) where
  open controllers use {
    kind_of, get_msmp_player_list, get_msmp_seen_player_list, get_msmp_operator_list,
    get_msmp_banned_player_list,
  }

  -- The lists of one miniverse, by the class of its controller. `gather` asks for them in this order.
  unfoldable pub sync_item : Option Kind → Miniverse → Action S SyncEventItem
  sync_item none m = raise Error.assertion_error
  sync_item (some websocket) m = do
    players ← get_msmp_player_list m.id
    seen_players ← get_msmp_seen_player_list m.id
    operators ← get_msmp_operator_list m.id
    banned_players ← get_msmp_banned_player_list m.id
    pure (record {
      miniverse = miniverse_schema t m;
      players = players;
      seen_players = seen_players;
      operators = operators;
      banned_players = banned_players;
    })
  sync_item (some mc_router) m = do
    players ← get_msmp_player_list m.id
    seen_players ← get_msmp_seen_player_list m.id
    pure (record {
      miniverse = miniverse_schema t m;
      players = players;
      seen_players = seen_players;
      operators = [];
      banned_players = [];
    })
  sync_item (some other_class) m = raise Error.not_implemented

  unfoldable pub sync_items : List Miniverse → Action S (List SyncEventItem)
  unfolding sync_item
  sync_items [] = pure []
  sync_items (m ∷ ms) = do
    kind ← gets (kind_of m.id)
    item ← sync_item kind m
    rest ← sync_items ms
    pure (item ∷ rest)

  -- The data of the event that is sent, for the user's roles as they were loaded.
  unfoldable pub send_init_data : List MiniverseUserRole → Action S (List SyncEventItem)
  unfolding sync_items visible
  send_init_data roles = sync_items (visible roles t.miniverses)
