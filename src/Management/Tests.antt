-- ===== src/Management/Tests.antt =====
-- One miniverse with a management server that answers every question with one document.
use miniverse_backend.Base.{
  ◌≡◌, refl, ℕ, ◌+◌, true, false, none, some, List, [], ◌∷◌, ◌++◌, Text, str, ◌==◌, ok, Action,
}
use miniverse_backend.Base.Dict.{lookup, insert}
use miniverse_backend.Json.{Json, list_of, array, nil, cons}
use miniverse_backend.Events.{EventType, miniverse_control_event}
use miniverse_backend.Players.Store.{Player, key}
use miniverse_backend.Connection.{Phase, Connection}
use miniverse_backend.Management.Messages.{
  Operator, PlayerBan, player_from_dict, player_dump, operator_from_dict, ban_from_dict,
}
use miniverse_backend.Management.Service.{
  Link, players, bans, method_of, cached, get_msmp_player_list, stop, get_msmp_operator_list,
  get_msmp_banned_player_list, get_msmp_seen_player_list,
}
use miniverse_backend.Management.Handlers.{notify, on_connect}
use miniverse_backend.Management.Actions.{kick_player}
use miniverse_backend.Management.Fresh.{announcement, Fresh, notify-Fresh}
use miniverse_backend.Management.Disconnected.{stop_disconnected}

abbrev anna : Player
anna = record { id = str "1"; name = str "anna" }

abbrev anna_operates : Operator
anna_operates = record { permission_level = 4; bypasses_player_limit = true; player = anna }

abbrev anna_banned : PlayerBan
anna_banned = record { reason = str "r"; expires = none; source = str "s"; player = anna }

abbrev annas : Json
annas = array (cons (player_dump anna) nil)

abbrev counting : ℕ → Text → List Json → Action ℕ Json
counting n method_name args calls = (ok annas, calls + 1)

abbrev dumps : Json → Text
dumps v = str "[]"

abbrev online : Connection
online = record { server = some 7; task = Phase.online 7; closing = []; cut_short = [] }

abbrev offline : Connection
offline = record { server = none; task = Phase.waiting; closing = []; cut_short = [] }

abbrev link : Connection → Link ℕ
link c = record {
  status = record { redis = (key (str "m") (method_of players), annas) ∷ []; events = [] };
  connection = c;
  outside = 0;
}

notify-Fresh_example :
    Fresh counting dumps
      (str "m")
      bans
      annas
      (link online)
      (notify counting dumps (str "m") (announcement bans true) (link online)).1
notify-Fresh_example =
    notify-Fresh counting dumps (str "m") 7 annas 1 (link online) bans true refl refl refl

there : cached counting dumps (str "m") players (link offline) ≡ some annas
unfolding lookup ◌==◌
there = refl

stop_disconnected_example :
    ((stop counting dumps (str "m") (link offline)).0 ≡ ok tt)
    × ((stop counting dumps (str "m") (link offline)).1.connection.task ≡ Phase.absent)
    × ((stop counting dumps (str "m") (link offline)).1.status.events
        ≡ [] ++ miniverse_control_event (str "m") EventType.players (str "null") ∷ [])
    × (get_msmp_player_list counting dumps
          (str "m")
          false
          (stop counting dumps (str "m") (link offline)).1
        ≡ (ok [], (stop counting dumps (str "m") (link offline)).1))
stop_disconnected_example =
    stop_disconnected counting dumps (str "m") (link offline) annas refl there

-- Connecting asks for the three lists, and a kick is one call more.
connected : (on_connect counting dumps (str "m") (link online)).1.outside ≡ 3
unfolding on_connect player_from_dict operator_from_dict ban_from_dict ◌==◌
    get_msmp_banned_player_list get_msmp_operator_list get_msmp_player_list player_dump list_of
connected = refl

kicked :
    kick_player counting (str "1") (str "bye") (link online)
    ≡ (ok true, record (link online) { outside = 1 })
unfolding kick_player
kicked = refl

seen :
    (get_msmp_seen_player_list counting dumps
      (str "m")
      (on_connect counting dumps (str "m") (link online)).1).0
    ≡ ok (anna ∷ [])
unfolding on_connect get_msmp_seen_player_list player_from_dict operator_from_dict ban_from_dict
    ◌==◌ get_msmp_banned_player_list get_msmp_operator_list get_msmp_player_list player_dump list_of
    insert lookup
seen = refl
