-- ===== src/Players/Tests.antt =====
-- Players of one miniverse behind mc-router.
use miniverse_backend.Base.{◌≡◌, refl, true, false, [], ◌∷◌, ◌++◌, Text, str, ◌==◌}
use miniverse_backend.Events.{EventType, miniverse_control_event}
use miniverse_backend.Base.Dict.{lookup, values}
use miniverse_backend.Players.Store.{Player, Json, player_dict, Status, key}
use miniverse_backend.Players.Router.{
  seen_method, seen_players, get_msmp_player_list, process_webhook,
}
use miniverse_backend.Players.Coherence.{has, connected, process_webhook_coherent}

abbrev anna : Player
anna = record { id = str "1"; name = str "anna" }

abbrev ben : Player
ben = record { id = str "2"; name = str "ben" }

abbrev status : Status Json
status = record {
  redis = (key (str "m") seen_method, player_dict ((str "2", ben) ∷ [])) ∷ [];
  events = [];
}

-- A stand-in for `json.dumps`.
abbrev dumps : Json → Text
dumps v = str "{}"

process_webhook_coherent_example :
    ((get_msmp_player_list dumps
        (str "m")
        false
        (process_webhook dumps (str "m") (connected anna) [] status).0
        (process_webhook dumps (str "m") (connected anna) [] status).1).0
      ≡ values (process_webhook dumps (str "m") (connected anna) [] status).0)
    × ((process_webhook dumps (str "m") (connected anna) [] status).1.events
        ≡ [] ++ miniverse_control_event (str "m") EventType.players (str "{}") ∷ [])
process_webhook_coherent_example =
    process_webhook_coherent dumps (str "m") (connected anna) anna [] status refl

ben_seen : has (str "2") (seen_players dumps (str "m") status) ≡ true
unfolding seen_players lookup ◌==◌
ben_seen = refl
