-- ===== src/Players/Router.antt =====
-- `BaseMiniverseService` of app/services/connexion/BaseMiniverseService.py, for a service whose source is
-- the table of online players of app/services/connexion/MCRouterMiniverseService.py.
use miniverse_backend.Base.{
  Bool, true, false, ◌&&◌, Option, none, some, List, [], ◌∷◌, Text, str, ◌==◌, if◌then◌else◌,
}
use miniverse_backend.Events.{EventType}
use miniverse_backend.Base.Dict.{Dict, insert, lookup, discard, values}
use miniverse_backend.Players.Store.{get, Player, Json, player_list, player_dict, Status, set}

-- A call of mc-router's webhook: `event`, `status` and `player` of the payload.
pub record Payload : Type 0 where
  pub event : Option Text
  pub status : Option Text
  pub player : Option Player

abbrev pub players_method : Text
players_method = str "minecraft:players"

abbrev pub seen_method : Text
seen_method = str "miniverse:seen_players"

-- `{p["id"]: p for p in raw_player_list}`, onto a `dict`.
unfoldable pub merge : List Player → Dict Player → Dict Player
unfolding insert
merge [] d = d
merge (p ∷ ps) d = merge ps (insert p.id p d)

abbrev pub as_dict : Option Json → Dict Player
as_dict none = []
as_dict (some (player_list ps)) = []
as_dict (some (player_dict d)) = d

abbrev pub as_list : Option Json → List Player
as_list none = []
as_list (some (player_list ps)) = ps
as_list (some (player_dict d)) = []

module _ (dumps : Json → Text) (miniverse_id : Text) where
  -- The players that were ever seen, as `get_msmp_seen_player_list` reads them.
  unfoldable pub seen_players : Status Json → Dict Player
  unfolding lookup
  seen_players s = as_dict (get miniverse_id seen_method s)

  unfoldable pub get_msmp_seen_player_list : Status Json → List Player
  unfolding seen_players values
  get_msmp_seen_player_list s = values (seen_players s)

  -- The source was asked: what it says goes to the store, and its players are added to those seen.
  unfoldable pub refresh : Dict Player → Status Json → List Player × Status Json
  unfolding values merge seen_players set
  refresh online s =
      let raw = values online in
      let s1 =
        set dumps miniverse_id players_method (some EventType.players) (some (player_list raw)) s in
      let s2 =
        set dumps miniverse_id seen_method none (some (player_dict (merge raw (seen_players s1))))
          s1 in
      (raw, s2)

  unfoldable pub get_msmp_player_list : Bool → Dict Player → Status Json → List Player × Status Json
  unfolding refresh lookup
  get_msmp_player_list true online s = refresh online s
  get_msmp_player_list false online s = elim (get miniverse_id players_method s) [
    | none ↦ refresh online s
    | some v ↦ (as_list (some v), s)
  ]

  abbrev is_text : Text → Option Text → Bool
  is_text t none = false
  is_text t (some u) = u == t

  -- The table after the event.
  unfoldable pub on_event : Payload → Player → Dict Player → Dict Player
  unfolding insert discard
  on_event payload p online =
      if is_text (str "connect") payload.event && is_text (str "success") payload.status
      then insert p.id p online
      else if is_text (str "disconnect") payload.event
      then discard p.id online
      else online

  unfoldable pub process_webhook : Payload → Dict Player → Status Json → Dict Player × Status Json
  unfolding get_msmp_player_list on_event
  process_webhook payload online s = elim payload.player [
    | none ↦ (online, s)
    | some p ↦
        (on_event payload p online, (get_msmp_player_list true (on_event payload p online) s).1)
  ]

  -- `stop`: the table is cleared, the store is left as it is.
  unfoldable pub stop : Dict Player → Status Json → Dict Player × Status Json
  stop online s = ([], s)
