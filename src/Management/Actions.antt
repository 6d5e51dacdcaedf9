-- ===== src/Management/Actions.antt =====
-- The requests of app/services/connexion/WebSocketMiniverseService.py about one player: the document that
-- is sent, and whether there was an answer.
use miniverse_backend.Base.{
  ℕ, Bool, true, false, not, List, [], ◌∷◌, Text, str, Action, ◌>>=◌, pure,
}
use miniverse_backend.Json.{Json, array, object, text, nil, cons, end, field}
use miniverse_backend.Management.Messages.{player_dump, operator_dump}
use miniverse_backend.Management.Service.{Link, call_rpc, is_none}

abbrev one : Json → List Json
one d = array (cons d nil) ∷ []

abbrev pub id_only : Text → Json
id_only player_id = object (field (str "id") (text player_id) end)

module _ {S : Type 0} (ask : ℕ → Text → List Json → Action S Json) where
  unfoldable pub answered : Text → Json → Action (Link S) Bool
  unfolding call_rpc
  answered method_name d = do result ← call_rpc ask method_name (one d); pure (not (is_none result))

  unfoldable pub set_player_operator : Text → Bool → Action (Link S) Bool
  unfolding answered operator_dump player_dump
  set_player_operator player_id true = answered (str "minecraft:operators/add") (
      operator_dump (record {
        permission_level = 4;
        bypasses_player_limit = true;
        player = record { id = player_id; name = [] };
      }))
  set_player_operator player_id false =
      answered (str "minecraft:operators/remove")
        (player_dump (record { id = player_id; name = [] }))

  unfoldable pub kick_player : Text → Text → Action (Link S) Bool
  unfolding answered
  kick_player player_id reason = answered (str "minecraft:players/kick") (
      object (
        field (str "player") (id_only player_id)
          (field (str "message") (object (field (str "literal") (text reason) end)) end)))

  unfoldable pub ban_player : Text → Text → Action (Link S) Bool
  unfolding answered
  ban_player player_id reason =
      answered (str "minecraft:bans/add")
        (object (field (str "player") (id_only player_id) (field (str "reason") (text reason) end)))

  unfoldable pub unban_player : Text → Action (Link S) Bool
  unfolding answered
  unban_player player_id = answered (str "minecraft:bans/remove") (id_only player_id)
