-- ===== src/Management/Handlers.antt =====
-- The notifications of a management server and what is done when it connects:
-- app/services/connexion/WebSocketMiniverseService.py.
use miniverse_backend.Base.{
  ℕ, true, Option, none, some, List, [], ◌∷◌, Text, str, ok, err, Action, ◌>>=◌, pure,
}
use miniverse_backend.Base.Dict.{Dict, lookup}
use miniverse_backend.Json.{Json}
use miniverse_backend.Management.Service.{
  Link, Listing, players, operators, bans, get_msmp_player_list, get_msmp_operator_list,
  get_msmp_banned_player_list,
}

-- The callbacks: a refresh of one of the lists, or a line in the log.
pub data Handler : Type 0 where
  refresh_list : Listing → Handler
  log_line : Handler

-- `_add_handlers`
abbrev pub handlers : Dict Handler
handlers =
    (str "minecraft:notification/players/joined", refresh_list players)
    ∷ (str "minecraft:notification/players/left", refresh_list players)
    ∷ (str "minecraft:notification/operators/added", refresh_list operators)
    ∷ (str "minecraft:notification/operators/removed", refresh_list operators)
    ∷ (str "minecraft:notification/bans/added", refresh_list bans)
    ∷ (str "minecraft:notification/bans/removed", refresh_list bans)
    ∷ (str "minecraft:notification/server/saving", log_line)
    ∷ (str "minecraft:notification/server/saved", log_line)
    ∷ (str "minecraft:notification/server/started", log_line)
    ∷ (str "minecraft:notification/server/stopping", log_line)
    ∷ []

-- `asyncio.gather` of calls on different keys of the store, in their order: all of them run, and the first
-- exception is raised.
unfoldable pub gather : {S : Type 0} → List (Action S (Unit {0})) → Action S (Unit {0})
gather [] s = (ok tt, s)
gather (m ∷ ms) s =
    let (r, s') = m s in
    let (rest, s'') = gather ms s' in (elim r [ ok _ ↦ rest | err e ↦ err e ], s'')

module _ {S : Type 0} (ask : ℕ → Text → List Json → Action S Json) (dumps : Json → Text)
    (miniverse_id : Text) where
  -- `_handle_msmp_player_list`, `_handle_msmp_operator_list`, `_handle_msmp_banned_player_list`
  unfoldable pub refresh : Listing → Action (Link S) (Unit {0})
  refresh players = do _ ← get_msmp_player_list ask dumps miniverse_id true; pure tt
  refresh operators = do _ ← get_msmp_operator_list ask dumps miniverse_id true; pure tt
  refresh bans = do _ ← get_msmp_banned_player_list ask dumps miniverse_id true; pure tt

  unfoldable pub run_handler : Option Handler → Action (Link S) (Unit {0})
  unfolding refresh
  run_handler (some (refresh_list k)) = refresh k
  run_handler (some log_line) = pure tt
  run_handler none = pure tt

  -- A notification that has no handler is ignored.
  unfoldable pub notify : Text → Action (Link S) (Unit {0})
  unfolding run_handler lookup
  notify method_name = run_handler (lookup method_name handlers)

  unfoldable pub on_connect : Action (Link S) (Unit {0})
  unfolding refresh gather
  on_connect = gather (refresh players ∷ refresh operators ∷ refresh bans ∷ [])
