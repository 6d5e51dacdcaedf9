-- ===== src/Players/Webhook.antt =====
-- `handle_mc_router_webhook` of app/managers/ServerStatusManager.py.
use miniverse_backend.Base.{Option, none, some, [], ◌∷◌, Text, str, exists, eqb, if◌then◌else◌}
use miniverse_backend.Base.{zero, suc, Bool, true, false, Result, ok, err, List, []}
use miniverse_backend.Base.Int.{ℤ, pos}
use miniverse_backend.Version.Compare.{MinecraftVersion, compare_versions}
use miniverse_backend.Base.Dict.{Dict, insert, lookup}
use miniverse_backend.Players.Store.{Player, Json, Status}
use miniverse_backend.Players.Router.{Payload, process_webhook}

-- `t.lstrip(characters)`
unfoldable pub lstrip : Text → Text → Text
lstrip characters [] = []
lstrip characters (c ∷ t) =
    let rest = lstrip characters t in if exists (λ d. eqb d c) characters then rest else c ∷ t

-- `t.split(":")[0]`
unfoldable pub before_colon : Text → Text
before_colon [] = []
before_colon (c ∷ t) = let rest = before_colon t in if eqb c b':' then [] else c ∷ rest

-- `str(payload.get("backend"))`
abbrev backend_text : Option Text → Text
backend_text none = str "None"
backend_text (some t) = t

unfoldable pub target_id : Option Text → Text
unfolding lstrip before_colon
target_id backend = before_colon (lstrip (str "miniverse-") (backend_text backend))

-- A control service: of mc-router with its online players, or of a management server.
pub data Control : Type 0 where
  router : Dict Player → Control
  management : Control

-- `(await compare_versions(…)) == 1`
abbrev pub is_one : Option ℤ → Bool
is_one (some (pos (suc zero))) = true
is_one _ = false

-- `add_miniverse`: the table afterwards. That an existing service is started again changes no table.
unfoldable pub add_miniverse :
    Result (List MinecraftVersion) → Text → Text → Dict Control → Result (Dict Control)
unfolding lookup insert
add_miniverse versions miniverse_id mc_version services = elim (lookup miniverse_id services) [
  | some existing ↦ ok services
  | none ↦ elim (compare_versions versions mc_version (str "1.21.9")) [
    | err e ↦ err e
    | ok answer ↦
        ok (insert miniverse_id (if is_one answer then management else router []) services)
  ]
]

unfoldable pub handle_mc_router_webhook :
    (Json → Text) → Option Text → Payload → Dict Control × Status Json → Dict Control × Status Json
unfolding target_id lookup insert process_webhook
handle_mc_router_webhook dumps backend payload (services, s) =
    elim (lookup (target_id backend) services) [
      | none ↦ (services, s)
      | some management ↦ (services, s)
      | some (router online) ↦
          let (online', s') = process_webhook dumps (target_id backend) payload online s in
          (insert (target_id backend) (router online') services, s')
    ]
