-- ===== src/Mods/Api.antt =====
-- app/api/v1/mods.py: the handlers of `ModsController`.
use miniverse_backend.Base.{
  ℕ, none, some, Option, List, [], ◌∷◌, Text, str, Error, Action, ◌>>=◌, pure, raise, ok, err,
}
use miniverse_backend.Models.{MiniverseType}
use miniverse_backend.Mods.Schema.{
  ModrinthSearchFacets, ModrinthSearchResults, ModrinthProject, ModrinthProjectVersion,
  ModrinthProjectType,
}
use miniverse_backend.Mods.Decoding.{member}
use miniverse_backend.Mods.Queries.{
  search_modrinth_projects, list_project_versions, get_project_details, get_version_details,
}
use miniverse_backend.Miniverses.World.{Host, World}

pub data ModRequest : Type 0 where
  search_mods : Text → ℕ → ℕ → ModRequest
  get_mod_details get_mod_version_details : Text → ModRequest
  list_mod_versions : Text → Option Text → Option Text → ModRequest

pub data ModReply : Type 0 where
  results : ModrinthSearchResults → ModReply
  details : ModrinthProject → ModReply
  version_details : ModrinthProjectVersion → ModReply
  versions : List ModrinthProjectVersion → ModReply

-- `MiniverseType(loader)`, by the members' values
abbrev miniverse_type_value : MiniverseType → Text
miniverse_type_value MiniverseType.vanilla = str "Vanilla"
miniverse_type_value MiniverseType.paper = str "Paper"
miniverse_type_value MiniverseType.fabric = str "Fabric"
miniverse_type_value MiniverseType.forge = str "Forge"
miniverse_type_value MiniverseType.neo_forge = str "NeoForge"

abbrev pub miniverse_type_of : Text → Option MiniverseType
miniverse_type_of t =
    elim (member miniverse_type_value
      (MiniverseType.vanilla ∷ MiniverseType.paper ∷ MiniverseType.fabric ∷ MiniverseType.forge
        ∷ MiniverseType.neo_forge ∷ [])
      t) [ ok l ↦ some l | err e ↦ none ]

abbrev only_mods : ModrinthSearchFacets
only_mods = record {
  project_type = some ModrinthProjectType.mod_type;
  categories = none;
  versions = none;
  client_side = none;
  server_side = none;
}

module _ (h : Host) where
  abbrev versions_for : Text → Option Text → Option MiniverseType → Action (World h) ModReply
  versions_for project_id game_version loader = do
    vs ← list_project_versions h project_id loader game_version
    pure (versions vs)

  abbrev by_loader : Text → Option Text → Option MiniverseType → Action (World h) ModReply
  by_loader project_id game_version none = raise Error.validation
  by_loader project_id game_version (some l) = versions_for project_id game_version (some l)

  unfoldable pub handle_mods : ModRequest → Action (World h) ModReply
  handle_mods (search_mods query limit offset) = do
    found ← search_modrinth_projects h query only_mods limit offset
    pure (results found)
  handle_mods (get_mod_details project_id) = do
    p ← get_project_details h project_id
    pure (details p)
  handle_mods (get_mod_version_details version_id) = do
    v ← get_version_details h version_id
    pure (version_details v)
  handle_mods (list_mod_versions project_id none game_version) =
      versions_for project_id game_version none
  handle_mods (list_mod_versions project_id (some loader) game_version) =
      by_loader project_id game_version (miniverse_type_of loader)
