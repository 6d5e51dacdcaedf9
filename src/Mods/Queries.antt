-- ===== src/Mods/Queries.antt =====
-- The requests to Modrinth in app/services/mods_service.py. `h.fetch_json` is the GET request with
-- `raise_for_status` and `json()`.
use miniverse_backend.Base.{
  ℕ, Option, none, some, List, [], ◌∷◌, ◌++◌, Text, str, Bool, true, false, ◌&&◌, pure,
  if◌then◌else◌, Result, Action, ◌>>=◌,
}
use miniverse_backend.Models.{Miniverse, MiniverseType}
use miniverse_backend.Json.{list_of}
use miniverse_backend.Files.Free.{decimal}
use miniverse_backend.Mods.Schema.{
  ModrinthSearchFacets, ModrinthSearchResults, ModrinthProject, ModrinthProjectVersion,
}
use miniverse_backend.Mods.Decoding.{
  search_results_from_dict, project_from_dict, project_version_from_dict,
}
use miniverse_backend.Mods.Facets.{dumps_values, build_facets}
use miniverse_backend.Miniverses.World.{Host, World, call}

-- `loader.value.lower()`
abbrev pub loader_value : MiniverseType → Text
loader_value MiniverseType.vanilla = str "vanilla"
loader_value MiniverseType.paper = str "paper"
loader_value MiniverseType.fabric = str "fabric"
loader_value MiniverseType.forge = str "forge"
loader_value MiniverseType.neo_forge = str "neoforge"

abbrev pub modrinth_base_url : Text
modrinth_base_url = str "https://api.modrinth.com/v2"

-- `dumps_values([v]) if v else None`: an empty text is dropped as well.
abbrev one_value : Option Text → Option Text
one_value none = none
one_value (some []) = none
one_value (some (c ∷ t)) = some (dumps_values ((c ∷ t) ∷ []))

abbrev loader_text : Option MiniverseType → Option Text
loader_text none = none
loader_text (some loader) = some (loader_value loader)

abbrev is_empty : List ModrinthProjectVersion → Bool
is_empty [] = true
is_empty (v ∷ vs) = false

module _ (h : Host) where
  abbrev lift : {A : Type 0} → Result A → Action h.State A
  lift r s = (r, s)

  unfoldable pub search_modrinth_projects :
      Text → ModrinthSearchFacets → ℕ → ℕ → Action (World h) ModrinthSearchResults
  search_modrinth_projects query facets limit offset = call (do
    answer ← h.fetch_json (modrinth_base_url ++ str "/search") (
        (str "query", some query)
        ∷ (str "facets", some (build_facets facets))
        ∷ (str "limit", some (decimal limit))
        ∷ (str "offset", some (decimal offset))
        ∷ [])
    lift (search_results_from_dict h.fromisoformat answer))

  unfoldable pub list_project_versions :
      Text → Option MiniverseType → Option Text → Action (World h) (List ModrinthProjectVersion)
  list_project_versions project_id loader mc_version = call (do
    answer ←
        h.fetch_json (modrinth_base_url ++ (str "/project/" ++ (project_id ++ str "/version"))) (
          (str "loaders", one_value (loader_text loader))
          ∷ (str "game_versions", one_value mc_version)
          ∷ [])
    lift (list_of (project_version_from_dict h.fromisoformat) answer))

  unfoldable pub get_project_details : Text → Action (World h) ModrinthProject
  get_project_details project_id = call (do
    answer ← h.fetch_json (modrinth_base_url ++ (str "/project/" ++ project_id)) []
    lift (project_from_dict h.fromisoformat answer))

  unfoldable pub get_version_details : Text → Action (World h) ModrinthProjectVersion
  get_version_details version_id = call (do
    answer ← h.fetch_json (modrinth_base_url ++ (str "/version/" ++ version_id)) []
    lift (project_version_from_dict h.fromisoformat answer))

  -- The versions for the loader and the game version, or for the loader alone if there are none.
  unfoldable pub compatible_versions :
      Text → Miniverse → Text → Bool → Action (World h) (List ModrinthProjectVersion)
  compatible_versions project_id m game_version retry_with_latest = do
    versions ← list_project_versions project_id (some m.type) (some game_version)
    if is_empty versions && retry_with_latest
        then list_project_versions project_id (some m.type) none
        else pure versions
