-- ===== src/Mods/Updates.antt =====
-- `list_possible_mod_updates` of app/services/mods_service.py.
use miniverse_backend.Base.{
  Bool, true, false, ◌||◌, Option, none, some, List, [], ◌∷◌, Text, str, ◌==◌, first, exists, map,
  Result, ok, err, if◌then◌else◌,
}
use miniverse_backend.Base.Dict.{Dict, insert}
use miniverse_backend.Models.{Miniverse, Mod}
use miniverse_backend.Mods.Schema.{ModrinthProjectVersion, ModUpdateInfo, ModUpdateStatus}
use miniverse_backend.Mods.Service.{sort_versions}
use miniverse_backend.Mods.Queries.{compatible_versions}
use miniverse_backend.Miniverses.World.{Host, World, mods_of}

abbrev pub is_version : Option Text → Text → Bool
is_version none i = false
is_version (some j) i = i == j

-- `game_version in version.game_versions or version.id == mod.version_id`
abbrev pub suits : Text → Mod → ModrinthProjectVersion → Bool
suits game_version m v =
    exists (λ g. g == game_version) v.game_versions || is_version m.version_id v.id

abbrev pub failed_update : ModUpdateInfo
failed_update = record {
  update_status = ModUpdateStatus.error;
  new_versions_ids = [];
  game_versions = [];
}

abbrev pub found_update : Mod → ModrinthProjectVersion → ModUpdateInfo
found_update m v = record {
  update_status =
      if is_version m.version_id v.id
      then ModUpdateStatus.already_up_to_date
      else ModUpdateStatus.update_available;
  new_versions_ids = v.id ∷ [];
  game_versions = v.game_versions ∷ [];
}

abbrev pub no_update : List ModrinthProjectVersion → ModUpdateInfo
no_update versions = record {
  update_status = ModUpdateStatus.no_compatible_versions;
  new_versions_ids = map (λ (v : ModrinthProjectVersion). v.id) versions;
  game_versions = map (λ (v : ModrinthProjectVersion). v.game_versions) versions;
}

abbrev from_first :
    Mod → List ModrinthProjectVersion → Option ModrinthProjectVersion → ModUpdateInfo
from_first m versions none = no_update versions
from_first m versions (some v) = found_update m v

-- The inner loop with its `else`, over the versions from the newest to the oldest.
unfoldable pub update_info : Text → Mod → List ModrinthProjectVersion → ModUpdateInfo
unfolding sort_versions
update_info game_version m [] = failed_update
update_info game_version m (v ∷ vs) =
    let versions = sort_versions (v ∷ vs) in
    from_first m versions (first (suits game_version m) versions)

-- `str(mod.project_id)` within the URL
abbrev pub project_text : Option Text → Text
project_text none = str "None"
project_text (some p) = p

module _ (h : Host) where
  abbrev or_failed : Text → Mod → Result (List ModrinthProjectVersion) → ModUpdateInfo
  or_failed game_version m (ok versions) = update_info game_version m versions
  or_failed game_version m (err e) = failed_update

  -- One turn of the loop: whatever is raised gives the status ERROR.
  unfoldable pub mod_update : Miniverse → Text → Mod → World h → ModUpdateInfo × World h
  unfolding compatible_versions update_info
  mod_update miniverse game_version m w =
      let (r, w') =
        compatible_versions h (project_text m.project_id) miniverse game_version true w in
      (or_failed game_version m r, w')

  unfoldable pub mod_updates :
      Miniverse → Text → List Mod → Dict ModUpdateInfo → World h → Dict ModUpdateInfo × World h
  unfolding mod_update insert
  mod_updates miniverse game_version [] updates w = (updates, w)
  mod_updates miniverse game_version (m ∷ mods) updates w =
      let (info, w') = mod_update miniverse game_version m w in
      mod_updates miniverse game_version mods (insert m.id info updates) w'

  unfoldable pub list_possible_mod_updates :
      Miniverse → Text → World h → Dict ModUpdateInfo × World h
  unfolding mod_updates
  list_possible_mod_updates miniverse game_version w =
      mod_updates miniverse game_version (mods_of miniverse.id w.session) [] w
