-- ===== src/Mods/Service.antt =====
-- Installing, updating and removing mods in app/services/mods_service.py. A mod object is the row of
-- its id in the session.
use miniverse_backend.Base.{
  Bool, true, false, not, ◌&&◌, Option, none, some, List, [], ◌∷◌, ◌++◌, Text, str, ◌==◌, first,
  keep, exists, ltb, Error, Action, ◌>>=◌, ◌>>◌, pure, gets, or_raise, raise_if, modify,
  if◌then◌else◌,
}
use miniverse_backend.Models.{Miniverse, Mod}
use miniverse_backend.Settings.{Settings, get_miniverse_path}
use miniverse_backend.Events.{miniverse_updated_event}
use miniverse_backend.Files.Path.{FilePath, path_of_text}
use miniverse_backend.Files.Free.{name_of, stem_suffix}
use miniverse_backend.Files.Calls.{mkdir, find_path, write_found, unlink_found}
use miniverse_backend.Mods.Schema.{
  ModrinthProject, ModrinthProjectFile, ModrinthProjectVersion, ModVersionType,
}
use miniverse_backend.Mods.Queries.{compatible_versions, get_project_details, get_version_details}
use miniverse_backend.Miniverses.World.{
  Host, World, call, on_disk, commit, publish, assign_mod, the_mod, has_mod_id,
}

-- `Path(filename).suffix`
abbrev pub suffix_of : Text → Text
suffix_of filename = (stem_suffix (name_of (path_of_text filename).parts)).1

-- `f"{project.slug}-{version.version_number}-{version.id}{extension}"`
unfoldable pub mod_file_name : ModrinthProject → ModrinthProjectVersion → Text → Text
mod_file_name project version extension =
    project.slug ++ (b'-' ∷ (version.version_number ++ (b'-' ∷ (version.id ++ extension))))

-- `sorted(versions, key=lambda v: v.date_published, reverse=True)`, which is stable
unfoldable pub insert_version :
    ModrinthProjectVersion → List ModrinthProjectVersion → List ModrinthProjectVersion
insert_version v [] = v ∷ []
insert_version v (w ∷ ws) =
    let rest = insert_version v ws in
    if ltb v.date_published w.date_published then w ∷ rest else v ∷ w ∷ ws

unfoldable pub sort_versions : List ModrinthProjectVersion → List ModrinthProjectVersion
unfolding insert_version
sort_versions [] = []
sort_versions (v ∷ vs) = insert_version v (sort_versions vs)

abbrev is_release : ModrinthProjectVersion → Bool
is_release v = elim v.version_type [ ModVersionType.release ↦ true | _ ↦ false ]

-- `xs or ys`
abbrev or_list : {A : Type 0} → List A → List A → List A
or_list [] ys = ys
or_list (x ∷ xs) ys = x ∷ xs

unfoldable pub preferred : Bool → List ModrinthProjectVersion → List ModrinthProjectVersion
preferred true versions = or_list (keep is_release versions) versions
preferred false versions = versions

-- `Mod.project_id == project_id` in a query
abbrev pub is_of_project : Text → Text → Mod → Bool
is_of_project miniverse_id project_id m =
    m.miniverse_id == miniverse_id && elim m.project_id [ none ↦ false | some p ↦ p == project_id ]

abbrev pub with_version : ModrinthProject → ModrinthProjectVersion → Text → Mod → Mod
with_version project version file_name m = record m {
  version_id = some version.id;
  project_id = some version.project_id;
  title = project.title;
  icon_url = some project.icon_url;
  version_name = some version.name;
  version_number = some version.version_number;
  file_name = file_name;
}

abbrev pub head_version : List ModrinthProjectVersion → Option ModrinthProjectVersion
head_version [] = none
head_version (v ∷ vs) = some v

-- The version that is installed: the newest of the preferred ones.
unfoldable pub chosen : Bool → List ModrinthProjectVersion → Option ModrinthProjectVersion
unfolding preferred sort_versions
chosen prioritize_release versions =
    head_version (sort_versions (preferred prioritize_release versions))

module _ (h : Host) (settings : Settings) where
  -- `get_miniverse_path(miniverse_id, "data", "mods")`
  abbrev pub mods_path : Text → FilePath
  mods_path miniverse_id =
      get_miniverse_path settings miniverse_id (str "data" ∷ str "mods" ∷ []) false

  unfoldable pub download_mod_file :
      ModrinthProject → ModrinthProjectVersion → Text → Action (World h) Text
  unfolding mod_file_name get_miniverse_path
  download_mod_file project version miniverse_id = do
    primary_file ←
        or_raise (first (λ (f : ModrinthProjectFile). f.primary) version.files) Error.validation
    let extension = suffix_of primary_file.filename
    raise_if (not (extension == str ".jar")) Error.validation
    let file_name = mod_file_name project version extension
    on_disk (mkdir (mods_path miniverse_id))
    content ← call (h.download primary_file.url)
    target ← gets (λ w. find_path (mods_path miniverse_id) file_name w.disk)
    on_disk (write_found target content)
    pure file_name

  unfoldable pub delete_mod_file : Mod → Action (World h) (Unit {0})
  unfolding get_miniverse_path
  delete_mod_file m = do
    target ← gets (λ w. find_path (mods_path m.miniverse_id) m.file_name w.disk)
    on_disk (modify (unlink_found target))

  -- The rest of `update_mod`, with Modrinth's answers.
  unfoldable pub replace_mod :
      Text → ModrinthProjectVersion → ModrinthProject → Action (World h) Text
  unfolding download_mod_file delete_mod_file
  replace_mod i version project = do
    m ← the_mod i
    delete_mod_file m
    file_name ← download_mod_file project version m.miniverse_id
    assign_mod i (with_version project version file_name)
    commit
    publish (miniverse_updated_event m.miniverse_id none)
    pure i

  unfoldable pub update_mod : Text → Text → Action (World h) Text
  unfolding replace_mod
  update_mod i new_version_id = do
    version ← get_version_details h new_version_id
    project ← get_project_details h version.project_id
    replace_mod i version project

  unfoldable pub install_new :
      ModrinthProject → ModrinthProjectVersion → Text → Action (World h) Text
  install_new project version miniverse_id = do
    file_name ← download_mod_file project version miniverse_id
    new_id ← call h.uuid4
    taken ← gets (λ w. exists (has_mod_id new_id) w.session.mods)
    raise_if taken Error.integrity_error
    let m : Mod = record {
      id = new_id;
      slug = project.slug;
      version_id = some version.id;
      project_id = some version.project_id;
      title = project.title;
      icon_url = some project.icon_url;
      version_name = some version.name;
      version_number = some version.version_number;
      file_name = file_name;
      miniverse_id = miniverse_id;
    }
    modify λ w. record w { session = record (w.session) { mods = w.session.mods ++ m ∷ [] } }
    commit
    publish (miniverse_updated_event miniverse_id none)
    pure new_id

  abbrev install_or_update :
      ModrinthProject → ModrinthProjectVersion → Text → Text → Option Mod → Action (World h) Text
  install_or_update project version mod_version_id miniverse_id none =
      install_new project version miniverse_id
  install_or_update project version mod_version_id miniverse_id (some existing_mod) =
      update_mod existing_mod.id mod_version_id

  -- The rest of `install_mod`, with Modrinth's answers.
  unfoldable pub install_known :
      Text → Text → ModrinthProjectVersion → ModrinthProject → Action (World h) Text
  unfolding install_new update_mod
  install_known mod_version_id miniverse_id version project = do
    existing_mod ← gets (λ w. first (is_of_project miniverse_id project.id) w.session.mods)
    install_or_update project version mod_version_id miniverse_id existing_mod

  unfoldable pub install_mod : Text → Text → Action (World h) Text
  unfolding install_known
  install_mod mod_version_id miniverse_id = do
    version ← get_version_details h mod_version_id
    project ← get_project_details h version.project_id
    install_known mod_version_id miniverse_id version project

  -- `game_version` is the miniverse's own where it is not given; no caller gives another one.
  unfoldable pub automatic_mod_install : Text → Miniverse → Bool → Bool → Action (World h) Text
  unfolding compatible_versions chosen install_mod
  automatic_mod_install mod_id m prioritize_release retry_with_latest = do
    versions ← compatible_versions h mod_id m m.mc_version retry_with_latest
    latest_version ← or_raise (chosen prioritize_release versions) Error.validation
    install_mod latest_version.id m.id

  unfoldable pub uninstall_mod : Text → Action (World h) (Unit {0})
  uninstall_mod i = do
    m ← the_mod i
    delete_mod_file m
    modify λ w. record w {
      session = record (w.session) { mods = keep (λ n. not (has_mod_id i n)) w.session.mods };
    }
    commit
    publish (miniverse_updated_event m.miniverse_id none)
