-- ===== src/Miniverses/Keeps.antt =====
-- What the mods service and the preparation of a data directory leave as it is.
use miniverse_backend.Base.{
  refl, Bool-cases, Option-cases, inl, inr, Bool, true, false, [], ◌∷◌, ◌++◌, Text, str, Action,
  ◌>>=◌, or_raise, Error, arith, first,
}
use miniverse_backend.Base.Binding.{Keeps, bind-Keeps, or_raise-Keeps}
use miniverse_backend.Models.{Miniverse, MiniverseType, Tables}
use miniverse_backend.Settings.{Settings}
use miniverse_backend.Miniverses.World.{Host, World, on_disk, mod_row}
use miniverse_backend.Files.Path.{FilePath}
use miniverse_backend.Miniverses.Setup.{
  data_path, init_icon, init_proxy_mod, init_standalone, init_data_path,
}
use miniverse_backend.Files.Calls.{mkdir}
use miniverse_backend.Mods.Schema.{ModrinthProject, ModrinthProjectVersion}
use miniverse_backend.Mods.Queries.{
  list_project_versions, get_project_details, get_version_details, compatible_versions,
}
use miniverse_backend.Mods.Service.{
  download_mod_file, delete_mod_file, update_mod, install_mod, automatic_mod_install, uninstall_mod,
  is_of_project, replace_mod, install_known, install_new, chosen,
}

-- Everything in the database but the mods, as the session holds it.
abbrev pub accounts_and_miniverses : {h : Host} → World h → Tables
accounts_and_miniverses w = record (w.session) { mods = [] }

module _ (h : Host) (settings : Settings) where
  abbrev view : World h → Tables
  view = accounts_and_miniverses

  get_version_details-Keeps : (i : Text) → Keeps view (get_version_details h i)
  unfolding get_version_details
  get_version_details-Keeps i w = refl

  get_project_details-Keeps : (i : Text) → Keeps view (get_project_details h i)
  unfolding get_project_details
  get_project_details-Keeps i w = refl

  delete_mod_file-Keeps : (m : _) → Keeps view (delete_mod_file h settings m)
  unfolding delete_mod_file
  delete_mod_file-Keeps m w = refl

  download_mod_file-Keeps :
      (p : ModrinthProject) (v : ModrinthProjectVersion) (i : Text)
      → Keeps view (download_mod_file h settings p v i)
  unfolding download_mod_file
  download_mod_file-Keeps p v i w = ground arith

  replace_mod-Keeps :
      (i : Text) (v : ModrinthProjectVersion) (p : ModrinthProject)
      → Keeps view (replace_mod h settings i v p)
  unfolding replace_mod
  replace_mod-Keeps i v p w = elim (Option-cases (mod_row i w.session)) [
    | inl e ↦ ground arith
    | inr (m, e) ↦ ground (
      arith,
      delete_mod_file-Keeps m w,
      download_mod_file-Keeps p v m.miniverse_id (delete_mod_file h settings m w).1,
    )
  ]

  after_details-Keeps :
      {A : Type 0} (i : Text) (f : ModrinthProjectVersion → ModrinthProject → Action (World h) A)
      → ((v : ModrinthProjectVersion) (p : ModrinthProject) → Keeps view (f v p))
      → Keeps view
          (get_version_details h i >>= λ v. get_project_details h v.project_id >>= λ p. f v p)
  after_details-Keeps i f k =
      bind-Keeps view (get_version_details h i)
        (λ v. get_project_details h v.project_id >>= λ p. f v p) (get_version_details-Keeps i)
        λ v.
          bind-Keeps view (get_project_details h v.project_id) (λ p. f v p)
            (get_project_details-Keeps v.project_id) (k v)

  update_mod-Keeps : (i v : Text) → Keeps view (update_mod h settings i v)
  unfolding update_mod
  update_mod-Keeps i v = after_details-Keeps v (replace_mod h settings i) (replace_mod-Keeps i)

  install_known-Keeps :
      (v i : Text) (version : ModrinthProjectVersion) (p : ModrinthProject)
      → Keeps view (install_known h settings v i version p)
  unfolding install_known install_new
  install_known-Keeps v i version p w =
      elim (Option-cases (first (is_of_project i p.id) w.session.mods)) [
        | inl e ↦ ground (arith, download_mod_file-Keeps p version i w)
        | inr (m, e) ↦ ground (arith, update_mod-Keeps m.id v w)
      ]

  install_mod-Keeps : (v i : Text) → Keeps view (install_mod h settings v i)
  unfolding install_mod
  install_mod-Keeps v i =
      after_details-Keeps v (install_known h settings v i) (install_known-Keeps v i)

  compatible_versions-Keeps :
      (p : Text) (m : Miniverse) (g : Text) (b : Bool) → Keeps view (compatible_versions h p m g b)
  unfolding compatible_versions list_project_versions
  compatible_versions-Keeps p m g b w = ground arith

  pub automatic_mod_install-Keeps :
      (p : Text) (m : Miniverse) (prioritize retry : Bool)
      → Keeps view (automatic_mod_install h settings p m prioritize retry)
  unfolding automatic_mod_install
  automatic_mod_install-Keeps p m prioritize retry =
      bind-Keeps view (compatible_versions h p m m.mc_version retry)
        (λ versions. or_raise (chosen prioritize versions) Error.validation >>= λ v.
          install_mod h settings v.id m.id)
        (compatible_versions-Keeps p m m.mc_version retry)
        λ versions.
          bind-Keeps view (or_raise (chosen prioritize versions) Error.validation)
            (λ v. install_mod h settings v.id m.id)
            (or_raise-Keeps view (chosen prioritize versions) Error.validation)
            λ v. install_mod-Keeps v.id m.id

  uninstall_mod-Keeps : (i : Text) → Keeps view (uninstall_mod h settings i)
  unfolding uninstall_mod
  uninstall_mod-Keeps i w = elim (Option-cases (mod_row i w.session)) [
    | inl e ↦ ground arith
    | inr (m, e) ↦ ground (arith, delete_mod_file-Keeps m w)
  ]

  init_standalone-Keeps :
      (t : MiniverseType) (m : Miniverse) (p : FilePath)
      → Keeps view (init_standalone h settings t m p)
  unfolding init_standalone
  init_standalone-Keeps MiniverseType.fabric m p w = ground (
    arith,
    automatic_mod_install-Keeps (str "P7dR8mSH") m false false w,
    automatic_mod_install-Keeps (str "8dI2tmqs") m false true
        (automatic_mod_install h settings (str "P7dR8mSH") m false false w).1,
  )
  init_standalone-Keeps MiniverseType.neo_forge m p w =
      ground (arith, automatic_mod_install-Keeps (str "vDyrHl8l") m false true w)
  init_standalone-Keeps MiniverseType.forge m p w =
      ground (arith, automatic_mod_install-Keeps (str "vDyrHl8l") m false true w)
  init_standalone-Keeps MiniverseType.vanilla m p w = refl
  init_standalone-Keeps MiniverseType.paper m p w = refl

  init_icon-Keeps : (m : Miniverse) → Keeps view (init_icon h settings m)
  unfolding init_icon
  init_icon-Keeps m w = ground arith

  init_proxy_mod-Keeps : (m : Miniverse) → Keeps view (init_proxy_mod h settings m)
  unfolding init_proxy_mod
  init_proxy_mod-Keeps m w = elim (Bool-cases m.is_on_lite_proxy) [
    | inl e ↦ ground arith
    | inr e ↦ ground (
      arith,
      init_standalone-Keeps m.type m (data_path h settings m.id ++ str "config" ∷ [])
          (on_disk (mkdir (data_path h settings m.id ++ str "config" ∷ [])) w).1,
    )
  ]

  -- The preparation of a data directory.
  pub init_data_path-Keeps : (m : Miniverse) → Keeps view (init_data_path h settings m)
  unfolding init_data_path
  init_data_path-Keeps m =
      bind-Keeps view (init_icon h settings m) (λ _. init_proxy_mod h settings m)
        (init_icon-Keeps m) λ _. init_proxy_mod-Keeps m
