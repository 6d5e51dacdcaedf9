-- ===== src/Mods/Tests.antt =====
-- Mods on small data.
use miniverse_backend.Base.{
  ◌≡◌, refl, ◌⊎◌, true, false, some, none, [], ◌∷◌, All, str, ◌==◌, ◌≤◌, ok, err, Error,
}
use miniverse_backend.Settings.{get_miniverse_path}
use miniverse_backend.Files.Path.{FilePath, path_of_text, split_from}
use miniverse_backend.Files.Disk.{is_file, path_eq}
use miniverse_backend.Files.Calls.{find_path, find_from}
use miniverse_backend.Mods.Schema.{ModrinthProjectVersion, ModrinthProjectType}
use miniverse_backend.Mods.Decoding.{project_version_from_dict}
use miniverse_backend.Mods.Encoding.{project_version_json}
use miniverse_backend.Mods.Roundtrips.{project_version_roundtrip}
use miniverse_backend.Mods.Facets.{
  build_facets, dumps_lists, build_or_facets, requote, bracketed, repr, repr_chars, repr_char,
  quote_of,
}
use miniverse_backend.Mods.Service.{
  mods_path, replace_mod, download_mod_file, delete_mod_file, sort_versions, preferred, chosen,
}
use miniverse_backend.Mods.Updates.{suits, found_update, no_update, update_info}
use miniverse_backend.Mods.Newest.{newest, chosen-newest, update_info-newest}
use miniverse_backend.Mods.Failures.{failed_update_loses_file}
use miniverse_backend.Mods.Samples.{
  fromisoformat, isoformat, fromisoformat-isoformat, version, later_beta, project, installed,
  modded,
}
use miniverse_backend.Miniverses.World.{mod_row}
use miniverse_backend.Miniverses.Samples.{test_host, settings}

project_version_roundtrip_example :
    project_version_from_dict fromisoformat (project_version_json isoformat version) ≡ ok version
project_version_roundtrip_example =
    project_version_roundtrip fromisoformat isoformat fromisoformat-isoformat version

chosen-newest_example :
    chosen true (later_beta ∷ version ∷ []) ≡ newest (preferred true (later_beta ∷ version ∷ []))
chosen-newest_example = chosen-newest true (later_beta ∷ version ∷ [])

chosen_release : chosen true (later_beta ∷ version ∷ []) ≡ some version
unfolding chosen sort_versions preferred
chosen_release = refl

update_info-newest_example :
    ((update_info (str "1.20.4") installed (version ∷ later_beta ∷ [])
        ≡ no_update (sort_versions (version ∷ later_beta ∷ [])))
      × All (λ u. suits (str "1.20.4") installed u ≡ false) (version ∷ later_beta ∷ []))
    ⊎ ((u : ModrinthProjectVersion) × (update_info
            (str "1.20.4")
            installed
            (version ∷ later_beta ∷ [])
          ≡ found_update installed u)
        × (suits (str "1.20.4") installed u ≡ true)
        × All
            (λ (x : ModrinthProjectVersion).
              suits (str "1.20.4") installed x ≡ true → x.date_published ≤ u.date_published)
            (version ∷ later_beta ∷ []))
update_info-newest_example = update_info-newest (str "1.20.4") installed version (later_beta ∷ [])

offered :
    update_info (str "1.20.4") installed (version ∷ later_beta ∷ [])
    ≡ found_update installed later_beta
unfolding update_info sort_versions ◌==◌
offered = refl

abbrev old_file : FilePath
old_file = str "d" ∷ str "miniverses" ∷ str "m" ∷ str "data" ∷ str "mods" ∷ str "a.jar" ∷ []

old_file_found :
    find_path (mods_path test_host settings (str "m")) (str "a.jar") modded.disk ≡ some old_file
unfolding find_path find_from path_of_text split_from get_miniverse_path path_eq ◌==◌
old_file_found = refl

installed_found : mod_row (str "i") modded.session ≡ some installed
unfolding ◌==◌
installed_found = refl

-- The version has no file.
update_fails :
    (replace_mod test_host settings (str "i") later_beta project modded).0 ≡ err Error.validation
unfolding replace_mod delete_mod_file download_mod_file ◌==◌
update_fails = refl

failed_update_loses_file_example :
    (mod_row
        (str "i")
        (replace_mod test_host settings (str "i") later_beta project modded).1.session
      ≡ some installed)
    × ((replace_mod test_host settings (str "i") later_beta project modded).1.db ≡ modded.db)
    × (is_file old_file (replace_mod test_host settings (str "i") later_beta project modded).1.disk
        ≡ false)
failed_update_loses_file_example =
    failed_update_loses_file test_host settings (str "i") later_beta project installed old_file
      Error.validation modded installed_found old_file_found update_fails

facets_of_mods :
    build_facets (record {
      project_type = some ModrinthProjectType.mod_type;
      categories = none;
      versions = none;
      client_side = none;
      server_side = none;
    })
    ≡ str "[[\"project_type:mod\"]]"
unfolding build_facets dumps_lists build_or_facets requote bracketed repr repr_chars repr_char
    quote_of
facets_of_mods = refl
