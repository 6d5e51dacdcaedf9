-- ===== src/Mods/Roundtrips.antt =====
-- The decoders of app/schemas/mods.py read back the documents of the encoders.
use miniverse_backend.Base.{ℕ, ◌≡◌, refl, Text, ◌==◌, ok, Result, arith}
use miniverse_backend.Json.{text_of, text, list_of-array_of}
use miniverse_backend.Mods.Schema.{
  ModrinthProjectType, ModSideSupport, ModVersionType, ModrinthSearchResult, ModrinthGalleryItem,
  ModrinthProject, ModrinthSearchResults, ModrinthFileHashes, ModrinthProjectFile,
  ModrinthProjectVersion,
}
use miniverse_backend.Mods.Decoding.{
  project_type_value, side_value, version_type_value, project_type_of, side_of, version_type_of,
  with_offset, hashes_from_dict, search_result_from_dict, gallery_item_from_dict, project_from_dict,
  search_results_from_dict, project_file_from_dict, project_version_from_dict,
}
use miniverse_backend.Mods.Encoding.{
  hashes_json, search_result_json, gallery_item_json, project_json, search_results_json,
  project_file_json, project_version_json,
}

project_type-value : (p : ModrinthProjectType) → project_type_of (project_type_value p) ≡ ok p
unfolding ◌==◌
project_type-value ModrinthProjectType.mod_type = refl
project_type-value ModrinthProjectType.modpack = refl
project_type-value ModrinthProjectType.resourcepack = refl
project_type-value ModrinthProjectType.shader = refl
project_type-value ModrinthProjectType.world = refl

side-value : (p : ModSideSupport) → side_of (side_value p) ≡ ok p
unfolding ◌==◌
side-value ModSideSupport.required = refl
side-value ModSideSupport.optional = refl
side-value ModSideSupport.unsupported = refl
side-value ModSideSupport.unknown = refl

version_type-value : (p : ModVersionType) → version_type_of (version_type_value p) ≡ ok p
unfolding ◌==◌
version_type-value ModVersionType.release = refl
version_type-value ModVersionType.beta = refl
version_type-value ModVersionType.alpha = refl

hashes_roundtrip : (v : ModrinthFileHashes) → hashes_from_dict (hashes_json v) ≡ ok v
unfolding hashes_from_dict ◌==◌
hashes_roundtrip v = refl

module _ (fromisoformat : Text → Result ℕ) (isoformat : ℕ → Text)
    (reads : (t : ℕ) → fromisoformat (with_offset (isoformat t)) ≡ ok t) where
  pub gallery_item_roundtrip :
      (v : ModrinthGalleryItem)
      → gallery_item_from_dict fromisoformat (gallery_item_json isoformat v) ≡ ok v
  unfolding gallery_item_from_dict ◌==◌
  gallery_item_roundtrip v = ground (arith, reads v.created)

  pub search_result_roundtrip :
      (v : ModrinthSearchResult)
      → search_result_from_dict fromisoformat (search_result_json isoformat v) ≡ ok v
  unfolding search_result_from_dict ◌==◌
  search_result_roundtrip v = ground (
    arith,
    project_type-value v.project_type,
    list_of-array_of text_of text v.categories (λ t. refl),
    list_of-array_of text_of text v.display_categories (λ t. refl),
    list_of-array_of text_of text v.versions (λ t. refl),
    reads v.date_created,
    reads v.date_modified,
    side-value v.client_side,
    side-value v.server_side,
  )

  pub project_file_roundtrip :
      (v : ModrinthProjectFile)
      → project_file_from_dict fromisoformat (project_file_json isoformat v) ≡ ok v
  unfolding project_file_from_dict ◌==◌
  project_file_roundtrip v = ground (arith, hashes_roundtrip v.hashes)

  -- Where `fromisoformat` reads back what `isoformat` writes: decoding the document of a version of a
  -- project, with its files, their hashes and the optional fields present or null, gives the version back.
  pub project_version_roundtrip :
      (v : ModrinthProjectVersion)
      → project_version_from_dict fromisoformat (project_version_json isoformat v) ≡ ok v
  unfolding project_version_from_dict ◌==◌
  project_version_roundtrip v = ground (
    arith,
    reads v.date_published,
    list_of-array_of text_of text v.game_versions (λ t. refl),
    version_type-value v.version_type,
    list_of-array_of text_of text v.loaders (λ t. refl),
    list_of-array_of (project_file_from_dict fromisoformat) (project_file_json isoformat) v.files
        project_file_roundtrip,
  )

  pub project_roundtrip :
      (v : ModrinthProject) → project_from_dict fromisoformat (project_json isoformat v) ≡ ok v
  unfolding project_from_dict ◌==◌
  project_roundtrip v = ground (
    arith,
    list_of-array_of text_of text v.categories (λ t. refl),
    side-value v.client_side,
    side-value v.server_side,
    reads v.published,
    reads v.updated,
    project_type-value v.project_type,
    list_of-array_of text_of text v.versions (λ t. refl),
    list_of-array_of text_of text v.game_versions (λ t. refl),
    list_of-array_of text_of text v.loaders (λ t. refl),
    list_of-array_of (gallery_item_from_dict fromisoformat) (gallery_item_json isoformat) v.gallery
        gallery_item_roundtrip,
  )

  pub search_results_roundtrip :
      (v : ModrinthSearchResults)
      → search_results_from_dict fromisoformat (search_results_json isoformat v) ≡ ok v
  unfolding search_results_from_dict ◌==◌
  search_results_roundtrip v = ground (
    arith,
    list_of-array_of (search_result_from_dict fromisoformat) (search_result_json isoformat) v.hits
        search_result_roundtrip,
  )
