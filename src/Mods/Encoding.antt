-- ===== src/Mods/Encoding.antt =====
-- The documents that Modrinth answers, as its documentation describes them, and that the decoders of
-- app/schemas/mods.py read them back.
use miniverse_backend.Base.{ℕ, Text, str}
use miniverse_backend.Json.{Json, boolean, number, text, object, end, field, array_of, text_or_null}
use miniverse_backend.Mods.Schema.{
  ModrinthSearchResult, ModrinthGalleryItem, ModrinthProject, ModrinthSearchResults,
  ModrinthFileHashes, ModrinthProjectFile, ModrinthProjectVersion,
}
use miniverse_backend.Mods.Decoding.{project_type_value, side_value, version_type_value}

abbrev pub hashes_json : ModrinthFileHashes → Json
hashes_json v = object (field (str "sha1") (text v.sha1) (field (str "sha512") (text v.sha512) end))

module _ (isoformat : ℕ → Text) where
  abbrev pub search_result_json : ModrinthSearchResult → Json
  search_result_json v = object (
      field (str "project_id") (text v.project_id) (
        field (str "project_type") (text (project_type_value v.project_type)) (
          field (str "slug") (text v.slug) (
            field (str "author") (text v.author) (
              field (str "title") (text v.title) (
                field (str "description") (text v.description) (
                  field (str "categories") (array_of text v.categories) (
                    field (str "display_categories") (array_of text v.display_categories) (
                      field (str "versions") (array_of text v.versions) (
                        field (str "downloads") (number v.downloads) (
                          field (str "follows") (number v.follows) (
                            field (str "icon_url") (text v.icon_url) (
                              field (str "date_created") (text (isoformat v.date_created)) (
                                field (str "date_modified") (text (isoformat v.date_modified)) (
                                  field (str "latest_version") (text v.latest_version) (
                                    field (str "license") (text v.license) (
                                      field (str "client_side") (text (side_value v.client_side)) (
                                        field (str "server_side") (text (side_value v.server_side))
                                          (field (str "gallery") (v.gallery) (
                                            field (str "color") (v.color) (
                                              field (str "featured_gallery") (v.featured_gallery)
                                                (end))))))))))))))))))))))

  abbrev pub gallery_item_json : ModrinthGalleryItem → Json
  gallery_item_json v = object (
      field (str "url") (text v.url) (
        field (str "raw_url") (text v.raw_url) (
          field (str "featured") (boolean v.featured) (
            field (str "title") (text v.title) (
              field (str "description") (text v.description)
                (field (str "created") (text (isoformat v.created)) (end)))))))

  abbrev pub project_json : ModrinthProject → Json
  project_json v = object (
      field (str "id") (text v.id) (
        field (str "slug") (text v.slug) (
          field (str "title") (text v.title) (
            field (str "description") (text v.description) (
              field (str "body") (text v.body) (
                field (str "categories") (array_of text v.categories) (
                  field (str "client_side") (text (side_value v.client_side)) (
                    field (str "server_side") (text (side_value v.server_side)) (
                      field (str "issues_url") (text_or_null v.issues_url) (
                        field (str "source_url") (text_or_null v.source_url) (
                          field (str "wiki_url") (text_or_null v.wiki_url) (
                            field (str "discord_url") (text_or_null v.discord_url) (
                              field (str "color") (v.color) (
                                field (str "team") (text v.team) (
                                  field (str "published") (text (isoformat v.published)) (
                                    field (str "updated") (text (isoformat v.updated)) (
                                      field (str "followers") (number v.followers) (
                                        field (str "project_type")
                                          (text (project_type_value v.project_type))
                                          (field (str "downloads") (number v.downloads) (
                                            field (str "icon_url") (text v.icon_url) (
                                              field (str "versions") (array_of text v.versions) (
                                                field (str "game_versions")
                                                  (array_of text v.game_versions)
                                                  (field (str "loaders") (array_of text v.loaders) (
                                                    field (str "gallery")
                                                      (array_of gallery_item_json v.gallery)
                                                      (end)))))))))))))))))))))))))

  abbrev pub search_results_json : ModrinthSearchResults → Json
  search_results_json v = object (
      field (str "hits") (array_of search_result_json v.hits) (
        field (str "offset") (number v.offset) (
          field (str "limit") (number v.limit)
            (field (str "total_hits") (number v.total_hits) (end)))))

  abbrev pub project_file_json : ModrinthProjectFile → Json
  project_file_json v = object (
      field (str "hashes") (hashes_json v.hashes) (
        field (str "url") (text v.url) (
          field (str "filename") (text v.filename) (
            field (str "primary") (boolean v.primary) (
              field (str "size") (number v.size)
                (field (str "file_type") (text_or_null v.file_type) (end)))))))

  abbrev pub project_version_json : ModrinthProjectVersion → Json
  project_version_json v = object (
      field (str "id") (text v.id) (
        field (str "project_id") (text v.project_id) (
          field (str "author_id") (text v.author_id) (
            field (str "date_published") (text (isoformat v.date_published)) (
              field (str "downloads") (number v.downloads) (
                field (str "name") (text v.name) (
                  field (str "version_number") (text v.version_number) (
                    field (str "changelog") (text_or_null v.changelog) (
                      field (str "game_versions") (array_of text v.game_versions) (
                        field (str "version_type") (text (version_type_value v.version_type)) (
                          field (str "loaders") (array_of text v.loaders) (
                            field (str "featured") (boolean v.featured) (
                              field (str "status") (text v.status) (
                                field (str "requested_status") (text_or_null v.requested_status) (
                                  field (str "files") (array_of project_file_json v.files) (
                                    field (str "dependencies") (v.dependencies)
                                      (end)))))))))))))))))
