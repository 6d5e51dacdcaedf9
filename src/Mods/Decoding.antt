-- ===== src/Mods/Decoding.antt =====
-- `from_dict` of the schemas of app/schemas/mods.py, on the JSON that Modrinth answers. `fromisoformat`
-- is Python's, with an instant as a number.
mod Members
unfoldable pub use Members.*
use miniverse_backend.Base.{
  ℕ, Bool, true, false, ◌&&◌, ◌||◌, List, [], ◌∷◌, ◌++◌, Text, str, ◌==◌, eqb, Result, ok, err,
  Error, if◌then◌else◌,
}
use miniverse_backend.Json.{
  Json, object, end, field, Fields, ◌>>=◌, field_at, get_field, text_of, text_at, number_at,
  bool_at, list_of, list_at, list_or_empty, optional_text, nullable_text_at,
}
use miniverse_backend.Mods.Schema.{
  ModrinthProjectType, ModSideSupport, ModVersionType, ModrinthSearchResult, ModrinthGalleryItem,
  ModrinthProject, ModrinthSearchResults, ModrinthFileHashes, ModrinthProjectFile,
  ModrinthProjectVersion,
}

module _ (fromisoformat : Text → Result ℕ) where
  abbrev pub date_at : Text → Json → Result ℕ
  date_at k d = text_at k d >>= λ t. fromisoformat (with_offset t)

  -- `ModrinthSearchResult.from_dict`
  unfoldable pub search_result_from_dict : Json → Result ModrinthSearchResult
  unfolding list_of
  search_result_from_dict d = do
    project_id ← text_at (str "project_id") d
    project_type ← enum_at project_type_of (str "project_type") d
    slug ← text_at (str "slug") d
    author ← text_at (str "author") d
    title ← text_at (str "title") d
    description ← text_at (str "description") d
    categories ← list_at text_of (str "categories") d
    display_categories ← list_at text_of (str "display_categories") d
    versions ← list_at text_of (str "versions") d
    downloads ← number_at (str "downloads") d
    follows ← number_at (str "follows") d
    icon_url ← text_at (str "icon_url") d
    date_created ← date_at (str "date_created") d
    date_modified ← date_at (str "date_modified") d
    latest_version ← text_at (str "latest_version") d
    license ← text_at (str "license") d
    client_side ← enum_at side_of (str "client_side") d
    server_side ← enum_at side_of (str "server_side") d
    gallery ← field_at (str "gallery") d
    color ← field_at (str "color") d
    featured_gallery ← ok (get_field (str "featured_gallery") d)
    ok (record {
      project_id = project_id;
      project_type = project_type;
      slug = slug;
      author = author;
      title = title;
      description = description;
      categories = categories;
      display_categories = display_categories;
      versions = versions;
      downloads = downloads;
      follows = follows;
      icon_url = icon_url;
      date_created = date_created;
      date_modified = date_modified;
      latest_version = latest_version;
      license = license;
      client_side = client_side;
      server_side = server_side;
      gallery = gallery;
      color = color;
      featured_gallery = featured_gallery;
    })

  -- `ModrinthGalleryItem.from_dict`
  unfoldable pub gallery_item_from_dict : Json → Result ModrinthGalleryItem
  unfolding list_of
  gallery_item_from_dict d = do
    url ← text_at (str "url") d
    raw_url ← text_at (str "raw_url") d
    featured ← bool_at (str "featured") d
    title ← text_at (str "title") d
    description ← text_at (str "description") d
    created ← date_at (str "created") d
    ok (record {
      url = url;
      raw_url = raw_url;
      featured = featured;
      title = title;
      description = description;
      created = created;
    })

  -- `ModrinthProject.from_dict`
  unfoldable pub project_from_dict : Json → Result ModrinthProject
  unfolding list_of gallery_item_from_dict
  project_from_dict d = do
    id ← text_at (str "id") d
    slug ← text_at (str "slug") d
    title ← text_at (str "title") d
    description ← text_at (str "description") d
    body ← text_at (str "body") d
    categories ← list_at text_of (str "categories") d
    client_side ← enum_at side_of (str "client_side") d
    server_side ← enum_at side_of (str "server_side") d
    issues_url ← optional_text (str "issues_url") d
    source_url ← optional_text (str "source_url") d
    wiki_url ← optional_text (str "wiki_url") d
    discord_url ← optional_text (str "discord_url") d
    color ← ok (get_field (str "color") d)
    team ← text_at (str "team") d
    published ← date_at (str "published") d
    updated ← date_at (str "updated") d
    followers ← number_at (str "followers") d
    project_type ← enum_at project_type_of (str "project_type") d
    downloads ← number_at (str "downloads") d
    icon_url ← text_at (str "icon_url") d
    versions ← list_at text_of (str "versions") d
    game_versions ← list_at text_of (str "game_versions") d
    loaders ← list_at text_of (str "loaders") d
    gallery ← list_or_empty gallery_item_from_dict (str "gallery") d
    ok (record {
      id = id;
      slug = slug;
      title = title;
      description = description;
      body = body;
      categories = categories;
      client_side = client_side;
      server_side = server_side;
      issues_url = issues_url;
      source_url = source_url;
      wiki_url = wiki_url;
      discord_url = discord_url;
      color = color;
      team = team;
      published = published;
      updated = updated;
      followers = followers;
      project_type = project_type;
      downloads = downloads;
      icon_url = icon_url;
      versions = versions;
      game_versions = game_versions;
      loaders = loaders;
      gallery = gallery;
    })

  -- `ModrinthSearchResults.from_dict`
  unfoldable pub search_results_from_dict : Json → Result ModrinthSearchResults
  unfolding list_of search_result_from_dict
  search_results_from_dict d = do
    hits ← list_at search_result_from_dict (str "hits") d
    offset ← number_at (str "offset") d
    limit ← number_at (str "limit") d
    total_hits ← number_at (str "total_hits") d
    ok (record { hits = hits; offset = offset; limit = limit; total_hits = total_hits })

  -- `ModrinthProjectFile.from_dict`
  unfoldable pub project_file_from_dict : Json → Result ModrinthProjectFile
  unfolding list_of hashes_from_dict
  project_file_from_dict d = do
    hashes_dict ← field_at (str "hashes") d
    hashes ← hashes_from_dict hashes_dict
    url ← text_at (str "url") d
    filename ← text_at (str "filename") d
    primary ← bool_at (str "primary") d
    size ← number_at (str "size") d
    file_type ← optional_text (str "file_type") d
    ok (record {
      hashes = hashes;
      url = url;
      filename = filename;
      primary = primary;
      size = size;
      file_type = file_type;
    })

  -- `ModrinthProjectVersion.from_dict`
  unfoldable pub project_version_from_dict : Json → Result ModrinthProjectVersion
  unfolding list_of project_file_from_dict
  project_version_from_dict d = do
    id ← text_at (str "id") d
    project_id ← text_at (str "project_id") d
    author_id ← text_at (str "author_id") d
    date_published ← date_at (str "date_published") d
    downloads ← number_at (str "downloads") d
    name ← text_at (str "name") d
    version_number ← text_at (str "version_number") d
    changelog ← nullable_text_at (str "changelog") d
    game_versions ← list_at text_of (str "game_versions") d
    version_type ← enum_at version_type_of (str "version_type") d
    loaders ← list_at text_of (str "loaders") d
    featured ← bool_at (str "featured") d
    status ← text_at (str "status") d
    requested_status ← nullable_text_at (str "requested_status") d
    files ← list_at project_file_from_dict (str "files") d
    dependencies ← ok (get_field (str "dependencies") d)
    ok (record {
      id = id;
      project_id = project_id;
      author_id = author_id;
      date_published = date_published;
      downloads = downloads;
      name = name;
      version_number = version_number;
      changelog = changelog;
      game_versions = game_versions;
      version_type = version_type;
      loaders = loaders;
      featured = featured;
      status = status;
      requested_status = requested_status;
      files = files;
      dependencies = dependencies;
    })
