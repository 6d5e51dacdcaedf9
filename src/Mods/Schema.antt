-- ===== src/Mods/Schema.antt =====
-- The schemas of app/schemas/mods.py. Where Modrinth's documentation gives a field a type, the field has
-- that type; `Json` stands where the code keeps whatever is there.
use miniverse_backend.Base.{ℕ, Bool, Option, List, Text}
use miniverse_backend.Json.{Json}

pub data ModrinthProjectType : Type 0 where
  mod_type modpack resourcepack shader world : ModrinthProjectType

pub data ModSideSupport : Type 0 where
  required optional unsupported unknown : ModSideSupport

pub data ModVersionType : Type 0 where
  release beta alpha : ModVersionType

pub data ModUpdateStatus : Type 0 where
  already_up_to_date update_available no_compatible_versions error : ModUpdateStatus

pub record ModUpdateInfo : Type 0 where
  pub update_status : ModUpdateStatus
  pub new_versions_ids : List Text
  pub game_versions : List (List Text)

pub record ModrinthSearchFacets : Type 0 where
  pub project_type : Option ModrinthProjectType
  pub categories : Option (List Text)
  pub versions : Option (List Text)
  pub client_side : Option ModSideSupport
  pub server_side : Option ModSideSupport

pub record ModrinthSearchResult : Type 0 where
  pub project_id : Text
  pub project_type : ModrinthProjectType
  pub slug : Text
  pub author : Text
  pub title : Text
  pub description : Text
  pub categories : List Text
  pub display_categories : List Text
  pub versions : List Text
  pub downloads : ℕ
  pub follows : ℕ
  pub icon_url : Text
  pub date_created : ℕ
  pub date_modified : ℕ
  pub latest_version : Text
  pub license : Text
  pub client_side : ModSideSupport
  pub server_side : ModSideSupport
  pub gallery : Json
  pub color : Json
  pub featured_gallery : Json

pub record ModrinthGalleryItem : Type 0 where
  pub url : Text
  pub raw_url : Text
  pub featured : Bool
  pub title : Text
  pub description : Text
  pub created : ℕ

pub record ModrinthProject : Type 0 where
  pub id : Text
  pub slug : Text
  pub title : Text
  pub description : Text
  pub body : Text
  pub categories : List Text
  pub client_side : ModSideSupport
  pub server_side : ModSideSupport
  pub issues_url : Option Text
  pub source_url : Option Text
  pub wiki_url : Option Text
  pub discord_url : Option Text
  pub color : Json
  pub team : Text
  pub published : ℕ
  pub updated : ℕ
  pub followers : ℕ
  pub project_type : ModrinthProjectType
  pub downloads : ℕ
  pub icon_url : Text
  pub versions : List Text
  pub game_versions : List Text
  pub loaders : List Text
  pub gallery : List ModrinthGalleryItem

pub record ModrinthSearchResults : Type 0 where
  pub hits : List ModrinthSearchResult
  pub offset : ℕ
  pub limit : ℕ
  pub total_hits : ℕ

pub record ModrinthFileHashes : Type 0 where
  pub sha1 : Text
  pub sha512 : Text

pub record ModrinthProjectFile : Type 0 where
  pub hashes : ModrinthFileHashes
  pub url : Text
  pub filename : Text
  pub primary : Bool
  pub size : ℕ
  pub file_type : Option Text

pub record ModrinthProjectVersion : Type 0 where
  pub id : Text
  pub project_id : Text
  pub author_id : Text
  pub date_published : ℕ
  pub downloads : ℕ
  pub name : Text
  pub version_number : Text
  pub changelog : Option Text
  pub game_versions : List Text
  pub version_type : ModVersionType
  pub loaders : List Text
  pub featured : Bool
  pub status : Text
  pub requested_status : Option Text
  pub files : List ModrinthProjectFile
  pub dependencies : Json
