-- ===== src/Models.antt =====
-- The database tables of app/models: `User` and `MiniverseUserRole` (user.py), `Miniverse`
-- (miniverse.py) and `Mod` (mod.py), with the enumerations of app/enums that their columns hold.
-- A relationship of the ORM is the rows of the other table that carry the key.
use miniverse_backend.Base.{Bool, Option, List, Text, ◌==◌, keep, first}
use miniverse_backend.Role
use miniverse_backend.Role.{Role}

pub data MiniverseType : Type 0 where
  vanilla paper fabric forge neo_forge : MiniverseType

pub record User : Type 0 where
  pub id : Text
  pub is_active : Bool
  pub username : Text
  pub role : Role

pub record MiniverseUserRole : Type 0 where
  pub user_id : Text
  pub miniverse_id : Text
  pub role : Role

pub record Mod : Type 0 where
  pub id : Text
  pub slug : Text
  pub version_id : Option Text
  pub project_id : Option Text
  pub title : Text
  pub icon_url : Option Text
  pub version_name : Option Text
  pub version_number : Option Text
  pub file_name : Text
  pub miniverse_id : Text

pub record Miniverse : Type 0 where
  pub id : Text
  pub name : Text
  pub type : MiniverseType
  pub description : Option Text
  pub container_id : Option Text
  pub java_version : Option Text
  pub mc_version : Text
  pub subdomain : Text
  pub online_mode : Bool
  pub is_on_lite_proxy : Bool
  pub allow_bedrock : Bool
  pub started : Bool
  pub management_server_secret : Option Text

pub record Tables : Type 0 where
  pub users : List User
  pub users_roles : List MiniverseUserRole
  pub miniverses : List Miniverse
  pub mods : List Mod

-- `User.miniverses_roles`
abbrev pub miniverses_roles : Tables → User → List MiniverseUserRole
miniverses_roles t u = keep (λ r. r.user_id == u.id) t.users_roles

-- `User.get_miniverse_role`, over `self.miniverses_roles`
unfoldable pub get_miniverse_role : List MiniverseUserRole → Text → Role
get_miniverse_role roles miniverse_id = elim (first (λ r. r.miniverse_id == miniverse_id) roles) [
  | Option.none ↦ Role.none
  | Option.some r ↦ r.role
]

-- `User.is_admin`, `User.is_moderator`
unfoldable pub is_admin : User → Bool
unfolding Role.ge
is_admin u = Role.ge u.role (Option.some Role.admin)

unfoldable pub is_moderator : User → Bool
unfolding Role.ge
is_moderator u = Role.ge u.role (Option.some Role.moderator)
