-- ===== src/Migrations/Revisions.antt =====
-- `upgrade` and `downgrade` of the four revisions in alembic/versions.
use miniverse_backend.Base.{Bool, true, false, none, some, [], ◌∷◌, Text, str, Result}
use miniverse_backend.Migrations.Schema.{
  Column, ColumnType, string, long_text, boolean, enumeration, Index, Table, Schema, ◌>>=◌,
  create_table, drop_table, create_index, drop_index, add_column, drop_column, alter_nullable,
}

abbrev pub column : Text → ColumnType → Bool → Column
column name type nullable = record {
  name = name;
  type = type;
  nullable = nullable;
  server_default = none;
}

abbrev pub roles : ColumnType
roles = enumeration (str "role") (str "NONE" ∷ str "USER" ∷ str "MODERATOR" ∷ str "ADMIN" ∷ [])

abbrev pub miniverses : Text
miniverses = str "miniverses"

abbrev pub miniverse_types : ColumnType
miniverse_types =
    enumeration (str "miniversetype")
      (str "VANILLA" ∷ str "PAPER" ∷ str "FABRIC" ∷ str "FORGE" ∷ str "NEO_FORGE" ∷ [])

-- a524f7b6c960
abbrev pub miniverses_table : Table
miniverses_table = record {
  name = miniverses;
  columns =
      column (str "id") (string 36) false
      ∷ column (str "name") (string 128) false
      ∷ column (str "type") miniverse_types false
      ∷ column (str "description") long_text true
      ∷ column (str "container_id") (string 64) true
      ∷ column (str "mc_version") (string 64) false
      ∷ column (str "subdomain") (string 128) false
      ∷ column (str "is_on_lite_proxy") boolean false
      ∷ column (str "started") boolean false
      ∷ column (str "management_server_secret") (string 40) true
      ∷ [];
  primary_key = str "id" ∷ [];
  foreign_keys = [];
  indexes = [];
}

abbrev pub users_table : Table
users_table = record {
  name = str "users";
  columns =
      column (str "id") (string 36) false
      ∷ column (str "is_active") boolean false
      ∷ column (str "username") (string 128) false
      ∷ column (str "role") roles false
      ∷ [];
  primary_key = str "id" ∷ [];
  foreign_keys = [];
  indexes = [];
}

abbrev pub roles_table : Table
roles_table = record {
  name = str "miniverse_user_roles";
  columns =
      column (str "user_id") (string 36) false
      ∷ column (str "miniverse_id") (string 36) false
      ∷ column (str "role") roles false
      ∷ [];
  primary_key = str "user_id" ∷ str "miniverse_id" ∷ [];
  foreign_keys =
      record { column = str "miniverse_id"; table = miniverses; cascade = true }
      ∷ record { column = str "user_id"; table = str "users"; cascade = true }
      ∷ [];
  indexes = [];
}

abbrev pub mods_table : Table
mods_table = record {
  name = str "mods";
  columns =
      column (str "id") (string 36) false
      ∷ column (str "slug") (string 128) false
      ∷ column (str "version_id") (string 16) true
      ∷ column (str "project_id") (string 16) true
      ∷ column (str "title") (string 128) false
      ∷ column (str "icon_url") long_text true
      ∷ column (str "version_name") (string 128) true
      ∷ column (str "version_number") (string 128) true
      ∷ column (str "file_name") (string 128) false
      ∷ column (str "miniverse_id") (string 36) false
      ∷ [];
  primary_key = str "id" ∷ [];
  foreign_keys = record { column = str "miniverse_id"; table = miniverses; cascade = false } ∷ [];
  indexes = [];
}

abbrev pub ix_users_is_active : Index
ix_users_is_active = record {
  name = str "ix_users_is_active";
  column = str "is_active";
  unique = false;
}

abbrev pub ix_users_username : Index
ix_users_username = record {
  name = str "ix_users_username";
  column = str "username";
  unique = true;
}

unfoldable pub initial_upgrade : Schema → Result Schema
initial_upgrade s =
    create_table miniverses_table s
    >>= create_table users_table
    >>= create_index (str "users") ix_users_is_active
    >>= create_index (str "users") ix_users_username
    >>= create_table roles_table
    >>= create_table mods_table

unfoldable pub initial_downgrade : Schema → Result Schema
initial_downgrade s =
    drop_table (str "mods") s
    >>= drop_table (str "miniverse_user_roles")
    >>= drop_index (str "ix_users_username") (str "users")
    >>= drop_index (str "ix_users_is_active") (str "users")
    >>= drop_table (str "users")
    >>= drop_table miniverses

-- a35a7fd95c00
abbrev pub allow_bedrock : Column
allow_bedrock = record {
  name = str "allow_bedrock";
  type = boolean;
  nullable = false;
  server_default = some false;
}

unfoldable pub allow_bedrock_upgrade : Schema → Result Schema
allow_bedrock_upgrade = add_column miniverses allow_bedrock

unfoldable pub allow_bedrock_downgrade : Schema → Result Schema
allow_bedrock_downgrade = drop_column miniverses (str "allow_bedrock")

-- 974e10781089
abbrev pub java_version : Column
java_version = column (str "java_version") (string 64) true

unfoldable pub java_version_upgrade : Schema → Result Schema
java_version_upgrade s =
    add_column miniverses java_version s >>= alter_nullable miniverses (str "allow_bedrock") false

unfoldable pub java_version_downgrade : Schema → Result Schema
java_version_downgrade s =
    alter_nullable miniverses (str "allow_bedrock") true s
    >>= drop_column miniverses (str "java_version")

-- 0bae0007b159
abbrev pub online_mode : Column
online_mode = record {
  name = str "online_mode";
  type = boolean;
  nullable = false;
  server_default = some true;
}

unfoldable pub online_mode_upgrade : Schema → Result Schema
online_mode_upgrade = add_column miniverses online_mode

unfoldable pub online_mode_downgrade : Schema → Result Schema
online_mode_downgrade = drop_column miniverses (str "online_mode")

-- All revisions in their order, and in the reverse order.
unfoldable pub upgrade : Schema → Result Schema
upgrade s =
    initial_upgrade s >>= allow_bedrock_upgrade >>= java_version_upgrade >>= online_mode_upgrade

unfoldable pub downgrade : Schema → Result Schema
downgrade s =
    online_mode_downgrade s
    >>= java_version_downgrade
    >>= allow_bedrock_downgrade
    >>= initial_downgrade
