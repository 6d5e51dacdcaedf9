-- ===== src/Migrations/Declared.antt =====
-- The tables that the models of app/models declare, as SQLAlchemy reads them.
use miniverse_backend.Base.{
  Bool, Text, ◌++◌, Option, some, none, first, map, length, ◌≡◌, true, false, List, [], ◌∷◌, str,
  ◌==◌,
}
use miniverse_backend.Migrations.Schema.{
  Index, ColumnType, enumeration, string, long_text, boolean, is_column, ForeignKey, Table, Column,
}
use miniverse_backend.Migrations.Revisions.{column, miniverses}
use miniverse_backend.Role.{Role}
use miniverse_backend.Models.{MiniverseType}

-- The names of the members of `MiniverseType` and of `Role`.
abbrev pub type_member : MiniverseType → Text
type_member MiniverseType.vanilla = str "VANILLA"
type_member MiniverseType.paper = str "PAPER"
type_member MiniverseType.fabric = str "FABRIC"
type_member MiniverseType.forge = str "FORGE"
type_member MiniverseType.neo_forge = str "NEO_FORGE"

abbrev pub role_member : Role → Text
role_member Role.none = str "NONE"
role_member Role.user = str "USER"
role_member Role.moderator = str "MODERATOR"
role_member Role.admin = str "ADMIN"

-- `Enum(E)` has the name of the class in lower case and the names of its members.
abbrev pub miniverse_type_column : ColumnType
miniverse_type_column = enumeration (str "miniversetype") (
    map type_member (
      MiniverseType.vanilla ∷ MiniverseType.paper ∷ MiniverseType.fabric ∷ MiniverseType.forge
      ∷ MiniverseType.neo_forge ∷ []))

abbrev pub role_column : ColumnType
role_column =
    enumeration (str "role")
      (map role_member (Role.none ∷ Role.user ∷ Role.moderator ∷ Role.admin ∷ []))

-- `index=True` makes an index named after the table and the column, of unique values if `unique=True`.
abbrev index_of : Text → Text → Bool → Index
index_of table name unique = record {
  name = str "ix_" ++ (table ++ (b'_' ∷ name));
  column = name;
  unique = unique;
}

-- The columns of `Miniverse`, with the default length of a string; `default=` is not the database's.
abbrev model_columns : List Column
model_columns =
    column (str "id") (string 36) false
    ∷ column (str "name") (string 128) false
    ∷ column (str "type") miniverse_type_column false
    ∷ column (str "description") long_text true
    ∷ column (str "container_id") (string 64) true
    ∷ column (str "java_version") (string 64) true
    ∷ column (str "mc_version") (string 64) false
    ∷ column (str "subdomain") (string 128) false
    ∷ column (str "online_mode") boolean false
    ∷ column (str "is_on_lite_proxy") boolean false
    ∷ column (str "allow_bedrock") boolean false
    ∷ column (str "started") boolean false
    ∷ column (str "management_server_secret") (string 40) true
    ∷ []

-- The table of `Miniverse`.
abbrev pub miniverse_model : Table
miniverse_model = record {
  name = miniverses;
  columns = model_columns;
  primary_key = str "id" ∷ [];
  foreign_keys = [];
  indexes = [];
}

-- The table of `User`, whose indexes have the names that SQLAlchemy gives them.
abbrev pub user_model : Table
user_model = record {
  name = str "users";
  columns =
      column (str "id") (string 36) false
      ∷ column (str "is_active") boolean false
      ∷ column (str "username") (string 128) false
      ∷ column (str "role") role_column false
      ∷ [];
  primary_key = str "id" ∷ [];
  foreign_keys = [];
  indexes =
      index_of (str "users") (str "is_active") false
      ∷ index_of (str "users") (str "username") true
      ∷ [];
}

-- The table of `MiniverseUserRole`.
abbrev pub role_model : Table
role_model = record {
  name = str "miniverse_user_roles";
  columns =
      column (str "user_id") (string 36) false
      ∷ column (str "miniverse_id") (string 36) false
      ∷ column (str "role") role_column false
      ∷ [];
  primary_key = str "user_id" ∷ str "miniverse_id" ∷ [];
  foreign_keys =
      record { column = str "user_id"; table = str "users"; cascade = true }
      ∷ record { column = str "miniverse_id"; table = miniverses; cascade = true }
      ∷ [];
  indexes = [];
}

-- The table of `Mod`.
abbrev pub mod_model : Table
mod_model = record {
  name = str "mods";
  columns =
      column (str "id") (string 36) false
      ∷ column (str "slug") (string 128) false
      ∷ column (str "version_id") (string 16) true
      ∷ column (str "project_id") (string 16) true
      ∷ column (str "title") (string 128) false
      ∷ column (str "icon_url") long_text true
      ∷ column (str "version_name") (string 128) true
      ∷ column (str "version_number") (string 128) true
      ∷ column (str "file_name") (string 128) false
      ∷ column (str "miniverse_id") (string 36) false
      ∷ [];
  primary_key = str "id" ∷ [];
  foreign_keys = record { column = str "miniverse_id"; table = miniverses; cascade = false } ∷ [];
  indexes = [];
}

abbrev bare : Option Column → Option Column
bare (some c) = some (record c { server_default = none })
bare none = none

-- What a table has under the names of the given columns, its server defaults aside.
abbrev pub found : List Column → Table → List (Option Column)
found cs t = map (λ c. bare (first (is_column c.name) t.columns)) cs

-- The keys that a table has in the columns of the given ones.
abbrev pub found_keys : List ForeignKey → Table → List (Option ForeignKey)
found_keys ks t = map (λ k. first (λ j. j.column == k.column) t.foreign_keys) ks

-- The table `t` is that of the model `m`, the order of columns and keys and the server defaults aside.
abbrev pub Fits : Table → Table → Type 0
Fits m t =
    (m.name ≡ t.name)
    × (found m.columns t ≡ map some m.columns)
    × (length t.columns ≡ length m.columns)
    × (t.primary_key ≡ m.primary_key)
    × (found_keys m.foreign_keys t ≡ map some m.foreign_keys)
    × (length t.foreign_keys ≡ length m.foreign_keys)
    × (t.indexes ≡ m.indexes)
