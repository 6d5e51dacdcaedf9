-- ===== src/Migrations/Tests.antt =====
-- The revisions applied to an empty database, one after the other.
use miniverse_backend.Base.{Text, ◌≡◌, refl, true, false, [], ◌∷◌, str, ◌==◌, adjust, ok}
use miniverse_backend.Migrations.Schema.{
  Table, string, Schema, is_table, with_column, with_nullable, create_table, create_index,
  drop_table, drop_index, add_column, alter_nullable, ◌>>=◌,
}
use miniverse_backend.Migrations.Revisions.{
  column, downgrade, allow_bedrock, java_version, online_mode, miniverses, miniverses_table,
  roles_table, mods_table, upgrade, initial_upgrade, initial_downgrade, allow_bedrock_upgrade,
  allow_bedrock_downgrade, java_version_upgrade, java_version_downgrade, online_mode_upgrade,
  online_mode_downgrade,
}
use miniverse_backend.Migrations.Declared
use miniverse_backend.Migrations.Upgraded
use miniverse_backend.Migrations.Undone
use miniverse_backend.Migrations.Columns.{later_revisions_undone}

-- A database with the one table that the later revisions change, after each of them.
abbrev with_one_table : Schema
with_one_table = miniverses_table ∷ []

abbrev second : Schema
second = with_column allow_bedrock miniverses_table ∷ []

abbrev third : Schema
third = with_column java_version (with_column allow_bedrock miniverses_table) ∷ []

abbrev last : Schema
last =
    with_column online_mode (with_column java_version (with_column allow_bedrock miniverses_table))
    ∷ []

second_reached : allow_bedrock_upgrade with_one_table ≡ ok second
unfolding allow_bedrock_upgrade add_column ◌==◌
second_reached = refl

third_reached : java_version_upgrade second ≡ ok third
unfolding java_version_upgrade add_column alter_nullable ◌==◌
third_reached = refl

last_reached : online_mode_upgrade third ≡ ok last
unfolding online_mode_upgrade add_column ◌==◌
last_reached = refl

later_revisions_undone_example :
    (allow_bedrock_downgrade second ≡ ok with_one_table)
    × (java_version_downgrade third
        ≡ ok (adjust (is_table miniverses) (with_nullable (str "allow_bedrock") true) second))
    × (online_mode_downgrade last ≡ ok third)
later_revisions_undone_example =
    later_revisions_undone with_one_table second second third third last second_reached
      third_reached last_reached

-- The first revision makes four tables, and undoing it takes them away again.
made_and_undone : (initial_upgrade [] >>= initial_downgrade) ≡ ok []
unfolding initial_upgrade initial_downgrade create_table create_index drop_table drop_index ◌==◌
made_and_undone = refl

-- Alembic's own table, which holds the current revision.
abbrev alembic_version : Table
alembic_version = record {
  name = str "alembic_version";
  columns = column (str "version_num") (string 32) false ∷ [];
  primary_key = str "version_num" ∷ [];
  foreign_keys = [];
  indexes = [];
}

abbrev IsApart : Text → Type 0
IsApart n = Undone.IsFree n (alembic_version ∷ [])

apart :
    IsApart miniverses
    × IsApart (str "users")
    × IsApart (str "miniverse_user_roles")
    × IsApart (str "mods")
unfolding ◌==◌
apart = ((refl, refl), (refl, refl), (refl, refl), (refl, refl))

revisions_undone_example :
    (upgrade (alembic_version ∷ []) >>= downgrade) ≡ ok (alembic_version ∷ [])
revisions_undone_example =
    Undone.revisions_undone (alembic_version ∷ []) apart.0 apart.1 apart.2 apart.3

upgrade-Fits_example :
    (upgrade (alembic_version ∷ []) ≡ ok (alembic_version ∷ Upgraded.last_tables))
    × Declared.Fits Declared.miniverse_model Upgraded.last_miniverses
    × Declared.Fits Declared.user_model Upgraded.last_users
    × Declared.Fits Declared.role_model roles_table
    × Declared.Fits Declared.mod_model mods_table
upgrade-Fits_example =
    Upgraded.upgrade-Fits (alembic_version ∷ []) apart.0.0 apart.1.0 apart.2.0 apart.3.0
