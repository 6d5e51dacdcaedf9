-- ===== src/Migrations/Upgraded.antt =====
-- What the revisions make of a database, against the models of app/models.
use mathlib.Core.List.{append-nil}
use miniverse_backend.Base.{◌≡◌, refl, ap, ◌∙◌, subst, false, [], ◌∷◌, ◌++◌, str, ◌==◌, ok, arith}
use miniverse_backend.Migrations.Schema.{
  Table, Schema, has_table, with_index, create_table, create_index, with_column, with_nullable,
  add_column, alter_nullable,
}
use miniverse_backend.Migrations.Revisions.{
  ix_users_is_active, ix_users_username, miniverses, miniverses_table, users_table, roles_table,
  mods_table, initial_upgrade, allow_bedrock, java_version, online_mode, allow_bedrock_upgrade,
  java_version_upgrade, online_mode_upgrade, upgrade,
}
use miniverse_backend.Migrations.Beside.{
  put, IsBeside, bind-IsBeside, create-IsBeside, create_index-IsBeside, add-IsBeside,
  alter-IsBeside,
}
use miniverse_backend.Migrations.Declared.{miniverse_model, user_model, role_model, mod_model, Fits}

-- The tables after all revisions.
abbrev pub last_miniverses : Table
last_miniverses = with_column online_mode (
    with_nullable (str "allow_bedrock") false
      (with_column java_version (with_column allow_bedrock miniverses_table)))

abbrev pub last_users : Table
last_users = with_index ix_users_username (with_index ix_users_is_active users_table)

abbrev pub last_tables : Schema
last_tables = last_miniverses ∷ last_users ∷ roles_table ∷ mods_table ∷ []

upgraded_alone : upgrade [] ≡ ok last_tables
unfolding upgrade initial_upgrade allow_bedrock_upgrade java_version_upgrade online_mode_upgrade
    create_table create_index add_column alter_nullable ◌==◌
upgraded_alone = refl

miniverses-Fits : Fits miniverse_model last_miniverses
unfolding ◌==◌
miniverses-Fits = (refl, refl, refl, refl, refl, refl, refl)

users-Fits : Fits user_model last_users
unfolding ◌==◌
users-Fits = (refl, refl, refl, refl, refl, refl, refl)

roles-Fits : Fits role_model roles_table
unfolding ◌==◌
roles-Fits = (refl, refl, refl, refl, refl, refl, refl)

mods-Fits : Fits mod_model mods_table
unfolding ◌==◌
mods-Fits = (refl, refl, refl, refl, refl, refl, refl)

module _ (s : Schema) (no_miniverses : has_table miniverses s ≡ false)
    (no_users : has_table (str "users") s ≡ false)
    (no_roles : has_table (str "miniverse_user_roles") s ≡ false)
    (no_mods : has_table (str "mods") s ≡ false) where
  upgrade-IsBeside : IsBeside s initial_upgrade
  unfolding initial_upgrade
  upgrade-IsBeside =
      bind-IsBeside s _ _
        (bind-IsBeside s _ _
          (bind-IsBeside s _ _
            (bind-IsBeside s _ _
              (bind-IsBeside s _ _ (create-IsBeside s miniverses_table no_miniverses refl)
                (create-IsBeside s users_table no_users refl))
              (create_index-IsBeside s (str "users") _ no_users))
            (create_index-IsBeside s (str "users") _ no_users))
          (create-IsBeside s roles_table no_roles (ground (arith, no_miniverses, no_users))))
        (create-IsBeside s mods_table no_mods (ground (arith, no_miniverses)))

  pub upgrade_all-IsBeside : IsBeside s upgrade
  unfolding upgrade allow_bedrock_upgrade java_version_upgrade online_mode_upgrade
  upgrade_all-IsBeside =
      bind-IsBeside s _ _
        (bind-IsBeside s _ _
          (bind-IsBeside s _ _ upgrade-IsBeside
            (add-IsBeside s miniverses allow_bedrock no_miniverses))
          (bind-IsBeside s _ _ (add-IsBeside s miniverses java_version no_miniverses)
            (alter-IsBeside s miniverses (str "allow_bedrock") false no_miniverses)))
        (add-IsBeside s miniverses online_mode no_miniverses)

  -- On a database where no table has the name of one of the program's four tables, all revisions succeed
  -- one after the other, and add one table for each model, after the tables that were there. Each has its
  -- model's columns with their types (strings of the default length) and nullability and no others, its
  -- primary key, its foreign keys and its indexes.
  pub upgrade-Fits :
      (upgrade s ≡ ok (s ++ last_miniverses ∷ last_users ∷ roles_table ∷ mods_table ∷ []))
      × Fits miniverse_model last_miniverses
      × Fits user_model last_users
      × Fits role_model roles_table
      × Fits mod_model mods_table
  upgrade-Fits = (
    subst (λ z. upgrade z ≡ ok (s ++ last_tables)) (append-nil s)
        (upgrade_all-IsBeside [] ∙ ap (put s) upgraded_alone),
    miniverses-Fits,
    users-Fits,
    roles-Fits,
    mods-Fits,
  )
