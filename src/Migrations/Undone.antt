-- ===== src/Migrations/Undone.antt =====
-- Undoing the revisions, beside the tables of another program.
use mathlib.Core.List.{append-nil}
use miniverse_backend.Base.{◌≡◌, refl, ap, ◌∙◌, subst, true, false, [], Text, str, ◌==◌, ok}
use miniverse_backend.Migrations.Schema.{
  Schema, ◌>>=◌, has_table, is_referred, create_table, drop_table, create_index, drop_index,
  add_column, drop_column, alter_nullable,
}
use miniverse_backend.Migrations.Revisions.{
  miniverses, initial_upgrade, initial_downgrade, allow_bedrock_upgrade, allow_bedrock_downgrade,
  java_version_upgrade, java_version_downgrade, online_mode_upgrade, online_mode_downgrade, upgrade,
  downgrade,
}
use miniverse_backend.Migrations.Beside.{
  put, IsBeside, bind-IsBeside, drop-IsBeside, drop_index-IsBeside, column-IsBeside, alter-IsBeside,
}
use miniverse_backend.Migrations.Upgraded.{upgrade_all-IsBeside}

-- The revisions on an empty database.
undone_alone : (upgrade [] >>= downgrade) ≡ ok []
unfolding upgrade downgrade initial_upgrade initial_downgrade allow_bedrock_upgrade
    allow_bedrock_downgrade java_version_upgrade java_version_downgrade online_mode_upgrade
    online_mode_downgrade create_table create_index drop_table drop_index add_column drop_column
    alter_nullable ◌==◌
undone_alone = refl

-- No table has the name, and none refers to it.
abbrev pub IsFree : Text → Schema → Type 0
IsFree n s = (has_table n s ≡ false) × (is_referred n s ≡ false)

module _ (s : Schema) (free_miniverses : IsFree miniverses s) (free_users : IsFree (str "users") s)
    (free_roles : IsFree (str "miniverse_user_roles") s) (free_mods : IsFree (str "mods") s) where
  downgrade-IsBeside : IsBeside s initial_downgrade
  unfolding initial_downgrade
  downgrade-IsBeside =
      bind-IsBeside s _ _
        (bind-IsBeside s _ _
          (bind-IsBeside s _ _
            (bind-IsBeside s _ _
              (bind-IsBeside s _ _ (drop-IsBeside s (str "mods") free_mods.0 free_mods.1)
                (drop-IsBeside s (str "miniverse_user_roles") free_roles.0 free_roles.1))
              (drop_index-IsBeside s _ (str "users") free_users.0))
            (drop_index-IsBeside s _ (str "users") free_users.0))
          (drop-IsBeside s (str "users") free_users.0 free_users.1))
        (drop-IsBeside s miniverses free_miniverses.0 free_miniverses.1)

  downgrade_all-IsBeside : IsBeside s downgrade
  unfolding downgrade allow_bedrock_downgrade java_version_downgrade online_mode_downgrade
  downgrade_all-IsBeside =
      bind-IsBeside s _ _
        (bind-IsBeside s _ _
          (bind-IsBeside s _ _ (column-IsBeside s miniverses (str "online_mode") free_miniverses.0)
            (bind-IsBeside s _ _
              (alter-IsBeside s miniverses (str "allow_bedrock") true free_miniverses.0)
              (column-IsBeside s miniverses (str "java_version") free_miniverses.0)))
          (column-IsBeside s miniverses (str "allow_bedrock") free_miniverses.0))
        downgrade-IsBeside

  -- On a database where no table has the name of one of the program's four tables or refers to one, all
  -- revisions succeed one after the other, and undoing them in the reverse order succeeds and gives the
  -- database back as it was, its other tables included.
  pub revisions_undone : (upgrade s >>= downgrade) ≡ ok s
  revisions_undone =
      subst (λ z. (upgrade z >>= downgrade) ≡ ok z) (append-nil s)
        (bind-IsBeside s upgrade downgrade
            (upgrade_all-IsBeside s free_miniverses.0 free_users.0 free_roles.0 free_mods.0)
            downgrade_all-IsBeside []
          ∙ ap (put s) undone_alone)
