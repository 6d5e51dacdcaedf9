-- ===== src/Miniverses/Upgrade.antt =====
-- `update_miniverse` and `update_miniverse_game_version` of app/services/miniverse_service.py.
use miniverse_backend.Base.{
  Bool, true, false, not, ◌||◌, Option, none, some, List, [], ◌∷◌, Text, ◌==◌, exists, Result, ok,
  err, Error, Action, ◌>>=◌, ◌>>◌, pure, or_raise, raise_if, if◌then◌else◌, zero, suc,
}
use miniverse_backend.Base.Int.{ℤ}
use miniverse_backend.Base.Dict.{Dict, lookup}
use miniverse_backend.Models.{Miniverse, MiniverseType, Mod}
use miniverse_backend.Settings.{Settings}
use miniverse_backend.Events.{miniverse_updated_event}
use miniverse_backend.Version.Compare.{compare_versions}
use miniverse_backend.Mods.Schema.{ModUpdateInfo, ModUpdateStatus}
use miniverse_backend.Mods.Service.{update_mod}
use miniverse_backend.Mods.Updates.{list_possible_mod_updates}
use miniverse_backend.Miniverses.World.{Host, World, commit, publish, mods_of, assign, the}
use miniverse_backend.Miniverses.Proxy.{update_proxy_config}
use miniverse_backend.Miniverses.Lifecycle.{start_miniverse, stop_miniverse, restart_miniverse}
use miniverse_backend.Miniverses.Update.{
  Field, MiniverseData, fields_to_update, update_fields, should_restart, text_changes,
}

abbrev is_positive : ℤ → Bool
is_positive (ℤ.pos zero) = false
is_positive (ℤ.pos (suc n)) = true
is_positive (ℤ.negsuc n) = false

-- The tests on the answer of `compare_versions`.
unfoldable pub accept_comparison : Result (Option ℤ) → Result (Unit {0})
accept_comparison (err e) = err e
accept_comparison (ok none) = err Error.validation
accept_comparison (ok (some c)) = if is_positive c then err Error.validation else ok tt

abbrev pub takes_mods : MiniverseType → Bool
takes_mods MiniverseType.forge = true
takes_mods MiniverseType.neo_forge = true
takes_mods MiniverseType.fabric = true
takes_mods MiniverseType.vanilla = false
takes_mods MiniverseType.paper = false

-- `update_status in [ERROR, NO_COMPATIBLE_VERSIONS]`
abbrev pub is_unsafe : Text × ModUpdateInfo → Bool
is_unsafe (i, info) = elim info.update_status [
  | ModUpdateStatus.error ↦ true
  | ModUpdateStatus.no_compatible_versions ↦ true
  | _ ↦ false
]

abbrev first_id : List Text → Option Text
first_id [] = none
first_id (v ∷ vs) = some v

abbrev is_empty : List Field → Bool
is_empty [] = true
is_empty (f ∷ fs) = false

-- The intersection with {'subdomain', 'allow_bedrock'}
abbrev is_routed : Field → Bool
is_routed Field.subdomain = true
is_routed Field.allow_bedrock = true
is_routed _ = false

abbrev pub with_mc_version : Text → Miniverse → Miniverse
with_mc_version v m = record m { mc_version = v }

module _ (h : Host) (settings : Settings) where
  abbrev update_one : Mod → ModUpdateInfo → Action (World h) (Unit {0})
  update_one m info = elim info.update_status [
    | ModUpdateStatus.update_available ↦ do
      new_version_id ← or_raise (first_id info.new_versions_ids) Error.index_error
      _ ← update_mod h settings m.id new_version_id
      pure tt
    | _ ↦ pure tt
  ]

  unfoldable pub apply_updates : Dict ModUpdateInfo → List Mod → Action (World h) (Unit {0})
  unfolding lookup
  apply_updates updates [] = pure tt
  apply_updates updates (m ∷ mods) = do
    info ← or_raise (lookup m.id updates) Error.key_error
    update_one m info
    apply_updates updates mods

  unfoldable pub update_mods : Miniverse → Text → Action (World h) (Unit {0})
  unfolding apply_updates
  update_mods m new_mc_version w =
      let (updates, w') = list_possible_mod_updates h m new_mc_version w in
      if exists is_unsafe updates
      then (err Error.validation, w')
      else apply_updates updates (mods_of m.id w'.session) w'

  abbrev pub update_mods_of : Bool → Miniverse → Text → Action (World h) (Unit {0})
  update_mods_of false m new_mc_version = pure tt
  update_mods_of true m new_mc_version = update_mods m new_mc_version

  -- The end of `update_miniverse_game_version`.
  unfoldable pub restart_with : Text → Text → Action (World h) (Unit {0})
  restart_with i new_mc_version = do
    stop_miniverse h settings i
    assign i (with_mc_version new_mc_version)
    commit
    _ ← start_miniverse h settings i
    pure tt

  -- The tests at the beginning of `update_miniverse_game_version`.
  unfoldable pub check_version : Text → Miniverse → Action (World h) (Unit {0})
  unfolding accept_comparison
  check_version new_mc_version m w =
      let versions = h.get_minecraft_versions w.outside in
      (raise_if (m.mc_version == new_mc_version) Error.validation >> λ w.
      (accept_comparison (compare_versions versions m.mc_version new_mc_version), w))
        w

  -- `force_update` is false in every call.
  unfoldable pub update_miniverse_game_version : Text → Text → Action (World h) (Unit {0})
  unfolding update_mods check_version restart_with
  update_miniverse_game_version i new_mc_version = do
    m ← the i
    check_version new_mc_version m
    update_mods_of (takes_mods m.type) m new_mc_version
    restart_with i new_mc_version

  abbrev when : Bool → Action (World h) (Unit {0}) → Action (World h) (Unit {0})
  when true m = m
  when false m = pure tt

  abbrev change_version : Bool → Option Text → Text → Action (World h) (Unit {0})
  change_version true (some v) i = update_miniverse_game_version i v
  change_version true none i = pure tt
  change_version false v i = pure tt

  -- What follows the loop over the fields.
  unfoldable pub finish_update : Text → MiniverseData → List Field → Action (World h) (Unit {0})
  unfolding update_miniverse_game_version should_restart
  finish_update i d changed_fields = do
    m ← the i
    let version_changed = text_changes d.mc_version (some m.mc_version)
    let restarts = should_restart d m
    when (not (is_empty changed_fields)) commit
    change_version version_changed d.mc_version i
    when restarts (restart_miniverse h settings i >>= λ _. pure tt)
    when (exists is_routed changed_fields) (update_proxy_config h settings)
    when (not (is_empty changed_fields) || version_changed)
        (publish (miniverse_updated_event i none))

  unfoldable pub update_miniverse : Text → MiniverseData → Action (World h) (Unit {0})
  unfolding finish_update
  update_miniverse i d = do
    changed_fields ← update_fields h i d fields_to_update
    finish_update i d changed_fields
