-- ===== src/Miniverses/Changes.antt =====
-- app/api/v1/miniverses.py: the handlers of `MiniversesController` that update a miniverse and manage
-- its mods.
use miniverse_backend.Base.{
  true, Option, none, some, List, Text, Error, Action, ◌>>=◌, ◌>>◌, pure, gets, or_raise, raise, ok,
}
use miniverse_backend.Base.Dict.{Dict}
use miniverse_backend.Role
use miniverse_backend.Role.{Role}
use miniverse_backend.Models.{Miniverse, MiniverseUserRole, Tables, User, get_miniverse_role}
use miniverse_backend.Settings.{Settings}
use miniverse_backend.Mods.Schema.{ModUpdateInfo}
use miniverse_backend.Mods.Queries.{get_version_details, get_project_details}
use miniverse_backend.Mods.Service
use miniverse_backend.Mods.Updates.{list_possible_mod_updates}
use miniverse_backend.Miniverses.World.{Host, World, row, mod_row}
use miniverse_backend.Miniverses.Update.{MiniverseData}
use miniverse_backend.Miniverses.Upgrade
use miniverse_backend.Miniverses.Api.{require}

pub data ChangeRequest : Type 0 where
  update_miniverse : Text → MiniverseData → ChangeRequest
  automatic_install_mod install_mod : Text → Text → ChangeRequest
  uninstall_mod : Text → ChangeRequest
  update_mod : Text → Text → ChangeRequest
  list_mod_updates : Text → ChangeRequest

pub data ChangeReply : Type 0 where
  nothing : ChangeReply
  changed_miniverse changed_mod : Text → ChangeReply
  possible_updates : Dict ModUpdateInfo → ChangeReply

module _ (h : Host) (settings : Settings) (current_user : User)
    (roles : List MiniverseUserRole) where
  abbrev permit : Text → Role → Action (World h) (Unit {0})
  permit = require h settings current_user roles

  -- `get_miniverse`, whose answer is used without a test: an attribute of `None` where there is none.
  abbrev assumed : Text → Action (World h) Miniverse
  assumed miniverse_id = do
    found ← gets (λ w. row miniverse_id w.session)
    or_raise found Error.attribute_error

  -- `install_mod` asks Modrinth before it reads the id of the miniverse.
  abbrev install_in : Text → Option Miniverse → Action (World h) ChangeReply
  install_in mod_version_id none = do
    version ← get_version_details h mod_version_id
    _ ← get_project_details h version.project_id
    raise Error.attribute_error
  install_in mod_version_id (some m) = do
    i ← Service.install_mod h settings mod_version_id m.id
    pure (changed_mod i)

  abbrev possible : Miniverse → Action (World h) ChangeReply
  possible m w =
      let (updates, w') = list_possible_mod_updates h m m.mc_version w in
      (ok (possible_updates updates), w')

  unfoldable pub handle_change : ChangeRequest → Action (World h) ChangeReply
  unfolding require Role.lt
  handle_change (update_miniverse miniverse_id d) = do
    permit miniverse_id Role.admin
    found ← gets (λ w. row miniverse_id w.session)
    _ ← or_raise found Error.not_found
    Upgrade.update_miniverse h settings miniverse_id d
    pure (changed_miniverse miniverse_id)
  handle_change (automatic_install_mod miniverse_id mod_id) = do
    permit miniverse_id Role.moderator
    m ← assumed miniverse_id
    i ← Service.automatic_mod_install h settings mod_id m true true
    pure (changed_mod i)
  handle_change (install_mod miniverse_id mod_version_id) = do
    permit miniverse_id Role.moderator
    found ← gets (λ w. row miniverse_id w.session)
    install_in mod_version_id found
  handle_change (uninstall_mod mod_id) = do
    found ← gets (λ w. mod_row mod_id w.session)
    m ← or_raise found Error.not_found
    permit m.miniverse_id Role.moderator
    Service.uninstall_mod h settings mod_id
    pure nothing
  -- The test is `mod := (get_mod(mod_id, db) is None)`, with a coroutine: `mod` is `False`, and has no
  -- attribute `miniverse_id`.
  handle_change (update_mod mod_id new_version_id) = raise Error.attribute_error
  handle_change (list_mod_updates miniverse_id) = do
    permit miniverse_id Role.user
    m ← assumed miniverse_id
    possible m

  -- The caller's rank where a request acts, and the rank that it asks for.
  abbrev pub change_ranks : Tables → ChangeRequest → Role × Role
  change_ranks t (update_miniverse i d) = (get_miniverse_role roles i, Role.admin)
  change_ranks t (automatic_install_mod i _) = (get_miniverse_role roles i, Role.moderator)
  change_ranks t (install_mod i _) = (get_miniverse_role roles i, Role.moderator)
  change_ranks t (uninstall_mod mod_id) = elim (mod_row mod_id t) [
    | none ↦ (Role.none, Role.none)
    | some m ↦ (get_miniverse_role roles m.miniverse_id, Role.moderator)
  ]
  change_ranks t (update_mod mod_id _) = elim (mod_row mod_id t) [
    | none ↦ (Role.none, Role.none)
    | some m ↦ (get_miniverse_role roles m.miniverse_id, Role.moderator)
  ]
  change_ranks t (list_mod_updates i) = (get_miniverse_role roles i, Role.user)

  -- What a caller below the rank is told: `update_mod` fails before it looks at the rank.
  abbrev pub refusal : ChangeRequest → Error
  refusal (update_mod _ _) = Error.attribute_error
  refusal _ = Error.not_authorized
