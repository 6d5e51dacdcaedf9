-- ===== src/Miniverses/Upgrades.antt =====
-- When a change of the Minecraft version is refused, and what it leaves when it succeeds.
use miniverse_backend.Base.{
  ◌≡◌, refl, ◌∙◌, ◌⊎◌, inl, inr, Bool, true, false, Bool-cases, Result-cases, Option, none, some,
  List, [], ◌∷◌, ◌++◌, Text, ◌==◌, Action, ◌>>◌, ok, err, Error, arith,
}
use miniverse_backend.Base.Dict.{Dict}
use miniverse_backend.Models.{Miniverse, Mod, Tables}
use miniverse_backend.Settings.{Settings}
use miniverse_backend.Events.{MiniverseEvent}
use miniverse_backend.Files.Disk.{Disk}
use miniverse_backend.Version.Compare.{compare_versions}
use miniverse_backend.Mods.Schema.{ModUpdateInfo}
use miniverse_backend.Mods.Queries.{list_project_versions, compatible_versions}
use miniverse_backend.Mods.Updates.{mod_update, mod_updates, list_possible_mod_updates}
use miniverse_backend.Miniverses.World.{Host, World, the, row, set_row, mods_of}
use miniverse_backend.Miniverses.Lifecycle.{start_miniverse, stop_miniverse}
use miniverse_backend.Miniverses.Running.{
  first-adjust_self, row-start_miniverse, start_miniverse_found,
}
use miniverse_backend.Miniverses.Unsafe.{IsAbsent, GivesNone, turn_of, answer, list-unsafe}
use miniverse_backend.Base.Binding.{Ensures, bind-Ensures}
use miniverse_backend.Miniverses.Upgrade.{
  accept_comparison, takes_mods, update_mods, update_mods_of, check_version, restart_with,
  with_mc_version, update_miniverse_game_version,
}

-- Everything but what is outside.
abbrev pub inside : {h : Host} → World h → Tables × Tables × List MiniverseEvent × Disk
inside w = (w.db, w.session, w.events, w.disk)

module _ (h : Host) where
  mod_update-inside :
      (m : Miniverse) (g : Text) (n : Mod) (w : World h)
      → inside (mod_update h m g n w).1 ≡ inside w
  unfolding mod_update compatible_versions list_project_versions
  mod_update-inside m g n w = ground arith

  mod_updates-inside :
      (m : Miniverse) (g : Text) (mods : List Mod) (d : Dict ModUpdateInfo) (w : World h)
      → inside (mod_updates h m g mods d w).1 ≡ inside w
  unfolding mod_updates
  mod_updates-inside m g [] d w = refl
  mod_updates-inside m g (n ∷ mods) d w =
      mod_updates-inside m g mods _ (mod_update h m g n w).1 ∙ mod_update-inside m g n w

  list-inside :
      (m : Miniverse) (g : Text) (w : World h)
      → inside (list_possible_mod_updates h m g w).1 ≡ inside w
  unfolding list_possible_mod_updates
  list-inside m g w = mod_updates-inside m g (mods_of m.id w.session) [] w

module _ (h : Host) (settings : Settings) (i v : Text) (w : World h) (m : Miniverse)
    (r : row i w.session ≡ some m) where
  -- A change to the version that the miniverse has, or to one that `compare_versions` does not place after
  -- it, is refused, and nothing changes.
  pub update_game_version_refused :
      ((m.mc_version == v) ≡ true)
        ⊎ ((e : Error) × (accept_comparison
                (compare_versions (h.get_minecraft_versions w.outside) m.mc_version v)
              ≡ err e))
      → (e : Error) × (update_miniverse_game_version h settings i v w ≡ (err e, w))
  unfolding update_miniverse_game_version check_version
  update_game_version_refused (inl e) = (Error.validation, ground arith)
  update_game_version_refused (inr (x, e)) = elim (Bool-cases (m.mc_version == v)) [
    | inl same ↦ (Error.validation, ground arith)
    | inr differs ↦ (x, ground arith)
  ]

  -- A miniverse that takes mods and has a mod `n` of an id of its own, for which Modrinth, when the turn of `n`
  -- comes, fails, gives no versions, or gives only versions that are neither for the new Minecraft version nor
  -- the installed one: a change to another version that the comparison accepts is refused as not valid, and the
  -- tables, the events and the files stay as they are.
  pub unsafe_update_refused :
      (before after : List Mod) (n : Mod)
      → (m.mc_version == v) ≡ false
      → takes_mods m.type ≡ true
      → accept_comparison (compare_versions (h.get_minecraft_versions w.outside) m.mc_version v)
        ≡ ok tt
      → mods_of m.id w.session ≡ before ++ n ∷ after
      → IsAbsent n.id after
      → GivesNone v n (answer h m v n (turn_of h m v before w))
      → ((update_miniverse_game_version h settings i v w).0 ≡ err Error.validation)
        × (inside (update_miniverse_game_version h settings i v w).1 ≡ inside w)
  unfolding update_miniverse_game_version check_version update_mods
  unsafe_update_refused before after n differs modded accepted split absent none_given =
      let unsafe = list-unsafe h m v before after n w split absent none_given in
      (ground (arith, unsafe), ground (arith, unsafe, list-inside h m v w))

abbrev pub version_of : Option Miniverse → Option (Text × Bool)
version_of none = none
version_of (some m) = some (m.mc_version, m.started)

module _ (h : Host) (settings : Settings) (i v : Text) where
  -- The state in which the miniverse is started again.
  abbrev renewed : World h → World h
  renewed w =
      let stopped = (stop_miniverse h settings i w).1 in
      let t = set_row i (with_mc_version v) stopped.session in
      record stopped { db = t; session = t }

  started_runs :
      (w : World h) (c : Text)
      → (start_miniverse h settings i (renewed w)).0 ≡ ok c
      → version_of (row i (start_miniverse h settings i (renewed w)).1.db) ≡ some (v, true)
  started_runs w c e =
      let (m, r) = start_miniverse_found h settings i (renewed w) c e in
      ground (
        arith,
        r,
        row-start_miniverse h settings i (renewed w) c m r e,
        first-adjust_self i (with_mc_version v) (stop_miniverse h settings i w).1.session.miniverses
            (λ m. refl),
      )

  -- The committed row has the new version and is started.
  abbrev Renewed : World h → Type 0
  Renewed w = version_of (row i w.db) ≡ some (v, true)

  restart_with-Ensures : Ensures Renewed (restart_with h settings i v)
  unfolding restart_with
  restart_with-Ensures w u e = elim (Result-cases (stop_miniverse h settings i w).0) [
    | inr (x, s) ↦ ground arith
    | inl (u, s) ↦ elim (Result-cases (start_miniverse h settings i (renewed w)).0) [
      | inr (x, t) ↦ ground arith
      | inl (c, t) ↦ ground (arith, started_runs w c t)
    ]
  ]

  -- When `update_miniverse_game_version` returns, the committed row has the new version and says that the
  -- miniverse is started.
  pub update_game_version_runs :
      (w : World h)
      → (update_miniverse_game_version h settings i v w).0 ≡ ok tt
      → version_of (row i (update_miniverse_game_version h settings i v w).1.db) ≡ some (v, true)
  unfolding update_miniverse_game_version
  update_game_version_runs w e =
      let rest : Miniverse → Action (World h) (Unit {0}) =
        λ m. update_mods_of h settings (takes_mods m.type) m v >> restart_with h settings i v in
      bind-Ensures Renewed (the i) (λ m. check_version h settings v m >> rest m)
        (λ m.
          bind-Ensures Renewed (check_version h settings v m) (λ _. rest m)
            λ _.
              bind-Ensures Renewed (update_mods_of h settings (takes_mods m.type) m v)
                (λ _. restart_with h settings i v) λ _. restart_with-Ensures)
        w tt e
