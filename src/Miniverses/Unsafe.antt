-- ===== src/Miniverses/Unsafe.antt =====
-- Mods for which Modrinth gives no version: the entries that stop a change of the Minecraft version.
use miniverse_backend.Base.{
  ◌≡◌, refl, subst, Bool, ◌&&◌, All, eq_iff, eq_refl, Result, ◌++◌, inl, inr, true, false,
  Bool-cases, Result-cases, none, first, List, [], ◌∷◌, Text, ◌==◌, exists, ok, err, arith,
}
use miniverse_backend.Base.Dict.{Dict, insert}
use miniverse_backend.Models.{Miniverse, Mod}
use miniverse_backend.Mods.Schema.{ModUpdateInfo, ModrinthProjectVersion}
use miniverse_backend.Mods.Queries.{compatible_versions}
use miniverse_backend.Mods.Service.{insert_version, sort_versions}
use miniverse_backend.Mods.Updates.{
  suits, update_info, project_text, mod_update, mod_updates, list_possible_mod_updates,
}
use miniverse_backend.Miniverses.World.{Host, World, mods_of}
use miniverse_backend.Miniverses.Upgrade.{is_unsafe}

exists-insert_version :
    (p : ModrinthProjectVersion → Bool) (v : ModrinthProjectVersion)
    (ws : List ModrinthProjectVersion)
    → p v ≡ false
    → exists p ws ≡ false
    → exists p (insert_version v ws) ≡ false
unfolding insert_version
exists-insert_version p v [] e n = ground (arith, e)
exists-insert_version p v (w ∷ ws) e n = ground (arith, e, n, exists-insert_version p v ws e)

exists-sort_versions :
    (p : ModrinthProjectVersion → Bool) (vs : List ModrinthProjectVersion)
    → exists p vs ≡ false
    → exists p (sort_versions vs) ≡ false
unfolding sort_versions
exists-sort_versions p [] n = refl
exists-sort_versions p (v ∷ vs) n =
    exists-insert_version p v (sort_versions vs) (ground (arith, n))
      (exists-sort_versions p vs (ground (arith, n)))

first_none :
    (p : ModrinthProjectVersion → Bool) (vs : List ModrinthProjectVersion)
    → exists p vs ≡ false
    → first p vs ≡ none
first_none p [] n = refl
first_none p (v ∷ vs) n = ground (arith, n, first_none p vs)

-- An entry of the mod `k` that stops the change.
abbrev is_stopping : Text → Text × ModUpdateInfo → Bool
is_stopping k e = e.0 == k && is_unsafe e

insert_stopping :
    (k : Text) (x : ModUpdateInfo) (d : Dict ModUpdateInfo)
    → is_unsafe (k, x) ≡ true
    → exists (is_stopping k) (insert k x d) ≡ true
unfolding insert
insert_stopping k x [] u = ground (arith, u, eq_refl k)
insert_stopping k x ((j, y) ∷ d) u = elim (Bool-cases (j == k)) [
  | inl same ↦ ground (arith, u, same)
  | inr other ↦ ground (arith, other, insert_stopping k x d u)
]

insert_other :
    (k j : Text) (x : ModUpdateInfo) (d : Dict ModUpdateInfo)
    → (j == k) ≡ false
    → exists (is_stopping k) d ≡ true
    → exists (is_stopping k) (insert j x d) ≡ true
unfolding insert
insert_other k j x [] o e = cc
insert_other k j x ((l, y) ∷ d) o e = elim (Bool-cases (l == j)) [
  | inl same ↦ ground (arith, e, o, same, eq_iff l j, eq_iff l k, eq_iff j k)
  | inr other ↦ elim (Bool-cases (is_stopping k (l, y))) [
    | inl here ↦ ground (arith, other, here)
    | inr later ↦ ground (arith, other, insert_other k j x d o, e, later)
  ]
]

stopping-unsafe :
    (k : Text) (d : Dict ModUpdateInfo)
    → exists (is_stopping k) d ≡ true
    → exists is_unsafe d ≡ true
stopping-unsafe k [] e = cc
stopping-unsafe k (x ∷ d) e = ground (arith, e, stopping-unsafe k d)

-- No mod of the list has the id.
abbrev pub IsAbsent : Text → List Mod → Type 0
IsAbsent k mods = All (λ (n : Mod). (n.id == k) ≡ false) mods

-- What Modrinth answers about a mod gives no version that the change could install: it fails, there is none
-- at all, or there are some, and none of them is for the Minecraft version or is the one that is installed.
abbrev pub GivesNone : Text → Mod → Result (List ModrinthProjectVersion) → Type 0
GivesNone g n (ok versions) = exists (suits g n) versions ≡ false
GivesNone g n (err e) = Unit

-- The world when the turn of a mod comes, behind the mods `before`.
abbrev pub turn_of : (h : Host) → Miniverse → Text → List Mod → World h → World h
turn_of h m g before w = (mod_updates h m g before [] w).1

module _ (h : Host) (m : Miniverse) (g : Text) where
  later_stopping :
      (k : Text) (mods : List Mod) (d : Dict ModUpdateInfo) (w : World h)
      → IsAbsent k mods
      → exists (is_stopping k) d ≡ true
      → exists (is_stopping k) (mod_updates h m g mods d w).0 ≡ true
  unfolding mod_updates
  later_stopping k [] d w a e = e
  later_stopping k (n ∷ mods) d w a e =
      later_stopping k mods _ (mod_update h m g n w).1 a.1
        (insert_other k n.id (mod_update h m g n w).0 d a.0 e)

  mod_updates-append :
      (xs ys : List Mod) (d : Dict ModUpdateInfo) (w : World h)
      → mod_updates h m g (xs ++ ys) d w
        ≡ mod_updates h m g ys (mod_updates h m g xs d w).0 (mod_updates h m g xs d w).1
  unfolding mod_updates
  mod_updates-append [] ys d w = refl
  mod_updates-append (n ∷ xs) ys d w = mod_updates-append xs ys _ (mod_update h m g n w).1

  abbrev pub answer : Mod → World h → Result (List ModrinthProjectVersion)
  answer n w = (compatible_versions h (project_text n.project_id) m g true w).0

  mod_update-unsafe :
      (k : Text) (n : Mod) (w : World h)
      → GivesNone g n (answer n w)
      → is_unsafe (k, (mod_update h m g n w).0) ≡ true
  unfolding mod_update update_info
  mod_update-unsafe k n w none_given = elim (Result-cases (answer n w)) [
    | inr (x, r) ↦ ground (arith, r)
    | inl ([], r) ↦ ground (arith, r)
    | inl (v ∷ vs, r) ↦
        let nothing : exists (suits g n) (v ∷ vs) ≡ false = subst (GivesNone g n) r none_given in
        ground (
          arith,
          r,
          first_none (suits g n) (sort_versions (v ∷ vs))
              (exists-sort_versions (suits g n) (v ∷ vs) nothing),
        )
  ]

  after_stopping :
      (before after : List Mod) (n : Mod) (w : World h)
      → IsAbsent n.id after
      → GivesNone g n (answer n (turn_of h m g before w))
      → exists
          (is_stopping n.id)
          (mod_updates h m g
            (n ∷ after)
            (mod_updates h m g before [] w).0
            (turn_of h m g before w)).0
        ≡ true
  unfolding mod_updates
  after_stopping before after n w absent none_given =
      let w1 = turn_of h m g before w in
      later_stopping n.id after _ (mod_update h m g n w1).1 absent (
        insert_stopping n.id (mod_update h m g n w1).0 (mod_updates h m g before [] w).0
          (mod_update-unsafe n.id n w1 none_given))

  -- A mod for which nothing is given when its turn comes stops the change, whatever is given for the others.
  pub list-unsafe :
      (before after : List Mod) (n : Mod) (w : World h)
      → mods_of m.id w.session ≡ before ++ n ∷ after
      → IsAbsent n.id after
      → GivesNone g n (answer n (turn_of h m g before w))
      → exists is_unsafe (list_possible_mod_updates h m g w).0 ≡ true
  unfolding list_possible_mod_updates
  list-unsafe before after n w split absent none_given =
      rw (split, mod_updates-append before (n ∷ after) [] w)
        (stopping-unsafe n.id _ (after_stopping before after n w absent none_given))
