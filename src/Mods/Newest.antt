-- ===== src/Mods/Newest.antt =====
-- Which version is installed, and which one an update offers.
use miniverse_backend.Base.{
  ◌≡◌, refl, subst, ◌⊎◌, inl, inr, Bool, true, false, Bool-cases, Option-cases, Option, none, some,
  List, [], ◌∷◌, All, first, ◌≤◌, ltb, Text, arith, if◌then◌else◌,
}
use miniverse_backend.Models.{Mod}
use miniverse_backend.Mods.Schema.{ModrinthProjectVersion}
use miniverse_backend.Mods.Service.{insert_version, sort_versions, head_version, preferred, chosen}
use miniverse_backend.Mods.Updates.{suits, found_update, no_update, update_info}

abbrev newer : ModrinthProjectVersion → Option ModrinthProjectVersion → ModrinthProjectVersion
newer v none = v
newer v (some w) = if ltb v.date_published w.date_published then w else v

-- One pass over the versions: the newest, and the first in the list among those of one date.
unfoldable pub newest : List ModrinthProjectVersion → Option ModrinthProjectVersion
newest [] = none
newest (v ∷ vs) = some (newer v (newest vs))

head-insert :
    (v : ModrinthProjectVersion) (ws : List ModrinthProjectVersion)
    → head_version (insert_version v ws) ≡ some (newer v (head_version ws))
unfolding insert_version
head-insert v [] = refl
head-insert v (w ∷ ws) = ground arith

head-sort : (vs : List ModrinthProjectVersion) → head_version (sort_versions vs) ≡ newest vs
unfolding sort_versions newest
head-sort [] = refl
head-sort (v ∷ vs) = ground (arith, head-insert v (sort_versions vs), head-sort vs)

-- The version that is installed automatically is what one pass finds: the newest of the preferred
-- versions, and of those of one date the one that Modrinth lists first.
pub chosen-newest :
    (b : Bool) (vs : List ModrinthProjectVersion) → chosen b vs ≡ newest (preferred b vs)
unfolding chosen
chosen-newest b vs = head-sort (preferred b vs)

module _ (P : ModrinthProjectVersion → Type 0) where
  insert-All :
      (v : ModrinthProjectVersion) (ws : List ModrinthProjectVersion)
      → P v
      → All P ws
      → All P (insert_version v ws)
  unfolding insert_version
  insert-All v [] p q = (p, tt)
  insert-All v (w ∷ ws) p q = elim (Bool-cases (ltb v.date_published w.date_published)) [
    | inl e ↦ rw e (q.0, insert-All v ws p q.1)
    | inr e ↦ rw e (p, q)
  ]

  insert-All_back :
      (v : ModrinthProjectVersion) (ws : List ModrinthProjectVersion)
      → All P (insert_version v ws)
      → P v × All P ws
  unfolding insert_version
  insert-All_back v [] q = q
  insert-All_back v (w ∷ ws) q =
      let inserted = λ (b : Bool). All P (if b then w ∷ insert_version v ws else v ∷ w ∷ ws) in
      elim (Bool-cases (ltb v.date_published w.date_published)) [
        | inl e ↦
            let q' = subst inserted e q in let r = insert-All_back v ws q'.1 in (r.0, (q'.0, r.1))
        | inr e ↦ subst inserted e q
      ]

  sort-All_back : (vs : List ModrinthProjectVersion) → All P (sort_versions vs) → All P vs
  unfolding sort_versions
  sort-All_back [] q = tt
  sort-All_back (v ∷ vs) q =
      let r = insert-All_back v (sort_versions vs) q in (r.0, sort-All_back vs r.1)

-- From the newest to the oldest.
abbrev IsSorted : List ModrinthProjectVersion → Type 0
IsSorted [] = Unit
IsSorted (v ∷ vs) =
    All (λ (w : ModrinthProjectVersion). w.date_published ≤ v.date_published) vs × IsSorted vs

All-mono :
    (P Q : ModrinthProjectVersion → Type 0) (vs : List ModrinthProjectVersion)
    → ((v : ModrinthProjectVersion) → P v → Q v)
    → All P vs
    → All Q vs
All-mono P Q [] f p = tt
All-mono P Q (v ∷ vs) f p = (f v p.0, All-mono P Q vs f p.1)

insert-IsSorted :
    (v : ModrinthProjectVersion) (ws : List ModrinthProjectVersion)
    → IsSorted ws
    → IsSorted (insert_version v ws)
unfolding insert_version
insert-IsSorted v [] s = (tt, tt)
insert-IsSorted v (w ∷ ws) s = elim (Bool-cases (ltb v.date_published w.date_published)) [
  | inl e ↦ rw e (
    insert-All (λ (u : ModrinthProjectVersion). u.date_published ≤ w.date_published) v ws
        (ground (arith, e)) s.0,
    insert-IsSorted v ws s.1,
  )
  | inr e ↦ rw e ((ground (arith, e), All-mono _ _ ws (λ u p. ground (arith, p, e)) s.0), s)
]

sort-IsSorted : (vs : List ModrinthProjectVersion) → IsSorted (sort_versions vs)
unfolding sort_versions
sort-IsSorted [] = tt
sort-IsSorted (v ∷ vs) = insert-IsSorted v (sort_versions vs) (sort-IsSorted vs)

-- What the first version that passes the test is, in a sorted list: no version that passes is newer.
first_newest :
    (p : ModrinthProjectVersion → Bool) (v : ModrinthProjectVersion)
    (ws : List ModrinthProjectVersion)
    → IsSorted ws
    → first p ws ≡ some v
    → All (λ (u : ModrinthProjectVersion). p u ≡ true → u.date_published ≤ v.date_published) ws
first_newest p v [] s e = tt
first_newest p v (w ∷ ws) s e = elim (Bool-cases (p w)) [
  | inl t ↦ (λ _. ground (arith, e, t), All-mono _ _ ws (λ u q _. ground (arith, q, e, t)) s.0)
  | inr t ↦ (λ t'. ground (arith, t, t'), first_newest p v ws s.1 (ground (arith, e, t)))
]

first_passes :
    (p : ModrinthProjectVersion → Bool) (v : ModrinthProjectVersion)
    (ws : List ModrinthProjectVersion)
    → first p ws ≡ some v
    → p v ≡ true
first_passes p v [] e = cc
first_passes p v (w ∷ ws) e = ground (arith, first_passes p v ws)

none_passes :
    (p : ModrinthProjectVersion → Bool) (ws : List ModrinthProjectVersion)
    → first p ws ≡ none
    → All (λ u. p u ≡ false) ws
none_passes p [] e = tt
none_passes p (w ∷ ws) e = (ground arith, none_passes p ws (ground arith))

-- The answer about one mod, where Modrinth knows a version for the loader. Either no version is for the
-- game version or the installed one, and all the versions are listed with the status NO_COMPATIBLE_VERSIONS;
-- or the answer names one version that is, ALREADY_UP_TO_DATE if it is the installed one and
-- UPDATE_AVAILABLE if not, and no version that is for the game version or the installed one is newer.
pub update_info-newest :
    (game_version : Text) (m : Mod) (v : ModrinthProjectVersion) (vs : List ModrinthProjectVersion)
    → ((update_info game_version m (v ∷ vs) ≡ no_update (sort_versions (v ∷ vs)))
        × All (λ u. suits game_version m u ≡ false) (v ∷ vs))
      ⊎ ((u : ModrinthProjectVersion) × (update_info game_version m (v ∷ vs) ≡ found_update m u)
          × (suits game_version m u ≡ true)
          × All
              (λ (x : ModrinthProjectVersion).
                suits game_version m x ≡ true → x.date_published ≤ u.date_published)
              (v ∷ vs))
unfolding update_info
update_info-newest g m v vs = elim (Option-cases (first (suits g m) (sort_versions (v ∷ vs)))) [
  | inl e ↦ inl (
    ground arith,
    sort-All_back (λ u. suits g m u ≡ false) (v ∷ vs)
        (none_passes (suits g m) (sort_versions (v ∷ vs)) e),
  )
  | inr (u, e) ↦ inr (
    u,
    ground arith,
    first_passes (suits g m) u (sort_versions (v ∷ vs)) e,
    sort-All_back _ (v ∷ vs)
        (first_newest (suits g m) u (sort_versions (v ∷ vs)) (sort-IsSorted (v ∷ vs)) e),
  )
]
