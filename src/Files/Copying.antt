-- ===== src/Files/Copying.antt =====
-- Copying only adds entries, and only inside the data directory: nothing is overwritten.
use miniverse_backend.Base.{
  ◌⊎◌, ◌≡◌, refl, false, List, [], ◌∷◌, ◌++◌, Text, ok, arith, All, Result-cases, inl, inr,
}
use miniverse_backend.Files.Path.{FilePath, UserPath, drop_last, is_relative_to, safe_user_path}
use miniverse_backend.Files.Disk.{Entry, Disk, look, copy, copies, make_dirs}
use miniverse_backend.Files.Free.{name_of}
use miniverse_backend.Files.Safety.{is_relative_to-append}
use miniverse_backend.Files.Confined.{Inside, below_trans, safe-Inside, transform_pure}
use miniverse_backend.Files.Service.{
  transform_safe_miniverse_files, left_over, copytree, copy2, copy_one, copy_each,
  copy_miniverse_files,
}
use miniverse_backend.Files.Adding.{
  Adds, Adds-refl, Adds-trans, IsRooted, IsRooted-Adds, copy-Adds, All-moved, make_dirs-Adds-Inside,
  drop_last-snoc, free_in, look-append_outside,
}

-- A call that changed nothing, or added.
Adds-either :
    (base : FilePath) (d d' made : Disk)
    → (d' ≡ d) ⊎ (d' ≡ made)
    → Adds base d made
    → Adds base d d'
Adds-either base d d' made (inl e) a = rw e (Adds-refl base d)
Adds-either base d d' made (inr e) a = rw e a

copy2_cases :
    (source target : FilePath) (d : Disk)
    → let d' = (copy2 source target d).1 in (d' ≡ d) ⊎ (d' ≡ copy source target d)
unfolding copy2
copy2_cases source target d = ground arith

All-left_over :
    (base target : FilePath) (x : List Entry)
    → Inside base target
    → All (λ e. Inside base e.path) (left_over target x)
All-left_over base target [] i = tt
All-left_over base target (e ∷ x) i = (
  below_trans (target ++ e.path) target base (is_relative_to-append target e.path) i,
  All-left_over base target x i,
)

module _ (overrun : FilePath → FilePath → Disk → List Entry) where
  copytree_cases :
      (source target : FilePath) (d : Disk)
      → let d' = (copytree overrun source target d).1 in
        let made = make_dirs [] (drop_last target) d in
        (d' ≡ d)
        ⊎ (d' ≡ made ++ left_over target (overrun source target d))
        ⊎ (d' ≡ made ++ copies source target d)
  unfolding copytree
  copytree_cases source target d = ground arith

  module _ (base here source : FilePath) (inside : Inside base here) where
    below_here : (last : Text) → Inside base (here ++ last ∷ [])
    below_here last =
        below_trans (here ++ last ∷ []) here base (is_relative_to-append here (last ∷ [])) inside

    module _ (d : Disk) (rooted : IsRooted base d) where
      copytree-Adds : (last : Text) → Adds base d (copytree overrun source (here ++ last ∷ []) d).1
      copytree-Adds last =
          let target = here ++ last ∷ [] in
          let made = make_dirs [] (drop_last target) d in
          let parent : Inside base (drop_last target) = rw drop_last-snoc inside in
          let there = make_dirs-Adds-Inside base (drop_last target) d rooted parent in
          let left = left_over target (overrun source target d) in
          let copied = copies source target d in
          elim (copytree_cases source target d) [
            | inl same ↦ rw same (Adds-refl base d)
            | inr (inl ended) ↦ rw ended (
                Adds-trans base d made _ there (
                  left,
                  refl,
                  All-left_over base target (overrun source target d) (below_here last),
                ))
            | inr (inr whole) ↦ rw whole (
                Adds-trans base d made (made ++ copied) there
                  (copied, refl, All-moved base source target d (below_here last)))
          ]

      copy2-Adds : (last : Text) → Adds base d (copy2 source (here ++ last ∷ []) d).1
      copy2-Adds last =
          let target = here ++ last ∷ [] in
          Adds-either base d _ _ (copy2_cases source target d)
            (copy-Adds base source target d (below_here last))

      copy_one_cases :
          let d' = (copy_one overrun here source d).1 in
          (last : Text) × ((d' ≡ d)
            ⊎ ((d' ≡ (copytree overrun source (here ++ last ∷ []) d).1)
                ⊎ (d' ≡ (copy2 source (here ++ last ∷ []) d).1)))
      unfolding copy_one
      copy_one_cases = let (last, e) = free_in here (name_of source) d in (last, ground arith)

      copy_one-Adds : Adds base d (copy_one overrun here source d).1
      copy_one-Adds =
          let (last, cases) = copy_one_cases in
          elim cases [
            | inl same ↦ rw same (Adds-refl base d)
            | inr (inl tree) ↦ rw tree (copytree-Adds last)
            | inr (inr flat) ↦ rw flat (copy2-Adds last)
          ]

  copy_each_cases :
      (here source : FilePath) (sources : List FilePath) (d : Disk)
      → let d' = (copy_each overrun here (source ∷ sources) d).1 in
        let next = (copy_one overrun here source d).1 in
        (d' ≡ next) ⊎ (d' ≡ (copy_each overrun here sources next).1)
  unfolding copy_each
  copy_each_cases here source sources d = ground arith

  copy_each-Adds :
      (base here : FilePath) (sources : List FilePath) (d : Disk)
      → Inside base here
      → IsRooted base d
      → Adds base d (copy_each overrun here sources d).1
  unfolding copy_each
  copy_each-Adds base here [] d i h = Adds-refl base d
  copy_each-Adds base here (source ∷ sources) d i h =
      let next = (copy_one overrun here source d).1 in
      let added = copy_one-Adds base here source i d h in
      let rooted = IsRooted-Adds base d next h added in
      elim (copy_each_cases here source sources d) [
        | inl stopped ↦ rw stopped added
        | inr went_on ↦
            rw went_on
              (Adds-trans base d next _ added (copy_each-Adds base here sources next i rooted))
      ]

  copy_cases :
      (root : FilePath) (paths : List UserPath) (destination : UserPath) (d : Disk)
      → let d' = (copy_miniverse_files overrun root paths destination d).1 in
        (d' ≡ d)
        ⊎ ((here : FilePath) × (sources : List FilePath) × (safe_user_path root destination
              ≡ ok here)
            × (d' ≡ (copy_each overrun here sources d).1))
  unfolding copy_miniverse_files
  copy_cases root paths destination d =
      elim (Result-cases (transform_safe_miniverse_files root paths d).0) [
        | inr (x, bad) ↦ inl (ground (arith, transform_pure root paths d))
        | inl (sources, good) ↦ elim (Result-cases (safe_user_path root destination)) [
          | inr (x, bad) ↦ inl (ground (arith, transform_pure root paths d))
          | inl (here, e) ↦ inr (here, sources, e, ground (arith, transform_pure root paths d))
        ]
      ]

  -- Where the data directory exists, copying only adds entries to the disk, every one of them at or
  -- below the data directory, also when it raises on the way.
  pub copy_miniverse_files-Adds :
      (root : FilePath) (paths : List UserPath) (destination : UserPath) (d : Disk)
      → IsRooted root d
      → Adds root d (copy_miniverse_files overrun root paths destination d).1
  copy_miniverse_files-Adds root paths destination d h =
      elim (copy_cases root paths destination d) [
        | inl same ↦ rw same (Adds-refl root d)
        | inr (here, sources, e, went) ↦
            rw went (copy_each-Adds root here sources d (safe-Inside root destination here e) h)
      ]

  -- If the data directory and those above it exist, copying leaves every path outside it as it was.
  pub copy_miniverse_files_confined :
      (root : FilePath) (paths : List UserPath) (destination : UserPath) (d : Disk) (q : FilePath)
      → IsRooted root d
      → is_relative_to q root ≡ false
      → look q (copy_miniverse_files overrun root paths destination d).1 ≡ look q d
  copy_miniverse_files_confined root paths destination d q h o =
      let (x, went, inside) = copy_miniverse_files-Adds root paths destination d h in
      rw went (look-append_outside root q d x o inside)
