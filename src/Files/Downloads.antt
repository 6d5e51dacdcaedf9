-- ===== src/Files/Downloads.antt =====
-- What a download can give out, and what the names of files can do to its manifest.
use miniverse_backend.Base.{
  ◌≡◌, refl, subst, Bool, true, false, ◌&&◌, Bool-cases, Result-cases, inl, inr, ◌⊎◌, List, [], ◌∷◌,
  ◌++◌, Text, keep, map, All, ok, arith,
}
use miniverse_backend.Models.{Miniverse, MiniverseUserRole}
use miniverse_backend.Settings.{Settings}
use miniverse_backend.Files.Path.{FilePath, path_of_text, drop_last}
use miniverse_backend.Files.Disk.{Entry, Disk, path_eq, is_dir, is_file, is_below}
use miniverse_backend.Files.Confined.{Inside, below_trans, transform-Inside, transform_pure}
use miniverse_backend.Files.Naming.{path_eq_iff}
use miniverse_backend.Files.Service.{transform_safe_miniverse_files}
use miniverse_backend.Files.Api.{is_refused, data_root}
use miniverse_backend.Files.Download.{
  is_regular, listed, Response, Listed, listed_below, listed_files, archive_of, redirect_to,
  download_files, split_commas, handle_download,
}

-- The answer names one file, or lists files; each one is at the base or below it.
abbrev pub GivesInside : FilePath → FilePath → Response → Type 0
GivesInside base data_path r =
    ((p : FilePath) × Inside base p × (r ≡ redirect_to data_path p))
    ⊎ ((fs : List Listed) × All (λ (f : Listed). Inside base f.path) fs
        × (r ≡ archive_of data_path fs))

abbrev AllInside : FilePath → List Listed → Type 0
AllInside base = All (λ (f : Listed). Inside base f.path)

kept-Inside :
    (base parent : FilePath) (p : Entry → Bool) (d : Disk)
    → ((e : Entry) → p e ≡ true → Inside base e.path)
    → AllInside base (map (listed parent) (keep p d))
kept-Inside base parent p [] h = tt
kept-Inside base parent p (e ∷ d) h = elim (Bool-cases (p e)) [
  | inl kept ↦ rw kept (h e kept, kept-Inside base parent p d h)
  | inr dropped ↦ rw dropped (kept-Inside base parent p d h)
]

listed_below-Inside :
    (base p : FilePath) (d : Disk) → Inside base p → AllInside base (listed_below p d)
unfolding listed_below
listed_below-Inside base p d h = elim (Bool-cases (is_file p d)) [
  | inl regular ↦ rw regular (
      kept-Inside base (drop_last p) (λ e. path_eq e.path p) d
        (λ e k. ground (arith, h, k, path_eq_iff e.path p)))
  | inr other ↦ elim (Bool-cases (is_dir p d)) [
    | inl directory ↦
        rw (other, directory)
          (kept-Inside base (drop_last p) (λ e. is_below p e && is_regular e) d
            (λ e k. below_trans e.path p base (ground (arith, k)) h))
    | inr nothing ↦ rw (other, nothing) tt
  ]
]

append-Inside :
    (base : FilePath) (fs gs : List Listed)
    → AllInside base fs
    → AllInside base gs
    → AllInside base (fs ++ gs)
append-Inside base [] gs h k = k
append-Inside base (f ∷ fs) gs h k = (h.0, append-Inside base fs gs h.1 k)

listed_files-Inside :
    (base : FilePath) (paths : List FilePath) (d : Disk)
    → All (Inside base) paths
    → AllInside base (listed_files paths d)
unfolding listed_files
listed_files-Inside base [] d h = tt
listed_files-Inside base (p ∷ paths) d h =
    append-Inside base (listed_below p d) (listed_files paths d) (listed_below-Inside base p d h.0)
      (listed_files-Inside base paths d h.1)

download_files-Inside :
    (base data_path : FilePath) (paths : List FilePath) (d : Disk)
    → All (Inside base) paths
    → GivesInside base data_path (download_files data_path paths d)
unfolding download_files
download_files-Inside base data_path [] d h = inr ([], tt, refl)
download_files-Inside base data_path (p ∷ []) d h = elim (Bool-cases (is_file p d)) [
  | inl regular ↦ rw regular (inl (p, h.0, refl))
  | inr other ↦
      inr (listed_files (p ∷ []) d, listed_files-Inside base (p ∷ []) d h, ground (arith, other))
]
download_files-Inside base data_path (p ∷ q ∷ paths) d h =
    inr (listed_files (p ∷ q ∷ paths) d, listed_files-Inside base (p ∷ q ∷ paths) d h, refl)

module _ (settings : Settings) (miniverses : List Miniverse) (roles : List MiniverseUserRole) where
  data_root_pure :
      (miniverse_id : Text) (d : Disk) → (data_root settings miniverses roles miniverse_id d).1 ≡ d
  unfolding data_root
  data_root_pure miniverse_id d = ground arith

  -- An answer of the download route goes to a moderator of the miniverse only, leaves the disk as it is, and is
  -- the redirection to one path, or a manifest made with one record for each of some files; this path and these
  -- files are in the data directory of that miniverse. It speaks of the records, not of the lines of the
  -- text that they are written out to.
  pub handle_download_inside :
      (miniverse_id paths : Text) (d : Disk) (r : Response)
      → (handle_download settings miniverses roles miniverse_id paths d).0 ≡ ok r
      → (is_refused settings miniverses roles miniverse_id ≡ false)
        × ((handle_download settings miniverses roles miniverse_id paths d).1 ≡ d)
        × ((root : FilePath) × (data_root settings miniverses roles miniverse_id d ≡ (ok root, d))
            × GivesInside root settings.data_path r)
  unfolding handle_download
  handle_download_inside miniverse_id paths d r e =
      let user_paths = map path_of_text (split_commas [] paths) in
      elim (Bool-cases (is_refused settings miniverses roles miniverse_id)) [
        | inl bad ↦ ground (arith, e, bad)
        | inr good ↦ elim (Result-cases (data_root settings miniverses roles miniverse_id d).0) [
          | inr (x, q) ↦ ground (arith, e, good, q)
          | inl (root, q) ↦
              elim (Result-cases (transform_safe_miniverse_files root user_paths d).0) [
                | inr (x, f) ↦ ground (arith, e, good, q, f, data_root_pure miniverse_id d)
                | inl (targets, f) ↦ (
                  good,
                  ground (
                    arith,
                    good,
                    q,
                    f,
                    data_root_pure miniverse_id d,
                    transform_pure root user_paths d,
                  ),
                  (
                    root,
                    ground (arith, q, data_root_pure miniverse_id d),
                    subst (λ a. GivesInside root settings.data_path a)
                        (ground (
                          arith,
                          e,
                          good,
                          q,
                          f,
                          data_root_pure miniverse_id d,
                          transform_pure root user_paths d,
                        ))
                        (download_files-Inside root settings.data_path targets d
                          (transform-Inside root user_paths d targets f)),
                  ),
                )
              ]
        ]
      ]
