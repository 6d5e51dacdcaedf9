-- ===== src/Mods/Failures.antt =====
-- What a failed update of a mod leaves.
use miniverse_backend.Base.{
  ◌≡◌, refl, true, false, Bool-cases, Result-cases, inl, inr, none, some, List, [], ◌∷◌, ◌++◌, Text,
  err, Error, arith, if◌then◌else◌,
}
use miniverse_backend.Models.{Mod}
use miniverse_backend.Settings.{Settings}
use miniverse_backend.Files.Path.{FilePath}
use miniverse_backend.Files.Disk.{Disk, dir, look, is_file, path_exists, add, unlink, make_dirs}
use miniverse_backend.Files.Calls.{mkdir, find_path, write_found, write_file, unlink_found}
use miniverse_backend.Mods.Schema.{ModrinthProject, ModrinthProjectVersion}
use miniverse_backend.Mods.Service.{mods_path, download_mod_file, delete_mod_file, replace_mod}
use miniverse_backend.Miniverses.World.{Host, World, mod_row}

unlink_gone : (p : FilePath) (d : Disk) → look p (unlink p d) ≡ none
unlink_gone p [] = refl
unlink_gone p (e ∷ d) = ground (arith, unlink_gone p d)

path_exists-is_file : (p : FilePath) (d : Disk) → is_file p d ≡ true → path_exists p d ≡ true
path_exists-is_file p [] e = cc
path_exists-is_file p (n ∷ d) e = ground (arith, path_exists-is_file p d)

unlink_found-is_file : (p : FilePath) (d : Disk) → is_file p (unlink_found (some p) d) ≡ false
unfolding unlink_found
unlink_found-is_file p d = elim (Bool-cases (is_file p d)) [
  | inl e ↦ ground (arith, path_exists-is_file p d e, unlink_gone p d)
  | inr e ↦ ground arith
]

add-is_file : (p q : FilePath) (d : Disk) → is_file p d ≡ false → is_file p (add q dir d) ≡ false
add-is_file p q [] e = ground arith
add-is_file p q (n ∷ d) e = ground (arith, add-is_file p q d)

make_dirs-is_file :
    (p here : FilePath) (names : List Text) (d : Disk)
    → is_file p d ≡ false
    → is_file p (make_dirs here names d) ≡ false
unfolding make_dirs
make_dirs-is_file p here [] d e = e
make_dirs-is_file p here (name ∷ names) d e =
    let next = here ++ name ∷ [] in
    make_dirs-is_file p next names (if path_exists next d then d else add next dir d)
      (elim (Bool-cases (path_exists next d)) [
        | inl t ↦ ground arith
        | inr t ↦ ground (arith, add-is_file p next d e)
      ])

mkdir-is_file : (p q : FilePath) (d : Disk) → is_file p d ≡ false → is_file p (mkdir q d).1 ≡ false
unfolding mkdir
mkdir-is_file p q d e = ground (arith, make_dirs-is_file p [] q d e)

module _ (h : Host) (settings : Settings) where
  -- A download that raises adds no file.
  download_fails :
      (p : ModrinthProject) (v : ModrinthProjectVersion) (i : Text) (t : FilePath) (e : Error)
      (w : World h)
      → is_file t w.disk ≡ false
      → (download_mod_file h settings p v i w).0 ≡ err e
      → is_file t (download_mod_file h settings p v i w).1.disk ≡ false
  unfolding download_mod_file write_found write_file
  download_fails p v i t e w n r = ground (arith, mkdir-is_file t (mods_path h settings i) w.disk n)

  download-tables :
      (p : ModrinthProject) (v : ModrinthProjectVersion) (i : Text) (w : World h)
      → ((download_mod_file h settings p v i w).1.session ≡ w.session)
        × ((download_mod_file h settings p v i w).1.db ≡ w.db)
  unfolding download_mod_file
  download-tables p v i w = (ground arith, ground arith)

  -- An update of a mod that fails after Modrinth's answers, in the download or on the disk, has already
  -- deleted the file of the installed version: the row, in the session and in the database, is as before, and
  -- where its file was there is none.
  pub failed_update_loses_file :
      (i : Text) (v : ModrinthProjectVersion) (p : ModrinthProject) (m : Mod) (t : FilePath)
      (e : Error) (w : World h)
      → mod_row i w.session ≡ some m
      → find_path (mods_path h settings m.miniverse_id) m.file_name w.disk ≡ some t
      → (replace_mod h settings i v p w).0 ≡ err e
      → (mod_row i (replace_mod h settings i v p w).1.session ≡ some m)
        × ((replace_mod h settings i v p w).1.db ≡ w.db)
        × (is_file t (replace_mod h settings i v p w).1.disk ≡ false)
  unfolding replace_mod delete_mod_file
  failed_update_loses_file i v p m t e w r f failed =
      let d : World h = record w { disk = unlink_found (some t) w.disk } in
      let kept = download-tables p v m.miniverse_id d in
      elim (Result-cases (download_mod_file h settings p v m.miniverse_id d).0) [
        | inl (name, g) ↦ ground arith
        | inr (x, g) ↦ (
          ground (arith, kept.0),
          ground (arith, kept.1),
          ground (arith, download_fails p v m.miniverse_id t x d (unlink_found-is_file t w.disk) g),
        )
      ]
