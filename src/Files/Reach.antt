-- ===== src/Files/Reach.antt =====
-- What the compression of files can read.
use miniverse_backend.Base.{
  ◌≡◌, true, Option-cases, Result-cases, inl, inr, List, [], ◌∷◌, ◌++◌, Text, str, Result, ok, some,
  arith,
}
use miniverse_backend.Files.Path.{FilePath, UserPath, safe_user_path, join, drop_last}
use miniverse_backend.Files.Disk.{file, Entry, Disk, look, locate}
use miniverse_backend.Files.Free.{name_of, change_path_name_if_exists}
use miniverse_backend.Files.Service.{transform_safe_miniverse_files}
use miniverse_backend.Files.Calls.{write_file}
use miniverse_backend.Files.Archives.{
  Member, last_part, compress_miniverse_files, all_entries, entries_of,
}

-- The request for one absolute path.
abbrev pub only : Text → List Text → List UserPath
only name names = record { is_absolute = true; parts = name ∷ names } ∷ []

module _ (zip_members : Text → Result (List Member)) (zip_of : List (Text × Text) → Text)
    (cwd root : FilePath) where
  entries-raw :
      (name : Text) (names : List Text) (p : FilePath) (e : Entry) (t : Text) (d : Disk)
      → locate d [] (name ∷ names) ≡ some p
      → look p d ≡ some e
      → e.node ≡ file t
      → all_entries zip_members zip_of cwd d (only name names)
        ≡ (join (last_part (name ∷ names)), t) ∷ []
  unfolding all_entries entries_of
  entries-raw name names p e t d f l n = ground (arith, f, l, n)

  -- Compressing one absolute path, where that succeeds and the operating system finds a file at that very path:
  -- the archive that is written holds what this file holds, wherever it is on the disk.
  pub compress_reads_raw :
      (name : Text) (names : List Text) (p : FilePath) (e : Entry) (t : Text) (d : Disk)
      → locate d [] (name ∷ names) ≡ some p
      → look p d ≡ some e
      → e.node ≡ file t
      → (compress_miniverse_files zip_members zip_of cwd root (only name names) d).0 ≡ ok tt
      → (target : FilePath) × (compress_miniverse_files zip_members zip_of cwd root
            (only name names)
            d
          ≡ write_file target (zip_of ((join (last_part (name ∷ names)), t) ∷ [])) d)
  unfolding compress_miniverse_files transform_safe_miniverse_files
  compress_reads_raw name names q e t d f l n done =
      elim (Result-cases
        (safe_user_path root (record { is_absolute = true; parts = name ∷ names }))) [
          | inr (x, bad) ↦ ground (arith, done, bad)
          | inl (p, good) ↦
              let wanted = drop_last p ++ (name_of p ++ str ".zip") ∷ [] in
              elim (Option-cases (change_path_name_if_exists d wanted)) [
                | inl none_free ↦ ground (arith, done, good, none_free)
                | inr (target, free) ↦
                    (target, ground (arith, good, free, entries-raw name names q e t d f l n))
              ]
        ]
