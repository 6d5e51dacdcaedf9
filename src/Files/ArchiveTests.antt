-- ===== src/Files/ArchiveTests.antt =====
-- Archives on a small disk.
use miniverse_backend.Base.{◌≡◌, refl, false, some, List, [], ◌∷◌, ◌++◌, Text, str, ◌==◌, ok}
use miniverse_backend.Files.Path.{
  FilePath, path_of_text, split_from, safe_user_path, walk, text_of_path, join, is_relative_to,
}
use miniverse_backend.Files.Disk.{locate, Disk, dir, file, path_exists, path_eq, look, make_dirs}
use miniverse_backend.Files.Free.{
  name_of, stem_suffix, last_dot, change_path_name_if_exists, find_free, numbered, numbered_name,
  mark, decimal, decimal_from,
}
use miniverse_backend.Files.Calls.{mkdir, write_file}
use miniverse_backend.Files.Safety.{IsName, IsChild}
use miniverse_backend.Files.Adding.{IsRooted}
use miniverse_backend.Files.Confined.{Frame}
use miniverse_backend.Files.Archives.{
  Member, container, get_zip_roots, roots_onto, member_path, extract_member, extract_each,
  extract_zip, entries_of,
}
use miniverse_backend.Files.Extraction.{extract_zip_confined}

abbrev disk : Disk
disk =
    record { path = str "data" ∷ []; node = dir }
    ∷ record { path = str "data" ∷ str "pack.zip" ∷ []; node = file (str "zip") }
    ∷ record { path = str "secret" ∷ []; node = file (str "key") }
    ∷ []

abbrev archive : FilePath
archive = str "data" ∷ str "pack.zip" ∷ []

abbrev root : FilePath
root = str "data" ∷ []

-- One member that climbs, and one that does not.
abbrev members : List Member
members =
    record { filename = str "pack/../../secret"; content = str "x" }
    ∷ record { filename = str "other/a.txt"; content = str "y" }
    ∷ []

rooted : IsRooted root disk
unfolding path_eq ◌==◌
rooted = (refl, tt)

pack-IsName : IsName (container (stem_suffix (name_of archive)).0 (get_zip_roots members)).1
unfolding get_zip_roots roots_onto path_of_text split_from stem_suffix last_dot name_of ◌==◌
pack-IsName = ((refl, (refl, (refl, (refl, tt)))), refl)

pack-IsChild : IsChild (container (stem_suffix (name_of archive)).0 (get_zip_roots members)).1
unfolding get_zip_roots roots_onto path_of_text split_from stem_suffix last_dot name_of ◌==◌
pack-IsChild = (refl, refl)

extract_zip_confined_example :
    (last : Text) × (path_exists (root ++ last ∷ []) disk ≡ false)
    × Frame (root ++ last ∷ []) disk (extract_zip archive root members disk).1
extract_zip_confined_example =
    extract_zip_confined archive root members disk rooted pack-IsName pack-IsChild

-- A path that the check would place below the data directory is read from the root of the disk.
secret_is_archived :
    entries_of (λ t. ok []) (λ e. []) root disk (path_of_text (str "/secret"))
    ≡ (str "secret", str "key") ∷ []
unfolding entries_of locate path_of_text split_from walk path_eq join ◌==◌
secret_is_archived = refl

-- An archive whose only root is `/` is extracted beside the directory that holds it.
beside :
    look
      (str "data (2)" ∷ str "a" ∷ [])
      (extract_zip archive root (record { filename = str "/a"; content = str "y" } ∷ []) disk).1
    ≡ some (record { path = str "data (2)" ∷ str "a" ∷ []; node = file (str "y") })
unfolding extract_zip get_zip_roots roots_onto extract_each extract_member member_path path_of_text
    split_from safe_user_path text_of_path join walk is_relative_to change_path_name_if_exists
    find_free numbered numbered_name mark decimal decimal_from stem_suffix last_dot name_of mkdir
    make_dirs write_file path_eq ◌==◌
beside = refl
