-- ===== src/Files/Archives.antt =====
-- Archives and downloads in app/services/files_service.py. `zipfile` reads and `zipstream` writes an archive:
-- `zip_members` and `zip_of` stand for them, with the members of an archive and their contents.
use miniverse_backend.Base.{
  Bool, true, false, not, ◌&&◌, Option, none, some, List, [], ◌∷◌, ◌++◌, Text, str, ◌==◌, eqb, leb,
  ◌+◌, keep, exists, map, Result, Error, Action, ◌>>=◌, ◌>>◌, pure, gets, raise_if, if◌then◌else◌,
}
use miniverse_backend.Files.Path.{FilePath, UserPath, path_of_text, join, drop_last, is_relative_to}
use miniverse_backend.Files.Disk.{
  file, dir, Entry, Disk, path_eq, look, is_file, behind, locate, is_directory,
}
use miniverse_backend.Files.Free.{name_of, stem_suffix}
use miniverse_backend.Files.Service.{lift, safe, free_path, transform_safe_miniverse_files}
use miniverse_backend.Files.Calls.{mkdir, write_file}

pub record Member : Type 0 where
  pub filename : Text
  pub content : Text

abbrev pub ends_in_slash : Text → Bool
ends_in_slash [] = false
ends_in_slash (c ∷ []) = eqb c b'/'
ends_in_slash (c ∷ d ∷ t) = ends_in_slash (d ∷ t)

-- `path.parts`, where the root is the part `/`
abbrev pub parts_of : UserPath → List Text
parts_of p = if p.is_absolute then str "/" ∷ p.parts else p.parts

abbrev add_root : List Text → List Text → List Text
add_root [] roots = roots
add_root (root ∷ parts) roots = if exists (λ r. r == root) roots then roots else roots ++ root ∷ []

-- The set, in the order in which its members are added.
unfoldable pub roots_onto : List Text → List Member → List Text
unfolding path_of_text
roots_onto roots [] = roots
roots_onto roots (m ∷ ms) = roots_onto (add_root (parts_of (path_of_text m.filename)) roots) ms

unfoldable pub get_zip_roots : List Member → List Text
unfolding roots_onto
get_zip_roots ms = roots_onto [] ms

abbrev without_first : List Text → List Text
without_first [] = []
without_first (p ∷ parts) = parts

-- `Path(*member_path.parts[1:])`, or the path itself
unfoldable pub member_path : Bool → Text → UserPath
unfolding path_of_text
member_path true name = record {
  is_absolute = false;
  parts = without_first (parts_of (path_of_text name));
}
member_path false name = path_of_text name

unfoldable pub extract_member : Bool → FilePath → Member → Action Disk (Unit {0})
unfolding member_path mkdir write_file
extract_member has_root container_dir m = if ends_in_slash m.filename then pure tt else (do
  target ← safe container_dir (member_path has_root m.filename)
  mkdir (drop_last target)
  write_file target m.content)

unfoldable pub extract_each : Bool → FilePath → List Member → Action Disk (Unit {0})
unfolding extract_member
extract_each has_root container_dir [] = pure tt
extract_each has_root container_dir (m ∷ ms) = do
  extract_member has_root container_dir m
  extract_each has_root container_dir ms

-- Whether there is one root, and the name of the directory for what is extracted.
abbrev pub container : Text → List Text → Bool × Text
container archive_stem (root ∷ []) = (true, root)
container archive_stem _ = (false, archive_stem)

unfoldable pub extract_zip : FilePath → FilePath → List Member → Action Disk (Unit {0})
unfolding get_zip_roots extract_each
extract_zip archive_path extract_dir ms = do
  let (has_root, container_name) =
      container (stem_suffix (name_of archive_path)).0 (get_zip_roots ms)
  named ← safe extract_dir (path_of_text container_name)
  container_dir ← free_path named
  mkdir container_dir
  extract_each has_root container_dir ms

-- `t.lower()` of ASCII letters, enough for the comparison with ".zip"
abbrev lower : Text → Text
lower [] = []
lower (c ∷ t) = (if leb 65 c && leb c 90 then c + 32 else c) ∷ lower t

abbrev pub content_at : FilePath → Disk → Text
content_at p d = elim (look p d) [
  | none ↦ []
  | some e ↦ elim e.node [ dir ↦ [] | file content ↦ content ]
]

-- `path.rglob("*")`, the files only
abbrev pub files_below : FilePath → Disk → List FilePath
files_below p d =
    map (λ (e : Entry). e.path)
      (keep (λ e. is_relative_to e.path p && elim e.node [ dir ↦ false | file content ↦ true ]) d)

abbrev pub last_part : List Text → List Text
last_part [] = []
last_part (p ∷ []) = p ∷ []
last_part (p ∷ q ∷ parts) = last_part (q ∷ parts)

module _ (zip_members : Text → Result (List Member)) (zip_of : List (Text × Text) → Text) where
  unfoldable pub extract_miniverse_archive : FilePath → UserPath → Action Disk (Unit {0})
  unfolding extract_zip
  extract_miniverse_archive root path = do
    file_to_extract ← safe root path
    regular ← gets (is_file file_to_extract)
    raise_if (not regular) Error.value_error
    let extract_dir = drop_last file_to_extract
    raise_if (not (lower (stem_suffix (name_of file_to_extract)).1 == str ".zip")) Error.value_error
    content ← gets (content_at file_to_extract)
    ms ← lift (zip_members content)
    extract_zip file_to_extract extract_dir ms

  -- The given path itself, not the one below the data directory, as the process finds it from `cwd`.
  abbrev pub raw : FilePath → Disk → UserPath → Option FilePath
  raw cwd d p = locate d (if p.is_absolute then [] else cwd) p.parts

  abbrev entries_at : List Text → Disk → FilePath → List (Text × Text)
  entries_at parts d found =
      if is_file found d
      then (join (last_part parts), content_at found d) ∷ []
      else if is_directory found d
      then map (λ (f : FilePath). (join (last_part parts ++ behind found f), content_at f d))
          (files_below found d)
      else []

  -- What is written to the archive for one path: the names in the archive and the contents.
  unfoldable pub entries_of : FilePath → Disk → UserPath → List (Text × Text)
  entries_of cwd d p = elim (raw cwd d p) [ none ↦ [] | some found ↦ entries_at p.parts d found ]

  unfoldable pub all_entries : FilePath → Disk → List UserPath → List (Text × Text)
  unfolding entries_of
  all_entries cwd d [] = []
  all_entries cwd d (p ∷ paths) = entries_of cwd d p ++ all_entries cwd d paths

  abbrev same_parent : List FilePath → Bool
  same_parent [] = false
  same_parent (p ∷ paths) = not (exists (λ q. not (path_eq (drop_last q) (drop_last p))) paths)

  abbrev archive_name : List FilePath → FilePath
  archive_name [] = []
  archive_name (p ∷ []) = drop_last p ++ (name_of p ++ str ".zip") ∷ []
  archive_name (p ∷ q ∷ paths) = drop_last p ++ str "Archive.zip" ∷ []

  unfoldable pub compress_miniverse_files :
      FilePath → FilePath → List UserPath → Action Disk (Unit {0})
  unfolding all_entries write_file
  compress_miniverse_files cwd root paths = do
    files_to_compress ← transform_safe_miniverse_files root paths
    raise_if (not (same_parent files_to_compress)) Error.value_error
    destination ← free_path (archive_name files_to_compress)
    entries ← gets (λ d. all_entries cwd d paths)
    write_file destination (zip_of entries)
