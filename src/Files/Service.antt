-- ===== src/Files/Service.antt =====
-- The operations of app/services/files_service.py on a disk. `root` is the data directory of the
-- miniverse, `get_miniverse_path(miniverse.id) / "data"`. An `OSError` is `os_error`.
use miniverse_backend.Base.{
  ℕ, Bool, true, false, not, ◌&&◌, ◌||◌, Option, none, some, List, [], ◌∷◌, ◌++◌, Text, str, ◌==◌,
  keep, exists, map, eqb, leb, length, Result, ok, err, Error, Action, ◌>>=◌, ◌>>◌, pure, gets,
  or_raise, raise, raise_if, modify, if◌then◌else◌,
}
use miniverse_backend.Files.Path.{
  FilePath, UserPath, path_of_text, join, drop_last, is_relative_to, safe_user_path,
}
use miniverse_backend.Files.Disk.{
  dir, file, Entry, Disk, path_eq, path_exists, is_dir, is_file, look, unlink, rmtree, write,
  behind, move, copies, copy, make_dirs, locate,
}
use miniverse_backend.Files.Quoting.{encode}
use miniverse_backend.Files.Free.{name_of, stem_suffix, change_path_name_if_exists}

-- `FileInfo` of app/schemas/fileinfo.py, without the times.
pub record FileInfo : Type 0 where
  pub is_folder : Bool
  pub path : Text
  pub name : Text
  pub size : Option ℕ

-- A call on the disk that only computes or raises.
abbrev pub lift : {A : Type 0} → Result A → Action Disk A
lift r d = (r, d)

abbrev pub safe : FilePath → UserPath → Action Disk FilePath
safe root p = lift (safe_user_path root p)

-- `[safe_user_path(root, path) for path in paths]`
unfoldable pub transform_safe_miniverse_files :
    FilePath → List UserPath → Action Disk (List FilePath)
transform_safe_miniverse_files root [] = pure []
transform_safe_miniverse_files root (p ∷ paths) = do
  first_path ← safe root p
  rest ← transform_safe_miniverse_files root paths
  pure (first_path ∷ rest)

abbrev pub delete_one : FilePath → Disk → Disk
delete_one p d = if path_exists p d then (if is_dir p d then rmtree p d else unlink p d) else d

unfoldable pub delete_each : List FilePath → Disk → Disk
delete_each [] d = d
delete_each (p ∷ paths) d = delete_each paths (delete_one p d)

unfoldable pub delete_miniverse_files : FilePath → List UserPath → Action Disk (Unit {0})
delete_miniverse_files root paths = do
  safe_paths ← transform_safe_miniverse_files root paths
  modify (delete_each safe_paths)

-- A file stands where a directory on the way to `p` is wanted.
abbrev pub is_blocked : FilePath → Disk → Bool
is_blocked p = exists λ e. elim e.node [ dir ↦ false | file content ↦ is_relative_to p e.path ]

abbrev pub free_path : FilePath → Action Disk FilePath
free_path p = do found ← gets (λ d. change_path_name_if_exists d p); or_raise found Error.os_error

-- What an endless copy leaves: the entries of `overrun` are placed below the target.
abbrev pub left_over : FilePath → List Entry → List Entry
left_over target = map (λ (e : Entry). record e { path = target ++ e.path })

-- The first name on the way from `source` to a path below it is there: `copytree` comes to what it makes.
abbrev pub is_endless : FilePath → FilePath → Disk → Bool
is_endless source target d = is_relative_to target source && elim (behind source target) [
  | [] ↦ true
  | name ∷ names ↦ path_exists (source ++ name ∷ []) d
]

-- `shutil.copytree`, which makes the missing parents and lists a directory before it makes the copy, so that a copy
-- beside the entries of the directory itself is one of what was there. A copy further down, below an entry
-- that is there, does not end before an exception: what it has made by then, from the source, the
-- target and the disk, is the parameter `overrun`.
unfoldable pub copytree :
    (FilePath → FilePath → Disk → List Entry) → FilePath → FilePath → Action Disk (Unit {0})
copytree overrun source target = do
  blocked ← gets (is_blocked (drop_last target))
  raise_if blocked Error.os_error
  endless ← gets (is_endless source target)
  copied ← gets (copies source target)
  garbage ← gets (λ d. left_over target (overrun source target d))
  modify (make_dirs [] (drop_last target))
  modify (λ d. d ++ (if endless then garbage else copied))
  raise_if endless Error.os_error

-- `shutil.copy2`, into a directory that exists
unfoldable pub copy2 : FilePath → FilePath → Action Disk (Unit {0})
copy2 source target = do
  parent ← gets (is_dir (drop_last target))
  raise_if (not parent) Error.os_error
  modify (copy source target)

unfoldable pub copy_one :
    (FilePath → FilePath → Disk → List Entry) → FilePath → FilePath → Action Disk (Unit {0})
copy_one overrun destination source = do
  there ← gets (path_exists source)
  directory ← gets (is_dir source)
  if there
      then (do
        target ← free_path (destination ++ name_of source ∷ [])
        if directory then copytree overrun source target else copy2 source target)
      else pure tt

unfoldable pub copy_each :
    (FilePath → FilePath → Disk → List Entry) → FilePath → List FilePath → Action Disk (Unit {0})
copy_each overrun destination [] = pure tt
copy_each overrun destination (source ∷ sources) =
    copy_one overrun destination source >> copy_each overrun destination sources

unfoldable pub copy_miniverse_files :
    (FilePath → FilePath → Disk → List Entry)
    → FilePath
    → List UserPath
    → UserPath
    → Action Disk (Unit {0})
copy_miniverse_files overrun root paths destination_path = do
  safe_paths ← transform_safe_miniverse_files root paths
  safe_destination_path ← safe root destination_path
  copy_each overrun safe_destination_path safe_paths

-- `path.with_name(name)`
unfoldable pub with_name : UserPath → Text → Result UserPath
with_name p new_name =
    if elim p.parts [ [] ↦ true | x ∷ xs ↦ false ]
      || (new_name == [] || (new_name == str "." || exists (λ c. eqb c b'/') new_name))
    then err Error.value_error
    else ok (record p { parts = drop_last p.parts ++ new_name ∷ [] })

unfoldable pub rename_file : FilePath → UserPath → Text → Action Disk (Unit {0})
rename_file root path new_name = do
  file_to_rename ← safe root path
  new_path ← lift (with_name path new_name)
  new_path_safe ← safe root new_path
  taken ← gets (path_exists new_path_safe)
  raise_if taken Error.value_error
  there ← gets (path_exists file_to_rename)
  parent ← gets (is_dir (drop_last new_path_safe))
  raise_if (not there || (not parent || is_relative_to new_path_safe file_to_rename)) Error.os_error
  modify (move file_to_rename new_path_safe)

abbrev content_of : Option Entry → Text
content_of none = []
content_of (some e) = elim e.node [ dir ↦ [] | file content ↦ content ]

abbrev pub size_limit : ℕ
size_limit = 15_000_000

-- The bytes stand for the `File` response that streams them; their number is `stat().st_size`.
unfoldable pub get_file_content : FilePath → UserPath → Action Disk Text
get_file_content root path = do
  file_to_read ← safe root path
  directory ← gets (is_dir file_to_read)
  raise_if directory Error.value_error
  regular ← gets (is_file file_to_read)
  raise_if (not regular) Error.value_error
  content ← gets (λ d. content_of (look file_to_read d))
  raise_if (leb size_limit (length content)) Error.http_error
  pure content

-- The file is opened, and with that emptied, before the content is encoded.
unfoldable pub set_file_content : FilePath → UserPath → Text → Action Disk (Unit {0})
set_file_content root path content = do
  file_to_write ← safe root path
  directory ← gets (is_dir file_to_write)
  raise_if directory Error.value_error
  regular ← gets (is_file file_to_write)
  raise_if (not regular) Error.value_error
  elim (encode content) [
    | some bytes ↦ modify (write file_to_write bytes)
    | none ↦ modify (write file_to_write []) >> raise Error.value_error
  ]

abbrev pub is_child_of : FilePath → Entry → Bool
is_child_of p e = not (path_eq e.path p) && path_eq (drop_last e.path) p

abbrev info : FilePath → Entry → FileInfo
info root e = record {
  is_folder = elim e.node [ dir ↦ true | file content ↦ false ];
  path = join (behind root e.path);
  name = name_of e.path;
  size = elim e.node [ dir ↦ none | file content ↦ some (length content) ];
}

-- `None` for a file.
unfoldable pub list_miniverse_files : FilePath → UserPath → Action Disk (Option (List FileInfo))
list_miniverse_files root user_path = do
  safe_path ← safe root user_path
  there ← gets (path_exists safe_path)
  raise_if (not there) Error.value_error
  regular ← gets (is_file safe_path)
  files ← gets (λ d. map (info root) (keep (is_child_of safe_path) d))
  pure (if regular then none else some files)

-- `uploads / file_id`, as the names from the root: `..` is one of them, and an absolute id leaves `uploads`.
unfoldable pub upload_path : FilePath → Text → FilePath
unfolding path_of_text
upload_path uploads file_id =
    let given = path_of_text file_id in
    if given.is_absolute then given.parts else uploads ++ given.parts

-- `path.with_suffix(".info")`, for a path with a name
unfoldable pub info_path : FilePath → FilePath
info_path p = drop_last p ++ ((stem_suffix (name_of p)).0 ++ str ".info") ∷ []

-- The path as the operating system finds it now.
abbrev pub located : FilePath → Action Disk FilePath
located p = do found ← gets (λ d. locate d [] p); or_raise found Error.os_error

-- The finished upload stands under `uploads`, beside its `.info` file.
unfoldable pub upload_miniverse_file :
    FilePath → FilePath → Text → Text → UserPath → Action Disk (Unit {0})
unfolding upload_path info_path
upload_miniverse_file uploads root file_id filename destination = do
  dest_path ← safe root destination
  regular ← gets (is_file dest_path)
  raise_if regular Error.value_error
  blocked ← gets (is_blocked dest_path)
  raise_if blocked Error.os_error
  modify (make_dirs [] dest_path)
  target ← safe dest_path (path_of_text filename)
  blocked_parent ← gets (is_blocked (drop_last target))
  raise_if blocked_parent Error.os_error
  modify (make_dirs [] (drop_last target))
  free ← free_path target
  let tmp_path = upload_path uploads file_id
  raise_if (name_of tmp_path == []) Error.value_error
  info_file ← located (info_path tmp_path)
  has_info ← gets (is_file info_file)
  raise_if (not has_info) Error.os_error
  modify (unlink info_file)
  tmp_file ← located tmp_path
  there ← gets (path_exists tmp_file)
  raise_if (not there) Error.os_error
  modify (move tmp_file free)
