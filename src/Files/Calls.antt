-- ===== src/Files/Calls.antt =====
-- The calls of `pathlib` and `open` that the services make on the disk, apart from app/services/files_service.py.
use miniverse_backend.Base.{
  not, ◌&&◌, ◌||◌, Option, none, some, List, [], ◌∷◌, Text, err, Error, Action, ◌>>=◌, ◌>>◌, gets,
  raise_if, modify, if◌then◌else◌,
}
use miniverse_backend.Files.Path.{FilePath, path_of_text, drop_last, walk_step}
use miniverse_backend.Files.Disk.{
  file, Disk, path_exists, is_dir, is_file, add, unlink, rmtree, write, make_dirs,
}
use miniverse_backend.Files.Service.{is_blocked}

-- `path.mkdir(parents=True, exist_ok=True)`
unfoldable pub mkdir : FilePath → Action Disk (Unit {0})
mkdir p = do blocked ← gets (is_blocked p); raise_if blocked Error.os_error; modify (make_dirs [] p)

-- Where the system finds `names` from the directory `here`: what is walked through is a directory.
unfoldable pub find_from : FilePath → List Text → Disk → Option FilePath
find_from here [] d = some here
find_from here (name ∷ []) d = some (walk_step here name)
find_from here (name ∷ next ∷ names) d =
    let there = walk_step here name in
    let rest = find_from there (next ∷ names) d in if is_dir there d then rest else none

-- `base / name`, for a `name` that may be a path of several names, as the system finds it.
unfoldable pub find_path : FilePath → Text → Disk → Option FilePath
unfolding find_from path_of_text
find_path base name d =
    let p = path_of_text name in find_from (if p.is_absolute then [] else base) p.parts d

-- `open(path, "w")`, `write` and `close`
unfoldable pub write_file : FilePath → Text → Action Disk (Unit {0})
write_file p content = do
  directory ← gets (is_dir p)
  parent ← gets (is_dir (drop_last p))
  raise_if (directory || not parent) Error.os_error
  there ← gets (path_exists p)
  modify (if there then write p content else add p (file content))

unfoldable pub write_found : Option FilePath → Text → Action Disk (Unit {0})
unfolding write_file
write_found none content d = (err Error.os_error, d)
write_found (some p) content d = write_file p content d

-- `if path.exists() and path.is_file(): path.unlink()`
unfoldable pub unlink_found : Option FilePath → Disk → Disk
unlink_found none d = d
unlink_found (some p) d = if path_exists p d && is_file p d then unlink p d else d

-- `if path.exists() and path.is_dir(): shutil.rmtree(path)`
unfoldable pub remove_directory : FilePath → Disk → Disk
remove_directory p d = if path_exists p d && is_dir p d then rmtree p d else d
