-- ===== src/Files/Disk.antt =====
-- A file system without symbolic links: the entries by their absolute paths, and what `pathlib` and
-- `shutil` do to them. Times, owners and modes are left out.
use miniverse_backend.Base.{
  Bool, true, false, not, ◌&&◌, Option, none, some, List, [], ◌∷◌, ◌++◌, Text, str, ◌==◌, keep,
  first, exists, adjust, map, if◌then◌else◌,
}
use miniverse_backend.Files.Path.{FilePath, drop_last, is_relative_to}

-- The content of a file is the list of its bytes.
pub data Node : Type 0 where
  dir : Node
  file : Text → Node

pub record Entry : Type 0 where
  pub path : FilePath
  pub node : Node

abbrev pub Disk : Type 0
Disk = List Entry

unfoldable pub path_eq : FilePath → FilePath → Bool
path_eq [] [] = true
path_eq [] (y ∷ ys) = false
path_eq (x ∷ xs) [] = false
path_eq (x ∷ xs) (y ∷ ys) = x == y && path_eq xs ys

abbrev pub is_at : FilePath → Entry → Bool
is_at p e = path_eq e.path p

abbrev pub is_below : FilePath → Entry → Bool
is_below p e = is_relative_to e.path p

abbrev pub look : FilePath → Disk → Option Entry
look p = first (is_at p)

-- `path.exists()`, `path.is_dir()`, `path.is_file()`
abbrev pub path_exists : FilePath → Disk → Bool
path_exists p = exists (is_at p)

abbrev pub is_dir : FilePath → Disk → Bool
is_dir p d = elim (look p d) [
  | none ↦ false
  | some e ↦ elim e.node [ dir ↦ true | file content ↦ false ]
]

abbrev pub is_file : FilePath → Disk → Bool
is_file p d = elim (look p d) [
  | none ↦ false
  | some e ↦ elim e.node [ dir ↦ false | file content ↦ true ]
]

abbrev pub add : FilePath → Node → Disk → Disk
add p n d = d ++ record { path = p; node = n } ∷ []

-- `path.unlink()` and `shutil.rmtree(path)`
abbrev pub unlink : FilePath → Disk → Disk
unlink p = keep (λ e. not (is_at p e))

abbrev pub rmtree : FilePath → Disk → Disk
rmtree p = keep (λ e. not (is_below p e))

-- The bytes of a file that exists are replaced.
abbrev pub write : FilePath → Text → Disk → Disk
write p content = adjust (is_at p) (λ e. record e { node = file content })

-- The names of `path` behind those of `base`.
abbrev pub behind : FilePath → FilePath → FilePath
behind [] path = path
behind (b ∷ base) [] = []
behind (b ∷ base) (p ∷ path) = behind base path

abbrev pub moved : FilePath → FilePath → Entry → Entry
moved source target e = record e { path = target ++ behind source e.path }

-- `source.rename(target)`, where nothing stands at the target
abbrev pub move : FilePath → FilePath → Disk → Disk
move source target = adjust (is_below source) (moved source target)

-- `shutil.copy2(source, target)` of a file, and the copies of a directory's entries
abbrev pub copies : FilePath → FilePath → Disk → List Entry
copies source target d = map (moved source target) (keep (is_below source) d)

abbrev pub copy : FilePath → FilePath → Disk → Disk
copy source target d = d ++ copies source target d

-- `path.mkdir(parents=True, exist_ok=True)`: the missing directories from `here` down
unfoldable pub make_dirs : FilePath → List Text → Disk → Disk
make_dirs here [] d = d
make_dirs here (name ∷ names) d =
    let next = here ++ name ∷ [] in
    make_dirs next names (if path_exists next d then d else add next dir d)

-- The root is a directory, without an entry.
abbrev pub is_directory : FilePath → Disk → Bool
is_directory [] d = true
is_directory (name ∷ names) d = is_dir (name ∷ names) d

-- One name on the way of the operating system: behind `..` stands the parent, where a directory is left.
abbrev pub enter : Disk → FilePath → Text → Option FilePath
enter d here name =
    if name == str ".."
    then (if is_directory here d then some (drop_last here) else none)
    else some (here ++ name ∷ [])

-- Where the operating system finds the names, from the directory `here`, if it finds them.
unfoldable pub locate : Disk → FilePath → List Text → Option FilePath
locate d here [] = some here
locate d here (name ∷ names) = elim (enter d here name) [
  | none ↦ none
  | some next ↦ locate d next names
]
