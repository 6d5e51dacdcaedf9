-- ===== src/Files/Free.antt =====
-- `change_path_name_if_exists` of app/services/files_service.py: the first of `name`, `name (2)`,
-- `name (3)`, … that is free.
use miniverse_backend.Base.{
  ℕ, zero, suc, ◌+◌, Bool, true, false, not, ◌&&◌, Option, none, some, [], ◌∷◌, ◌++◌, Text, str,
  eqb, ltb, length, if◌then◌else◌,
}
use Prim.Native.Nat.{◌/◌, ◌%◌}
use miniverse_backend.Files.Path.{FilePath, drop_last}
use miniverse_backend.Files.Disk.{Disk, is_dir, path_exists}

-- `str(n)`, with fuel for the digits
unfoldable pub decimal_from : ℕ → ℕ → Text
decimal_from zero n = []
decimal_from (suc f) n =
    let front = decimal_from f (n / 10) in
    let last = (b'0' + n % 10) ∷ [] in if ltb n 10 then last else front ++ last

unfoldable pub decimal : ℕ → Text
unfolding decimal_from
decimal n = decimal_from (suc n) n

-- `path.name`
unfoldable pub name_of : FilePath → Text
name_of [] = []
name_of (x ∷ []) = x
name_of (x ∷ y ∷ xs) = name_of (y ∷ xs)

-- The part before the last dot and the part from it, if there is a dot.
unfoldable pub last_dot : Text → Option (Text × Text)
last_dot [] = none
last_dot (c ∷ cs) = elim (last_dot cs) [
  | some (front, back) ↦ some (c ∷ front, back)
  | none ↦ if eqb c b'.' then some ([], c ∷ cs) else none
]

abbrev is_long : Text → Bool
is_long [] = false
is_long (c ∷ []) = false
is_long (c ∷ d ∷ cs) = true

abbrev is_empty : Text → Bool
is_empty [] = true
is_empty (c ∷ cs) = false

-- `(path.stem, path.suffix)`: a dot at either end of the name starts no suffix
unfoldable pub stem_suffix : Text → Text × Text
unfolding last_dot
stem_suffix name = elim (last_dot name) [
  | none ↦ (name, [])
  | some (front, back) ↦ if not (is_empty front) && is_long back then (front, back) else (name, [])
]

-- ` (i)`
unfoldable pub mark : ℕ → Text
mark i = str " (" ++ (decimal i ++ str ")")

-- `f"{path.name} ({i})"` and `f"{path.stem} ({i}){path.suffix}"`
unfoldable pub numbered_name : Text → Bool → ℕ → Text
unfolding stem_suffix
numbered_name name directory i =
    let (stem, suffix) = stem_suffix name in
    if directory then name ++ mark i else stem ++ (mark i ++ suffix)

-- The path with that name in the same parent.
unfoldable pub numbered : FilePath → Bool → ℕ → FilePath
unfolding name_of numbered_name
numbered path directory i = drop_last path ++ numbered_name (name_of path) directory i ∷ []

-- The loop from the number `i` on, with fuel.
unfoldable pub find_free : ℕ → (ℕ → FilePath) → ℕ → Disk → Option FilePath
find_free zero candidate i d = none
find_free (suc f) candidate i d =
    let next = find_free f candidate (i + 1) d in
    if path_exists (candidate i) d then next else some (candidate i)

-- One round more than the disk has entries is enough: the candidates are different names.
unfoldable pub change_path_name_if_exists : Disk → FilePath → Option FilePath
change_path_name_if_exists d path =
    if path_exists path d
    then find_free (suc (length d)) (numbered path (is_dir path d)) 2 d
    else some path
