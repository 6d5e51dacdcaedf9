-- ===== src/Files/Path.antt =====
-- `pathlib` on POSIX: texts to paths and back, `resolve` where no symbolic link is met, and
-- `safe_user_path` of app/services/files_service.py.
use miniverse_backend.Base.{
  Bool, true, false, not, ◌&&◌, List, [], ◌∷◌, ◌++◌, Text, str, ◌==◌, keep, eqb, Result, ok, err,
  Error, if◌then◌else◌,
}

-- The names of an absolute path, from the root.
abbrev pub FilePath : Type 0
FilePath = List Text

-- A path as it was given: the names may hold `..`.
pub record UserPath : Type 0 where
  pub is_absolute : Bool
  pub parts : List Text

-- `t.split("/")`, behind the characters of the current piece
unfoldable pub split_from : Text → Text → List Text
split_from piece [] = piece ∷ []
split_from piece (c ∷ cs) =
    let next = split_from [] cs in
    let same = split_from (piece ++ c ∷ []) cs in if eqb c b'/' then piece ∷ next else same

abbrev pub is_part : Text → Bool
is_part s = not (s == []) && not (s == str ".")

abbrev pub begins_at_root : Text → Bool
begins_at_root [] = false
begins_at_root (c ∷ cs) = eqb c b'/'

-- `Path(t)`: empty pieces and single dots are dropped
unfoldable pub path_of_text : Text → UserPath
unfolding split_from
path_of_text t = record { is_absolute = begins_at_root t; parts = keep is_part (split_from [] t) }

-- `"/".join(parts)`
unfoldable pub join : List Text → Text
join [] = []
join (s ∷ []) = s
join (s ∷ t ∷ rest) = s ++ (b'/' ∷ join (t ∷ rest))

-- `str(path)`
unfoldable pub text_of_path : UserPath → Text
unfolding join
text_of_path p =
    if p.is_absolute
    then b'/' ∷ join p.parts
    else elim p.parts [ [] ↦ str "." | s ∷ rest ↦ join (s ∷ rest) ]

abbrev pub drop_last {ℓ} : {A : Type ℓ} → List A → List A
drop_last [] = []
drop_last (x ∷ []) = []
drop_last (x ∷ y ∷ xs) = x ∷ drop_last (y ∷ xs)

-- One name on the way: `..` goes to the parent, which for the root is the root.
abbrev pub walk_step : FilePath → Text → FilePath
walk_step here name = if name == str ".." then drop_last here else here ++ name ∷ []

-- `(base / path).resolve(strict=False)` for a relative path and a resolved base
unfoldable pub walk : FilePath → List Text → FilePath
walk here [] = here
walk here (name ∷ names) = walk (walk_step here name) names

-- `path.is_relative_to(base)`
unfoldable pub is_relative_to : FilePath → FilePath → Bool
is_relative_to path [] = true
is_relative_to [] (b ∷ base) = false
is_relative_to (p ∷ path) (b ∷ base) = p == b && is_relative_to path base

-- `root` is resolved.
unfoldable pub safe_user_path : FilePath → UserPath → Result FilePath
safe_user_path base user_relative_path =
    let relative = path_of_text (str "./" ++ text_of_path user_relative_path) in
    let target = walk base relative.parts in
    if is_relative_to target base then ok target else err Error.value_error
