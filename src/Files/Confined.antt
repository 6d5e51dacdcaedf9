-- ===== src/Files/Confined.antt =====
-- No operation of a miniverse's files touches anything outside the miniverse's data directory.
use mathlib.Core.List.{append-nil}
use miniverse_backend.Base.{
  ◌≡◌, refl, ◌∙◌, true, false, List, [], ◌∷◌, ◌++◌, Text, eq_iff, ok, arith, All, Result-cases,
  Option-cases, inl, inr,
}
use miniverse_backend.Files.Path.{FilePath, UserPath, is_relative_to, safe_user_path}
use miniverse_backend.Files.Disk.{Disk, path_eq, look, unlink, rmtree, write, move, behind}
use miniverse_backend.Files.Naming.{path_eq_iff}
use miniverse_backend.Files.Safety.{is_relative_to-append}
use miniverse_backend.Files.Quoting.{encode}
use miniverse_backend.Files.Service.{
  transform_safe_miniverse_files, delete_one, delete_each, delete_miniverse_files, rename_file,
  set_file_content, with_name,
}

-- Every path outside `base` holds what it held.
abbrev pub Frame : FilePath → Disk → Disk → Type 0
Frame base d d' = (q : FilePath) → is_relative_to q base ≡ false → look q d' ≡ look q d

pub below_trans :
    (q p base : FilePath)
    → is_relative_to q p ≡ true
    → is_relative_to p base ≡ true
    → is_relative_to q base ≡ true
unfolding is_relative_to
below_trans q p [] h k = refl
below_trans q [] (b ∷ base) h k = cc
below_trans [] (x ∷ p) (b ∷ base) h k = cc
below_trans (y ∷ q) (x ∷ p) (b ∷ base) h k =
    ground (arith, below_trans q p base, eq_iff y x, eq_iff x b, eq_iff y b)

module _ (base p : FilePath) (inside : is_relative_to p base ≡ true) where
  module _ (q : FilePath) (outside : is_relative_to q base ≡ false) where
    -- Nothing at or below `p` is `q`.
    apart : (x : FilePath) → is_relative_to x p ≡ true → path_eq x q ≡ false
    apart x h = ground (arith, path_eq_iff x q, below_trans x p base h inside)

    look-rmtree : (d : Disk) → look q (rmtree p d) ≡ look q d
    look-rmtree [] = refl
    look-rmtree (e ∷ d) = ground (arith, look-rmtree d, apart e.path)

    own : is_relative_to p p ≡ true
    own = rw append-nil at (is_relative_to-append p [])

    pub look-unlink : (d : Disk) → look q (unlink p d) ≡ look q d
    look-unlink [] = refl
    look-unlink (e ∷ d) = ground (arith, look-unlink d, apart p own, path_eq_iff e.path p)

    pub look-write : (content : Text) (d : Disk) → look q (write p content d) ≡ look q d
    look-write content [] = refl
    look-write content (e ∷ d) =
        ground (arith, look-write content d, apart p own, path_eq_iff e.path p)

    look-move :
        (target : FilePath) (d : Disk)
        → is_relative_to target base ≡ true
        → look q (move p target d) ≡ look q d
    look-move target [] t = refl
    look-move target (e ∷ d) t = ground (
      arith,
      look-move target d,
      apart e.path,
      path_eq_iff (target ++ behind p e.path) q,
      below_trans (target ++ behind p e.path) target base
          (is_relative_to-append target (behind p e.path)) t,
    )

-- What the accepted paths of a request have in common.
abbrev pub Inside : FilePath → FilePath → Type 0
Inside base p = is_relative_to p base ≡ true

pub safe-Inside :
    (base : FilePath) (p : UserPath) (target : FilePath)
    → safe_user_path base p ≡ ok target
    → Inside base target
unfolding safe_user_path
safe-Inside base p target e = ground arith

pub transform-Inside :
    (base : FilePath) (paths : List UserPath) (d : Disk) (targets : List FilePath)
    → (transform_safe_miniverse_files base paths d).0 ≡ ok targets
    → All (Inside base) targets
unfolding transform_safe_miniverse_files
transform-Inside base [] d targets e =
    let none_left : targets ≡ [] = ground arith in rw none_left tt
transform-Inside base (p ∷ paths) d targets e = elim (Result-cases (safe_user_path base p)) [
  | inr (x, bad) ↦ absurd (ground arith)
  | inl (t, good) ↦ elim (Result-cases (transform_safe_miniverse_files base paths d).0) [
    | inr (x, bad) ↦ absurd (ground arith)
    | inl (ts, rest) ↦
        let same : targets ≡ t ∷ ts = ground arith in
        rw same (safe-Inside base p t good, transform-Inside base paths d ts rest)
  ]
]

pub transform_pure :
    (base : FilePath) (paths : List UserPath) (d : Disk)
    → (transform_safe_miniverse_files base paths d).1 ≡ d
unfolding transform_safe_miniverse_files
transform_pure base [] d = refl
transform_pure base (p ∷ paths) d = ground (arith, transform_pure base paths d)

look-delete_one : (base p : FilePath) (d : Disk) → Inside base p → Frame base d (delete_one p d)
look-delete_one base p d i q o =
    ground (arith, look-rmtree base p i q o d, look-unlink base p i q o d)

look-delete_each :
    (base : FilePath) (targets : List FilePath) (d : Disk)
    → All (Inside base) targets
    → Frame base d (delete_each targets d)
unfolding delete_each
look-delete_each base [] d i q o = refl
look-delete_each base (p ∷ targets) d i q o =
    look-delete_each base targets (delete_one p d) i.1 q o ∙ look-delete_one base p d i.0 q o

-- One operation after the other, by the cases of the paths that it accepts.
delete-Frame :
    (root : FilePath) (paths : List UserPath) (d : Disk)
    → Frame root d (delete_miniverse_files root paths d).1
unfolding delete_miniverse_files
delete-Frame root paths d q o =
    elim (Result-cases (transform_safe_miniverse_files root paths d).0) [
      | inr (x, bad) ↦ ground (arith, transform_pure root paths d)
      | inl (ts, good) ↦ ground (
        arith,
        transform_pure root paths d,
        look-delete_each root ts d (transform-Inside root paths d ts good) q o,
      )
    ]

set-Frame :
    (root : FilePath) (p : UserPath) (content : Text) (d : Disk)
    → Frame root d (set_file_content root p content d).1
unfolding set_file_content
set-Frame root p content d q o = elim (Result-cases (safe_user_path root p)) [
  | inr (x, bad) ↦ ground arith
  | inl (t, good) ↦ elim (Option-cases (encode content)) [
    | inl bad ↦ ground (arith, bad, look-write root t (safe-Inside root p t good) q o [] d)
    | inr (bytes, done) ↦
        ground (arith, done, look-write root t (safe-Inside root p t good) q o bytes d)
  ]
]

rename-Frame :
    (root : FilePath) (p : UserPath) (new_name : Text) (d : Disk)
    → Frame root d (rename_file root p new_name d).1
unfolding rename_file
rename-Frame root p new_name d q o = elim (Result-cases (safe_user_path root p)) [
  | inr (x, bad) ↦ ground arith
  | inl (t, good) ↦ elim (Result-cases (with_name p new_name)) [
    | inr (x, bad) ↦ ground arith
    | inl (p', named) ↦ elim (Result-cases (safe_user_path root p')) [
      | inr (x, bad) ↦ ground arith
      | inl (t', good') ↦ ground (
        arith,
        look-move root t (safe-Inside root p t good) q o t' d (safe-Inside root p' t' good'),
      )
    ]
  ]
]

-- Deleting, renaming and writing files: whatever paths and names are given, and whether the call
-- succeeds or raises, every path outside the data directory holds what it held.
pub file_operations_confined :
    (root : FilePath) (d : Disk) (q : FilePath)
    → is_relative_to q root ≡ false
    → ((paths : List UserPath) → look q (delete_miniverse_files root paths d).1 ≡ look q d)
      × ((p : UserPath) (new_name : Text) → look q (rename_file root p new_name d).1 ≡ look q d)
      × ((p : UserPath) (content : Text) → look q (set_file_content root p content d).1 ≡ look q d)
file_operations_confined root d q o = (
  λ paths. delete-Frame root paths d q o,
  λ p new_name. rename-Frame root p new_name d q o,
  λ p content. set-Frame root p content d q o,
)
