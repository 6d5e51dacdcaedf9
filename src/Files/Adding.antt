-- ===== src/Files/Adding.antt =====
-- Operations that only add entries, all of them below a directory.
use mathlib.Core.List.{append-nil, append_assoc}
use miniverse_backend.Base.{
  ◌≡◌, refl, sym, ap, ◌∙◌, true, false, some, List, [], ◌∷◌, ◌++◌, Text, keep, map, arith, All,
  Bool-cases, inl, inr,
}
use miniverse_backend.Files.Path.{FilePath, drop_last, is_relative_to}
use miniverse_backend.Files.Disk.{
  dir, Entry, Disk, path_exists, is_dir, is_below, look, moved, copy, make_dirs, behind,
}
use miniverse_backend.Files.Free.{name_of, numbered_name, numbered, change_path_name_if_exists}
use miniverse_backend.Files.Naming.{path_eq_iff, change_path_name_free}
use miniverse_backend.Files.Safety.{is_relative_to-split, is_relative_to-append}
use miniverse_backend.Files.Confined.{Inside, below_trans}

-- `d'` is `d` with more entries, all of them at or below `base`.
abbrev pub Adds : FilePath → Disk → Disk → Type 0
Adds base d d' = (x : Disk) × (d' ≡ d ++ x) × All (λ e. Inside base e.path) x

pub Adds-refl : (base : FilePath) (d : Disk) → Adds base d d
Adds-refl base d = ([], sym (append-nil d), tt)

pub All-append :
    (base : FilePath) (x y : Disk)
    → All (λ e. Inside base e.path) x
    → All (λ e. Inside base e.path) y
    → All (λ e. Inside base e.path) (x ++ y)
All-append base [] y h k = k
All-append base (e ∷ x) y h k = (h.0, All-append base x y h.1 k)

pub Adds-trans : (base : FilePath) (c d e : Disk) → Adds base c d → Adds base d e → Adds base c e
Adds-trans base c d e (x, p, h) (y, q, k) =
    (x ++ y, q ∙ ap (λ l. l ++ y) p ∙ append_assoc c x y, All-append base x y h k)

-- All directories on the way from `here` along `names` exist.
abbrev pub AllThere : FilePath → List Text → Disk → Type 0
AllThere here [] d = Unit
AllThere here (name ∷ names) d =
    (path_exists (here ++ name ∷ []) d ≡ true) × AllThere (here ++ name ∷ []) names d

-- The data directory and all directories above it exist.
abbrev pub IsRooted : FilePath → Disk → Type 0
IsRooted = AllThere []

pub path_exists-append :
    (p : FilePath) (d x : Disk) → path_exists p d ≡ true → path_exists p (d ++ x) ≡ true
path_exists-append p [] x h = cc
path_exists-append p (e ∷ d) x h = ground (arith, path_exists-append p d x)

pub AllThere-append :
    (here : FilePath) (names : List Text) (d x : Disk)
    → AllThere here names d
    → AllThere here names (d ++ x)
AllThere-append here [] d x h = tt
AllThere-append here (name ∷ names) d x h = (
  path_exists-append (here ++ name ∷ []) d x h.0,
  AllThere-append (here ++ name ∷ []) names d x h.1,
)

pub IsRooted-Adds :
    (base : FilePath) (d d' : Disk) → IsRooted base d → Adds base d d' → IsRooted base d'
IsRooted-Adds base d d' h (x, e, k) = rw e (AllThere-append [] base d x h)

pub make_dirs-cons :
    (here : FilePath) (name : Text) (names : List Text) (d : Disk)
    → path_exists (here ++ name ∷ []) d ≡ true
    → make_dirs here (name ∷ names) d ≡ make_dirs (here ++ name ∷ []) names d
unfolding make_dirs
make_dirs-cons here name names d h = ap (make_dirs (here ++ name ∷ []) names) (rw h)

pub make_dirs-there :
    (here : FilePath) (names rest : List Text) (d : Disk)
    → AllThere here names d
    → make_dirs here (names ++ rest) d ≡ make_dirs (here ++ names) rest d
make_dirs-there here [] rest d h = ap (λ l. make_dirs l rest d) (sym (append-nil here))
make_dirs-there here (name ∷ names) rest d h =
    make_dirs-cons here name (names ++ rest) d h.0
    ∙ make_dirs-there (here ++ name ∷ []) names rest d h.1
    ∙ ap (λ l. make_dirs l rest d) (append_assoc here (name ∷ []) names)

pub make_dirs-Adds :
    (base here : FilePath) (names : List Text) (d : Disk)
    → Inside base here
    → Adds base d (make_dirs here names d)
unfolding make_dirs
make_dirs-Adds base here [] d i = Adds-refl base d
make_dirs-Adds base here (name ∷ names) d i =
    let next = here ++ name ∷ [] in
    let inside = below_trans next here base (is_relative_to-append here (name ∷ [])) i in
    elim (Bool-cases (path_exists next d)) [
      | inl there ↦ rw there (make_dirs-Adds base next names d inside)
      | inr absent ↦
          let e : Entry = record { path = next; node = dir } in
          rw absent (
            Adds-trans base d (d ++ e ∷ []) _ (e ∷ [], refl, (inside, tt))
              (make_dirs-Adds base next names (d ++ e ∷ []) inside))
    ]

pub All-moved :
    (base source target : FilePath) (d : Disk)
    → Inside base target
    → All (λ e. Inside base e.path) (map (moved source target) (keep (is_below source) d))
All-moved base source target [] i = tt
All-moved base source target (e ∷ d) i = ground (
  arith,
  All-moved base source target d i,
  below_trans (target ++ behind source e.path) target base
      (is_relative_to-append target (behind source e.path)) i,
)

pub copy-Adds :
    (base source target : FilePath) (d : Disk)
    → Inside base target
    → Adds base d (copy source target d)
copy-Adds base source target d i = (_, refl, All-moved base source target d i)

pub own-Inside : (base : FilePath) → Inside base base
own-Inside base = rw append-nil at (is_relative_to-append base [])

-- Making the directories down to a path inside a data directory that exists.
pub make_dirs-Adds-Inside :
    (base p : FilePath) (d : Disk)
    → IsRooted base d
    → Inside base p
    → Adds base d (make_dirs [] p d)
make_dirs-Adds-Inside base p d h i =
    let (rest, split) = is_relative_to-split p base i in
    rw (split, make_dirs-there [] base rest d h) (make_dirs-Adds base base rest d (own-Inside base))

pub drop_last-snoc : (l : FilePath) (x : Text) → drop_last (l ++ x ∷ []) ≡ l
drop_last-snoc [] x = refl
drop_last-snoc (y ∷ []) x = refl
drop_last-snoc (y ∷ z ∷ l) x = ap (λ k. y ∷ k) (drop_last-snoc (z ∷ l) x)

-- The free path beside a path in `here` lies in `here` too.
pub free_in :
    (here : FilePath) (name : Text) (d : Disk)
    → (last : Text) × (change_path_name_if_exists d (here ++ name ∷ []) ≡ some (here ++ last ∷ []))
unfolding numbered
free_in here name d =
    let (p, e, free, shape) = change_path_name_free d (here ++ name ∷ []) in
    elim shape [
      | inl same ↦ (name, e ∙ ap some same)
      | inr (i, same) ↦
          let path = here ++ name ∷ [] in
          let last = numbered_name (name_of path) (is_dir path d) i in
          (last, e ∙ ap some (same ∙ ap (λ l. l ++ last ∷ []) (drop_last-snoc here name)))
    ]

pub look-append :
    (q : FilePath) (e : Entry) (d x : Disk) → look q d ≡ some e → look q (d ++ x) ≡ some e
look-append q e [] x h = cc
look-append q e (f ∷ d) x h = ground (arith, look-append q e d x)

pub look-append_outside :
    (base q : FilePath) (d x : Disk)
    → is_relative_to q base ≡ false
    → All (λ e. Inside base e.path) x
    → look q (d ++ x) ≡ look q d
look-append_outside base q [] [] o h = refl
look-append_outside base q [] (e ∷ x) o h =
    ground (arith, look-append_outside base q [] x o h.1, path_eq_iff e.path q)
look-append_outside base q (f ∷ d) x o h = ground (arith, look-append_outside base q d x o h)
