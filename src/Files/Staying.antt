-- ===== src/Files/Staying.antt =====
-- Calls that change nothing outside a directory and remove nothing.
use mathlib.Core.List.{append-nil}
use miniverse_backend.Base.{
  ◌≡◌, refl, sym, ap, ◌∙◌, Bool-cases, inl, inr, true, List, [], ◌∷◌, ◌++◌, Text, arith, not, ◌||◌,
}
use miniverse_backend.Files.Path.{FilePath, drop_last}
use miniverse_backend.Files.Disk.{Disk, Node, file, add, is_dir, path_exists, write, make_dirs}
use miniverse_backend.Files.Confined.{Frame, Inside, look-write}
use miniverse_backend.Files.Adding.{
  IsRooted, Adds, make_dirs-Adds-Inside, look-append_outside, AllThere, path_exists-append,
  make_dirs-there,
}
use miniverse_backend.Files.Service.{is_blocked}
use miniverse_backend.Files.Safety.{is_relative_to-split, is_relative_to-append}
use miniverse_backend.Files.Calls.{mkdir, write_file}

pub Frame-trans :
    (base : FilePath) (c d e : Disk) → Frame base c d → Frame base d e → Frame base c e
Frame-trans base c d e f g q o = g q o ∙ f q o

pub Adds-Frame : (base : FilePath) (d e : Disk) → Adds base d e → Frame base d e
Adds-Frame base d e (x, p, h) q o = rw p (look-append_outside base q d x o h)

-- Nothing that was there is gone.
abbrev pub Grows : Disk → Disk → Type 0
Grows d e = (p : FilePath) → path_exists p d ≡ true → path_exists p e ≡ true

pub Adds-Grows : (base : FilePath) (d e : Disk) → Adds base d e → Grows d e
Adds-Grows base d e (x, p, h) q t = rw p (path_exists-append q d x t)

pub write-Grows : (p : FilePath) (content : Text) (d : Disk) → Grows d (write p content d)
write-Grows p content [] q t = t
write-Grows p content (n ∷ d) q t = ground (arith, write-Grows p content d q)

pub AllThere-Grows :
    (here : FilePath) (names : List Text) (d e : Disk)
    → Grows d e
    → AllThere here names d
    → AllThere here names e
AllThere-Grows here [] d e g h = tt
AllThere-Grows here (name ∷ names) d e g h =
    (g (here ++ name ∷ []) h.0, AllThere-Grows (here ++ name ∷ []) names d e g h.1)

-- The step stays inside `base` and keeps what is there.
abbrev pub Stays : FilePath → Disk → Disk → Type 0
Stays base d e = Frame base d e × Grows d e

pub Stays-refl : (base : FilePath) (d : Disk) → Stays base d d
Stays-refl base d = (λ q o. refl, λ p t. t)

pub Stays-trans :
    (base : FilePath) (c d e : Disk) → Stays base c d → Stays base d e → Stays base c e
Stays-trans base c d e (f, g) (f', g') = (Frame-trans base c d e f f', λ p t. g' p (g p t))

pub mkdir-Stays :
    (base p : FilePath) (d : Disk) → IsRooted base d → Inside base p → Stays base d (mkdir p d).1
unfolding mkdir
mkdir-Stays base p d h i =
    let added = make_dirs-Adds-Inside base p d h i in
    elim (Bool-cases (is_blocked p d)) [
      | inl b ↦ rw b (Stays-refl base d)
      | inr b ↦ rw b (Adds-Frame base d _ added, Adds-Grows base d _ added)
    ]

pub write_file-Stays :
    (base p : FilePath) (content : Text) (d : Disk)
    → Inside base p
    → Stays base d (write_file p content d).1
unfolding write_file
write_file-Stays base p content d i =
    let n : Node = file content in
    let added : Adds base d (add p n d) = (record { path = p; node = n } ∷ [], refl, (i, tt)) in
    elim (Bool-cases (is_dir p d || not (is_dir (drop_last p) d))) [
      | inl b ↦ rw b (Stays-refl base d)
      | inr b ↦ elim (Bool-cases (path_exists p d)) [
        | inl t ↦ rw (b, t) (λ q o. look-write base p i q o content d, write-Grows p content d)
        | inr t ↦ rw (b, t) (Adds-Frame base d _ added, Adds-Grows base d _ added)
      ]
    ]

pub AllThere-drop_last :
    (here : FilePath) (names : List Text) (d : Disk)
    → AllThere here names d
    → AllThere here (drop_last names) d
AllThere-drop_last here [] d h = tt
AllThere-drop_last here (n ∷ []) d h = tt
AllThere-drop_last here (n ∷ m ∷ names) d h =
    (h.0, AllThere-drop_last (here ++ n ∷ []) (m ∷ names) d h.1)

pub drop_last-append :
    (base : FilePath) (x : Text) (rest : List Text)
    → drop_last (base ++ x ∷ rest) ≡ base ++ drop_last (x ∷ rest)
drop_last-append [] x rest = refl
drop_last-append (b ∷ []) x rest = refl
drop_last-append (b ∷ c ∷ base) x rest = ap (λ k. b ∷ k) (drop_last-append (c ∷ base) x rest)

pub mkdir_there : (p : FilePath) (d : Disk) → AllThere [] p d → (mkdir p d).1 ≡ d
unfolding mkdir make_dirs
mkdir_there p d h =
    let e = ap (λ l. make_dirs [] l d) (sym (append-nil p)) ∙ make_dirs-there [] p [] d h in
    ground (arith, e)

-- Making the directory for a file inside `base`.
pub mkdir_for-Stays :
    (base p : FilePath) (d : Disk)
    → IsRooted base d
    → Inside base p
    → Stays base d (mkdir (drop_last p) d).1
mkdir_for-Stays base p d h i =
    let (rest, split) = is_relative_to-split p base i in rw split (of_rest rest)
  where
    of_rest : (rest : List Text) → Stays base d (mkdir (drop_last (base ++ rest)) d).1
    of_rest [] =
        rw (append-nil base, mkdir_there (drop_last base) d (AllThere-drop_last [] base d h))
          (Stays-refl base d)
    of_rest (x ∷ rest) = rw (drop_last-append base x rest) (
        mkdir-Stays base (base ++ drop_last (x ∷ rest)) d h
          (is_relative_to-append base (drop_last (x ∷ rest))))
