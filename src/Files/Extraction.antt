-- ===== src/Files/Extraction.antt =====
-- What extracting an archive may touch.
use mathlib.Core.List.{append-nil, append_assoc}
use miniverse_backend.Base.{
  ◌≡◌, refl, ap, subst, ◌∙◌, Bool-cases, Result-cases, inl, inr, Bool, true, false, List, [], ◌∷◌,
  ◌++◌, Text, Action, ◌>>=◌, ◌>>◌, ok, arith, if◌then◌else◌,
}
use miniverse_backend.Base.Binding.{bind_ok, bind_err}
use miniverse_backend.Files.Path.{FilePath, path_of_text, drop_last, safe_user_path}
use miniverse_backend.Files.Disk.{Disk, Node, dir, add, path_exists, make_dirs}
use miniverse_backend.Files.Naming.{path_eq_iff, change_path_name_free}
use miniverse_backend.Files.Confined.{Frame, Inside, safe-Inside}
use miniverse_backend.Files.Adding.{IsRooted, Adds, own-Inside, AllThere, make_dirs-there, free_in}
use miniverse_backend.Files.Service.{is_blocked, free_path}
use miniverse_backend.Files.Free.{name_of, stem_suffix}
use miniverse_backend.Files.Safety.{IsName, IsChild, split-name, safe_user_path_accepts}
use miniverse_backend.Files.Calls.{mkdir, write_file}
use miniverse_backend.Files.Archives.{
  Member, container, get_zip_roots, extract_member, extract_each, extract_zip, member_path,
  ends_in_slash,
}
use miniverse_backend.Files.Staying.{
  Adds-Frame, Adds-Grows, AllThere-Grows, Stays, Stays-refl, Stays-trans, write_file-Stays,
  mkdir_for-Stays,
}

module _ (base : FilePath) where
  -- A call that stays inside `base`, where the directories down to it exist.
  abbrev Stay : {A : Type 0} → Action Disk A → Type 0
  Stay m = (d : Disk) → IsRooted base d → Stays base d (m d).1

  bind-Stay :
      {A B : Type 0} (m : Action Disk A) (f : A → Action Disk B)
      → Stay m
      → ((a : A) → Stay (f a))
      → Stay (m >>= f)
  bind-Stay m f p q d h = elim (Result-cases (m d).0) [
    | inr (x, r) ↦ rw (bind_err m f d x r) (p d h)
    | inl (a, r) ↦ rw (bind_ok m f d a r) (
        Stays-trans base d (m d).1 _ (p d h)
          (q a (m d).1 (AllThere-Grows [] base d (m d).1 (p d h).1 h)))
  ]

  abbrev write_target : FilePath → Text → Action Disk (Unit {0})
  write_target target content = mkdir (drop_last target) >> write_file target content

  write_target-Stay :
      (p : FilePath) (content : Text) → Inside base p → Stay (write_target p content)
  write_target-Stay p content i =
      bind-Stay (mkdir (drop_last p)) (λ _. write_file p content)
        (λ d h. mkdir_for-Stays base p d h i) λ _ d h. write_file-Stays base p content d i

  extract_member-Stay : (has_root : Bool) (m : Member) → Stay (extract_member has_root base m)
  unfolding extract_member
  extract_member-Stay has_root m d h = elim (Bool-cases (ends_in_slash m.filename)) [
    | inl s ↦ rw s (Stays-refl base d)
    | inr s ↦ elim (Result-cases (safe_user_path base (member_path has_root m.filename))) [
      | inr (x, e) ↦ rw (s, e) (Stays-refl base d)
      | inl (target, e) ↦
          rw (s, e)
            (write_target-Stay target m.content
              (safe-Inside base (member_path has_root m.filename) target e) d h)
    ]
  ]

  extract_each-Stay : (has_root : Bool) (ms : List Member) → Stay (extract_each has_root base ms)
  unfolding extract_each
  extract_each-Stay has_root [] = λ d h. Stays-refl base d
  extract_each-Stay has_root (m ∷ ms) =
      bind-Stay (extract_member has_root base m) (λ _. extract_each has_root base ms)
        (extract_member-Stay has_root m) λ _. extract_each-Stay has_root ms

AllThere-snoc :
    (here : FilePath) (names : List Text) (name : Text) (d : Disk)
    → AllThere here names d
    → path_exists ((here ++ names) ++ name ∷ []) d ≡ true
    → AllThere here (names ++ name ∷ []) d
AllThere-snoc here [] name d h t = (rw append-nil at t, tt)
AllThere-snoc here (n ∷ names) name d h t =
    (h.0, AllThere-snoc (here ++ n ∷ []) names name d h.1 (rw (append_assoc here (n ∷ []) names) t))

path_exists-add : (p : FilePath) (n : Node) (d : Disk) → path_exists p (add p n d) ≡ true
path_exists-add p n [] = ground (arith, path_eq_iff p p)
path_exists-add p n (e ∷ d) = ground (arith, path_exists-add p n d)

module _ (parent : FilePath) (name : Text) (d : Disk) (h : IsRooted parent d) where
  abbrev inner : FilePath
  inner = parent ++ name ∷ []

  pub make_inner : make_dirs [] inner d ≡ (if path_exists inner d then d else add inner dir d)
  unfolding make_dirs
  make_inner = make_dirs-there [] parent (name ∷ []) d h

  -- The new directory is the first thing that extracting makes.
  pub inner-Stays : Stays inner d (mkdir inner d).1
  unfolding mkdir
  inner-Stays =
      let added : Adds inner d (add inner dir d) =
        (record { path = inner; node = dir } ∷ [], refl, (own-Inside inner, tt)) in
      elim (Bool-cases (is_blocked inner d)) [
        | inl b ↦ rw b (Stays-refl inner d)
        | inr b ↦ elim (Bool-cases (path_exists inner d)) [
          | inl t ↦ rw (b, make_inner, t) (Stays-refl inner d)
          | inr t ↦ rw (b, make_inner, t) (Adds-Frame inner d _ added, Adds-Grows inner d _ added)
        ]
      ]

  inner-IsRooted : (mkdir inner d).0 ≡ ok tt → IsRooted inner (mkdir inner d).1
  unfolding mkdir
  inner-IsRooted e =
      AllThere-snoc [] parent name (mkdir inner d).1
        (AllThere-Grows [] parent d (mkdir inner d).1 inner-Stays.1 h)
        (elim (Bool-cases (path_exists inner d)) [
          | inl t ↦ inner-Stays.1 inner t
          | inr t ↦ ground (arith, e, make_inner, t, path_exists-add inner dir d)
        ])

pub path_of_text-name :
    (n : Text) → IsName n → path_of_text n ≡ record { is_absolute = false; parts = n ∷ [] }
unfolding path_of_text
path_of_text-name [] h = ground (arith, h.1)
path_of_text-name (c ∷ n) h = ground (arith, h.0.0, h.1, split-name (c ∷ n) [] h.0)

-- The free path for the new directory.
pub free_inner :
    (parent : FilePath) (name : Text) (d : Disk)
    → (last : Text) × (free_path (parent ++ name ∷ []) d ≡ (ok (parent ++ last ∷ []), d))
      × (path_exists (parent ++ last ∷ []) d ≡ false)
free_inner parent name d =
    let (p, e, free, shape) = change_path_name_free d (parent ++ name ∷ []) in
    let (last, e') = free_in parent name d in
    let same : p ≡ parent ++ last ∷ [] = ground (arith, e, e') in
    (last, ground (arith, e'), subst (λ q. path_exists q d ≡ false) same free)

-- What `extract_zip` does once the new directory is chosen.
abbrev pub extract_into : Bool → FilePath → List Member → Action Disk (Unit {0})
extract_into has_root target ms = mkdir target >> extract_each has_root target ms

extract_into-Stay :
    (has_root : Bool) (parent : FilePath) (last : Text) (ms : List Member) (d : Disk)
    → IsRooted parent d
    → Stays (parent ++ last ∷ []) d (extract_into has_root (parent ++ last ∷ []) ms d).1
extract_into-Stay has_root parent last ms d h =
    let target = parent ++ last ∷ [] in
    elim (Result-cases (mkdir target d).0) [
      | inr (x, r) ↦
          rw (bind_err (mkdir target) (λ _. extract_each has_root target ms) d x r)
            (inner-Stays parent last d h)
      | inl (u, r) ↦ rw (bind_ok (mkdir target) (λ _. extract_each has_root target ms) d u r) (
          Stays-trans target d (mkdir target d).1 _ (inner-Stays parent last d h) (
            extract_each-Stay target has_root ms (mkdir target d).1
              (inner-IsRooted parent last d h r)))
    ]

pub extract_zip_into :
    (archive_path extract_dir target : FilePath) (ms : List Member) (d : Disk)
    (chosen : Bool × Text)
    → container (stem_suffix (name_of archive_path)).0 (get_zip_roots ms) ≡ chosen
    → safe_user_path extract_dir (path_of_text chosen.1) ≡ ok (extract_dir ++ chosen.1 ∷ [])
    → free_path (extract_dir ++ chosen.1 ∷ []) d ≡ (ok target, d)
    → extract_zip archive_path extract_dir ms d ≡ extract_into chosen.0 target ms d
unfolding extract_zip
extract_zip_into archive_path extract_dir target ms d chosen c named e = ground (arith, c, named, e)

-- Extracting an archive, where the directory that holds it exists and the name for the new directory is
-- proper: there is a path in that directory where nothing stands, and whatever the archive's members are called,
-- with `..` or a leading slash, and whether extracting succeeds or raises, every path that is not that one or
-- below it holds what it held.
pub extract_zip_confined :
    (archive_path extract_dir : FilePath) (ms : List Member) (d : Disk)
    → IsRooted extract_dir d
    → IsName (container (stem_suffix (name_of archive_path)).0 (get_zip_roots ms)).1
    → IsChild (container (stem_suffix (name_of archive_path)).0 (get_zip_roots ms)).1
    → (last : Text) × (path_exists (extract_dir ++ last ∷ []) d ≡ false)
      × Frame (extract_dir ++ last ∷ []) d (extract_zip archive_path extract_dir ms d).1
extract_zip_confined archive_path extract_dir ms d h n c =
    let chosen = container (stem_suffix (name_of archive_path)).0 (get_zip_roots ms) in
    let name = chosen.1 in
    let (last, e, free) = free_inner extract_dir name d in
    let named : safe_user_path extract_dir (path_of_text name) ≡ ok (extract_dir ++ name ∷ []) =
      ap (safe_user_path extract_dir) (path_of_text-name name n)
      ∙ safe_user_path_accepts extract_dir false (name ∷ []) (n, tt) (c, tt) in
    (
      last,
      free,
      rw
          (extract_zip_into archive_path extract_dir (extract_dir ++ last ∷ []) ms d chosen refl
            named e)
          (extract_into-Stay chosen.0 extract_dir last ms d h).0,
    )
