-- ===== src/Files/SingleFile.antt =====
-- An archive that holds a single file.
use mathlib.Core.List.{append-nil}
use miniverse_backend.Base.{
  ◌≡◌, refl, ap, ◌∙◌, Result-cases, inl, inr, true, false, [], ◌∷◌, ◌++◌, Text, eqb, All, ok, err,
  Error, arith,
}
use miniverse_backend.Files.Path.{FilePath, path_of_text, drop_last, safe_user_path}
use miniverse_backend.Files.Disk.{Disk, dir, add, is_dir, path_exists}
use miniverse_backend.Files.Naming.{path_eq_iff}
use miniverse_backend.Files.Safety.{IsName, IsChild, safe_user_path_accepts}
use miniverse_backend.Files.Adding.{IsRooted, drop_last-snoc}
use miniverse_backend.Files.Free.{name_of, stem_suffix}
use miniverse_backend.Files.Calls.{mkdir, write_file}
use miniverse_backend.Files.Archives.{
  container, get_zip_roots, roots_onto, ends_in_slash, member_path, extract_member, extract_each,
  extract_zip,
}
use miniverse_backend.Files.Extraction.{
  path_of_text-name, free_inner, make_inner, inner-Stays, extract_into, extract_zip_into,
}
use miniverse_backend.Files.Staying.{mkdir_there, AllThere-Grows}

is_dir-add : (p : FilePath) (d : Disk) → path_exists p d ≡ false → is_dir p (add p dir d) ≡ true
is_dir-add p [] e = ground (arith, path_eq_iff p p)
is_dir-add p (n ∷ d) e = ground (arith, is_dir-add p d)

no_slash_end : (n : Text) → All (λ c. eqb c b'/' ≡ false) n → ends_in_slash n ≡ false
no_slash_end [] h = refl
no_slash_end (c ∷ []) h = h.0
no_slash_end (c ∷ d ∷ n) h = no_slash_end (d ∷ n) h.1

one_root :
    (n content : Text)
    → IsName n
    → get_zip_roots (record { filename = n; content = content } ∷ []) ≡ n ∷ []
unfolding get_zip_roots roots_onto
one_root n content h = ground (arith, path_of_text-name n h)

member_path-root :
    (n : Text) → IsName n → member_path true n ≡ record { is_absolute = false; parts = [] }
unfolding member_path
member_path-root n h = ground (arith, path_of_text-name n h)

write_to_directory :
    (p : FilePath) (content : Text) (d : Disk)
    → is_dir p d ≡ true
    → (write_file p content d).0 ≡ err Error.os_error
unfolding write_file
write_to_directory p content d e = ground arith

module _ (parent : FilePath) (last : Text) (d : Disk) (h : IsRooted parent d)
    (free : path_exists (parent ++ last ∷ []) d ≡ false) where
  abbrev target : FilePath
  target = parent ++ last ∷ []

  made : (mkdir target d).0 ≡ ok tt → is_dir target (mkdir target d).1 ≡ true
  unfolding mkdir
  made e = ground (arith, e, make_inner parent last d h, free, is_dir-add target d free)

  -- The member's file is to be written where the new directory stands.
  member_fails :
      (n content : Text)
      → IsName n
      → (mkdir target d).0 ≡ ok tt
      → (e : Error) × ((extract_member true target
            (record { filename = n; content = content })
            (mkdir target d).1).0
          ≡ err e)
  unfolding extract_member
  member_fails n content name e =
      let d1 = (mkdir target d).1 in
      let rooted = AllThere-Grows [] parent d d1 (inner-Stays parent last d h).1 h in
      let kept : (mkdir (drop_last target) d1).1 ≡ d1 =
        ap (λ p. (mkdir p d1).1) (drop_last-snoc parent last) ∙ mkdir_there parent d1 rooted in
      let named : safe_user_path target (member_path true n) ≡ ok target =
        ap (safe_user_path target) (member_path-root n name)
        ∙ safe_user_path_accepts target false [] tt tt
        ∙ ap ok (append-nil target) in
      elim (Result-cases (mkdir (drop_last target) d1).0) [
        | inr (x, r) ↦ (x, ground (arith, no_slash_end n name.0, named, r))
        | inl (u, r) ↦ (
          Error.os_error,
          ground (
            arith,
            no_slash_end n name.0,
            named,
            r,
            write_to_directory target content (mkdir (drop_last target) d1).1
                (ap (is_dir target) kept ∙ made e),
          ),
        )
      ]

  into_fails :
      (n content : Text)
      → IsName n
      → (e : Error) × ((extract_into true target
            (record { filename = n; content = content } ∷ [])
            d).0
          ≡ err e)
  unfolding extract_each
  into_fails n content name = elim (Result-cases (mkdir target d).0) [
    | inr (x, r) ↦ (x, ground arith)
    | inl (u, r) ↦ let (x, f) = member_fails n content name r in (x, ground (arith, r, f))
  ]

-- An archive with one file and no directory, under a proper name, is never extracted: the new directory
-- takes the place of the file, and writing the file raises.
extract_single_file :
    (archive_path extract_dir : FilePath) (n content : Text) (d : Disk)
    → IsRooted extract_dir d
    → IsName n
    → IsChild n
    → (e : Error) × ((extract_zip archive_path extract_dir
          (record { filename = n; content = content } ∷ [])
          d).0
        ≡ err e)
extract_single_file archive_path extract_dir n content d h name child =
    let ms = record { filename = n; content = content } ∷ [] in
    let (last, e, free) = free_inner extract_dir n d in
    let stem = (stem_suffix (name_of archive_path)).0 in
    let chosen : container stem (get_zip_roots ms) ≡ (true, n) =
      ap (container stem) (one_root n content name) in
    let named : safe_user_path extract_dir (path_of_text n) ≡ ok (extract_dir ++ n ∷ []) =
      ap (safe_user_path extract_dir) (path_of_text-name n name)
      ∙ safe_user_path_accepts extract_dir false (n ∷ []) (name, tt) (child, tt) in
    let (x, f) = into_fails extract_dir last d h free n content name in
    let target = extract_dir ++ last ∷ [] in
    (
      x,
      ap (λ t. t.0) (extract_zip_into archive_path extract_dir target ms d (true, n) chosen named e)
          ∙ f,
    )
