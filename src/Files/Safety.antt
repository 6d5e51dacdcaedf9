-- ===== src/Files/Safety.antt =====
-- What `safe_user_path` lets through, and where it leads.
use mathlib.Core.List.{append-nil, append_assoc}
use miniverse_backend.Base.{
  ◌≡◌, refl, ap, sym, ◌∙◌, Bool, true, false, List, [], ◌∷◌, ◌++◌, Text, str, ◌==◌, eq_iff, eq_refl,
  Bool-cases, inl, inr, keep, eqb, ok, arith, All,
}
use miniverse_backend.Files.Path.{
  FilePath, UserPath, split_from, is_part, path_of_text, join, text_of_path, drop_last, walk_step,
  walk, is_relative_to, safe_user_path,
}

-- A name of a path: no slash in it, not empty, and not the dot that stands for the directory itself.
abbrev pub IsName : Text → Type 0
IsName s = All (λ c. eqb c b'/' ≡ false) s × (is_part s ≡ true)

pub split-name :
    (s piece : Text) → All (λ c. eqb c b'/' ≡ false) s → split_from piece s ≡ (piece ++ s) ∷ []
unfolding split_from
split-name [] piece h = rw append-nil
split-name (c ∷ s) piece h = rw h.0 (split-name s (piece ++ c ∷ []) h.1 ∙ rw append_assoc)

split-name_slash :
    (s piece rest : Text)
    → All (λ c. eqb c b'/' ≡ false) s
    → split_from piece (s ++ b'/' ∷ rest) ≡ (piece ++ s) ∷ split_from [] rest
unfolding split_from
split-name_slash [] piece rest h = rw append-nil
split-name_slash (c ∷ s) piece rest h =
    rw h.0 (split-name_slash s (piece ++ c ∷ []) rest h.1 ∙ rw append_assoc)

split-join :
    (s : Text) (rest : List Text)
    → All IsName (s ∷ rest)
    → split_from [] (join (s ∷ rest)) ≡ s ∷ rest
unfolding join
split-join s [] h = split-name s [] h.0.0
split-join s (t ∷ rest) h =
    split-name_slash s [] (join (t ∷ rest)) h.0.0 ∙ ap (λ l. s ∷ l) (split-join t rest h.1)

keep-parts : (l : List Text) → All IsName l → keep is_part l ≡ l
keep-parts [] h = refl
keep-parts (s ∷ l) h = ground (arith, keep-parts l h.1)

-- `Path("./" + str(path))` has the names of `path`, whether that is absolute or not, and is relative.
pub relative_parts :
    (is_absolute : Bool) (parts : List Text)
    → All IsName parts
    → path_of_text (str "./" ++ text_of_path (record { is_absolute = is_absolute; parts = parts }))
      ≡ record { is_absolute = false; parts = parts }
unfolding path_of_text text_of_path ◌==◌
relative_parts true [] h = refl
relative_parts false [] h = refl
relative_parts true (s ∷ rest) h = rw (split-join s rest h, keep-parts (s ∷ rest) h)
relative_parts false (s ∷ rest) h = rw (split-join s rest h, keep-parts (s ∷ rest) h)

-- A name that leads to a child.
abbrev pub IsChild : Text → Type 0
IsChild s = (is_part s ≡ true) × ((s == str "..") ≡ false)

drop_last-All : (l : FilePath) → All IsChild l → All IsChild (drop_last l)
drop_last-All [] h = tt
drop_last-All (x ∷ []) h = tt
drop_last-All (x ∷ y ∷ l) h = (h.0, drop_last-All (y ∷ l) h.1)

snoc-All : (l : FilePath) (s : Text) → All IsChild l → IsChild s → All IsChild (l ++ s ∷ [])
snoc-All [] s h c = (c, tt)
snoc-All (x ∷ l) s h c = (h.0, snoc-All l s h.1 c)

walk-All :
    (here : FilePath) (names : List Text)
    → All IsChild here
    → All (λ s. is_part s ≡ true) names
    → All IsChild (walk here names)
unfolding walk
walk-All here [] h n = h
walk-All here (s ∷ names) h n =
    walk-All (walk_step here s) names
      (elim (Bool-cases (s == str "..")) [
        | inl up ↦ rw up (drop_last-All here h)
        | inr down ↦ rw down (snoc-All here s h (n.0, down))
      ])
      n.1

keep-All : (l : List Text) → All (λ s. is_part s ≡ true) (keep is_part l)
keep-All [] = tt
keep-All (s ∷ l) = ground (arith, keep-All l)

pub is_relative_to-split :
    (path base : FilePath)
    → is_relative_to path base ≡ true
    → (rest : List Text) × (path ≡ base ++ rest)
unfolding is_relative_to
is_relative_to-split path [] h = (path, refl)
is_relative_to-split [] (b ∷ base) h = cc
is_relative_to-split (p ∷ path) (b ∷ base) h = elim (Bool-cases (p == b)) [
  | inr other ↦ absurd (ground (arith))
  | inl same ↦
      let (rest, e) = is_relative_to-split path base (ground arith) in
      (rest, ground (arith, eq_iff p b))
]

All-behind : (base rest : List Text) → All IsChild (base ++ rest) → All IsChild rest
All-behind [] rest h = h
All-behind (b ∷ base) rest h = All-behind base rest h.1

-- For a base of proper names, and whatever path a user gives, absolute or with `..` in it, an
-- accepted one leads into the base directory: the result is the base followed by proper names, none of them `..`.
pub safe_user_path_contained :
    (base : FilePath) (p : UserPath) (target : FilePath)
    → All IsChild base
    → safe_user_path base p ≡ ok target
    → (rest : List Text) × (target ≡ base ++ rest) × All IsChild rest
unfolding safe_user_path path_of_text
safe_user_path_contained base p target h e =
    let parts = (path_of_text (str "./" ++ text_of_path p)).parts in
    let there = walk base parts in
    let reached : there ≡ target = ground arith in
    let (rest, split) = is_relative_to-split there base (ground arith) in
    let proper = walk-All base parts h (keep-All (split_from [] (str "./" ++ text_of_path p))) in
    (rest, sym reached ∙ split, All-behind base rest (rw split at proper))

walk-children :
    (here : FilePath) (names : List Text) → All IsChild names → walk here names ≡ here ++ names
unfolding walk
walk-children here [] h = rw append-nil
walk-children here (s ∷ names) h =
    rw h.0.1 (walk-children (here ++ s ∷ []) names h.1 ∙ rw append_assoc)

pub is_relative_to-append : (base rest : FilePath) → is_relative_to (base ++ rest) base ≡ true
unfolding is_relative_to
is_relative_to-append [] rest = refl
is_relative_to-append (b ∷ base) rest = rw eq_refl (is_relative_to-append base rest)

-- Every path of proper names is accepted, and an absolute one is read as relative to the base.
pub safe_user_path_accepts :
    (base : FilePath) (is_absolute : Bool) (parts : List Text)
    → All IsName parts
    → All IsChild parts
    → safe_user_path base (record { is_absolute = is_absolute; parts = parts }) ≡ ok (base ++ parts)
unfolding safe_user_path
safe_user_path_accepts base is_absolute parts n c = rw (
  relative_parts is_absolute parts n,
  walk-children base parts c,
  is_relative_to-append base parts,
)
