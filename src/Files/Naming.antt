-- ===== src/Files/Naming.antt =====
-- The loop of `change_path_name_if_exists` ends, and ends at a free name beside the given one.
use miniverse_backend.Base.{
  ℕ, zero, suc, ◌+◌, ◌-◌, ◌*◌, ◌≤◌, ◌<◌, ◌≡◌, refl, ◌≢◌, ap, sym, ◌∙◌, ◌⊎◌, inl, inr, Bool, true,
  false, ◌↔◌, some, List, [], ◌∷◌, ◌++◌, Text, str, eq_iff, length, arith, Bool-cases,
}
use mathlib.Core.List.{append_cancel_left, append_cancel_right}
use Prim.Native.Nat.{◌/◌, ◌%◌}
use miniverse_backend.Files.Path.{FilePath, drop_last}
use miniverse_backend.Files.Disk.{Disk, is_dir, path_exists, path_eq, unlink}
use miniverse_backend.Files.Free.{
  decimal, decimal_from, name_of, stem_suffix, mark, numbered, find_free,
  change_path_name_if_exists,
}

pub path_eq_iff : (p q : FilePath) → (path_eq p q ≡ true) ↔ (p ≡ q)
unfolding path_eq
path_eq_iff [] [] = ground arith
path_eq_iff [] (y ∷ ys) = ground arith
path_eq_iff (x ∷ xs) [] = ground arith
path_eq_iff (x ∷ xs) (y ∷ ys) = ground (arith, path_eq_iff xs ys, eq_iff x y)

-- The number that a list of decimal digits stands for.
value_from : ℕ → Text → ℕ
value_from n [] = n
value_from n (c ∷ cs) = value_from (n * 10 + (c - b'0')) cs

value_from-append :
    (n c : ℕ) (ds : Text) → value_from n (ds ++ c ∷ []) ≡ value_from n ds * 10 + (c - b'0')
unfolding value_from
value_from-append n c [] = refl
value_from-append n c (d ∷ ds) = value_from-append (n * 10 + (d - b'0')) c ds

value-decimal_from : (f n : ℕ) → n < f → value_from 0 (decimal_from f n) ≡ n
unfolding decimal_from value_from
value-decimal_from zero n h = elim h [ ]
value-decimal_from (suc f) n h = ground (
  arith,
  value_from-append 0 (b'0' + n % 10) (decimal_from f (n / 10)),
  value-decimal_from f (n / 10),
)

decimal_injective : (i j : ℕ) → decimal i ≡ decimal j → i ≡ j
unfolding decimal
decimal_injective i j e =
    sym (value-decimal_from (suc i) i (omega arith))
    ∙ ap (value_from 0) e
    ∙ value-decimal_from (suc j) j (omega arith)

head_injective : (x y : Text) → ◌≡◌ {A = List Text} (x ∷ []) (y ∷ []) → x ≡ y
head_injective x y e = cc

mark_injective : (i j : ℕ) → mark i ≡ mark j → i ≡ j
unfolding mark
mark_injective i j e =
    decimal_injective i j
      (append_cancel_right (decimal i) (decimal j) (str ")") (append_cancel_left (str " (") _ _ e))

numbered_injective :
    (path : FilePath) (directory : Bool) (i j : ℕ)
    → numbered path directory i ≡ numbered path directory j
    → i ≡ j
unfolding numbered
numbered_injective path true i j e = mark_injective i j (
    append_cancel_left (name_of path) _ _
      (head_injective _ _ (append_cancel_left (drop_last path) _ _ e)))
numbered_injective path false i j e =
    let (stem, suffix) = stem_suffix (name_of path) in
    mark_injective i j (
      append_cancel_right (mark i) (mark j) suffix (
        append_cancel_left stem _ _
          (head_injective _ _ (append_cancel_left (drop_last path) _ _ e))))

-- Without the entries at one path, every other path is as free as before.
exists-unlink : (p q : FilePath) (d : Disk) → p ≢ q → path_exists q (unlink p d) ≡ path_exists q d
exists-unlink p q [] h = refl
exists-unlink p q (e ∷ d) h =
    ground (arith, exists-unlink p q d h, path_eq_iff e.path p, path_eq_iff e.path q)

length-unlink-le : (p : FilePath) (d : Disk) → length (unlink p d) ≤ length d
length-unlink-le p [] = omega arith
length-unlink-le p (e ∷ d) = ground (arith, length-unlink-le p d)

length-unlink : (p : FilePath) (d : Disk) → path_exists p d ≡ true → length (unlink p d) < length d
length-unlink p [] h = cc
length-unlink p (e ∷ d) h = ground (arith, length-unlink p d, length-unlink-le p d)

module _ (candidate : ℕ → FilePath)
    (different : (i j : ℕ) → candidate i ≡ candidate j → i ≡ j) where
  -- The candidates from `i` on, `f` of them, are all taken.
  Taken : ℕ → ℕ → Disk → Type 0
  Taken zero i d = Unit
  Taken (suc f) i d = (path_exists (candidate i) d ≡ true) × Taken f (i + 1) d

  Taken-unlink : (f i j : ℕ) (d : Disk) → i < j → Taken f j d → Taken f j (unlink (candidate i) d)
  unfolding Taken
  Taken-unlink zero i j d h t = tt
  Taken-unlink (suc f) i j d h t = (
    exists-unlink (candidate i) (candidate j) d (λ e. absurd (omega (arith, different i j e)))
        ∙ t.0,
    Taken-unlink f i (j + 1) d (omega arith) t.1,
  )

  -- So many entries stand on the disk.
  Taken-le : (f i : ℕ) (d : Disk) → Taken f i d → f ≤ length d
  unfolding Taken
  Taken-le zero i d t = omega arith
  Taken-le (suc f) i d t = omega (
    arith,
    Taken-le f (i + 1) (unlink (candidate i) d) (Taken-unlink f i (i + 1) d (omega arith) t.1),
    length-unlink (candidate i) d t.0,
  )

  find_free-cases :
      (f i : ℕ) (d : Disk)
      → Taken f i d
        ⊎ ((k : ℕ) × (find_free f candidate i d ≡ some (candidate k))
            × (path_exists (candidate k) d ≡ false))
  unfolding find_free Taken
  find_free-cases zero i d = inl tt
  find_free-cases (suc f) i d = elim (Bool-cases (path_exists (candidate i) d)) [
    | inr free ↦ inr (i, rw free, free)
    | inl taken ↦ elim (find_free-cases f (i + 1) d) [
      | inl more ↦ inl (taken, more)
      | inr (k, e, free) ↦ inr (k, ground arith, free)
    ]
  ]

-- The function always returns: the given path if it is free, and else the path with a number in its
-- last name; what it returns is free.
pub change_path_name_free :
    (d : Disk) (path : FilePath)
    → (new_path : FilePath) × (change_path_name_if_exists d path ≡ some new_path)
      × (path_exists new_path d ≡ false)
      × ((new_path ≡ path) ⊎ ((i : ℕ) × (new_path ≡ numbered path (is_dir path d) i)))
unfolding change_path_name_if_exists
change_path_name_free d path = elim (Bool-cases (path_exists path d)) [
  | inr free ↦ (path, rw free, free, inl refl)
  | inl taken ↦
      let candidate = numbered path (is_dir path d) in
      let different = numbered_injective path (is_dir path d) in
      elim (find_free-cases candidate different (suc (length d)) 2 d) [
        | inl all ↦ absurd (omega (arith, Taken-le candidate different (suc (length d)) 2 d all))
        | inr (k, e, free) ↦ (candidate k, rw taken e, free, inr (k, refl))
      ]
]
