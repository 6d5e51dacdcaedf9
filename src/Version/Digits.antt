-- ===== src/Version/Digits.antt =====
-- What the pieces of the patterns read from a text that is put together from runs of digits.
use mathlib.Core.List.{append-nil}
use miniverse_backend.Base.{
  ℕ, ◌≡◌, refl, Bool, true, false, none, some, [], ◌∷◌, ◌++◌, Text, length, eqb, arith,
  if◌then◌else◌, All,
}
use miniverse_backend.Version.Scan.{is_digit, span, int, digits}
use miniverse_backend.Version.Grammar.{patch_group, main_version}

abbrev pub IsDigits : Text → Type 0
IsDigits = All (λ c. is_digit c ≡ true)

-- The text is empty or begins with something that is no digit.
abbrev pub EndsRun : Text → Type 0
EndsRun [] = Unit
EndsRun (c ∷ cs) = is_digit c ≡ false

pub span-append : (ds rest : Text) → IsDigits ds → EndsRun rest → span (ds ++ rest) ≡ (ds, rest)
unfolding span
span-append [] [] h e = refl
span-append [] (c ∷ cs) h e = ground arith
span-append (d ∷ ds) rest h e = rw (span-append ds rest h.1 e) (ground arith)

pub digits-append :
    (fits : ℕ → Bool) (ds rest : Text)
    → IsDigits ds
    → EndsRun rest
    → digits fits (ds ++ rest) ≡ (if fits (length ds) then some (ds, rest) else none)
unfolding digits
digits-append fits ds rest h e = rw (span-append ds rest h e)

pub digits_all :
    (fits : ℕ → Bool) (ds : Text)
    → IsDigits ds
    → digits fits ds ≡ (if fits (length ds) then some (ds, []) else none)
digits_all fits ds h = rw append-nil at (digits-append fits ds [] h tt)

-- `major.minor.patch` with what follows
abbrev pub three_part : Text → Text → Text → Text → Text
three_part a b c rest = a ++ (b'.' ∷ (b ++ (b'.' ∷ (c ++ rest))))

-- `major.minor` with what follows
abbrev pub two_part : Text → Text → Text → Text
two_part a b rest = a ++ (b'.' ∷ (b ++ rest))

-- Behind `major.minor`: empty, or something that is neither a digit nor a dot.
abbrev pub EndsMain : Text → Type 0
EndsMain [] = Unit
EndsMain (c ∷ cs) = (is_digit c ≡ false) × (eqb b'.' c ≡ false)

EndsRun-of_EndsMain : (rest : Text) → EndsMain rest → EndsRun rest
EndsRun-of_EndsMain [] h = tt
EndsRun-of_EndsMain (c ∷ cs) h = h.0

patch_group-none :
    (fits : ℕ → Bool) (rest : Text) → EndsMain rest → patch_group fits rest ≡ (0, rest)
unfolding patch_group
patch_group-none fits [] h = refl
patch_group-none fits (c ∷ cs) h = ground arith

module _ (fits_major fits : ℕ → Bool) (a b : Text) (da : IsDigits a) (db : IsDigits b) where
  pub main_version-three_part :
      (c rest : Text)
      → IsDigits c
      → EndsRun rest
      → main_version fits_major fits (three_part a b c rest) ≡ (
          if fits_major (length a)
          then (if fits (length b)
              then (if fits (length c)
                  then some (int a, int b, int c, rest)
                  else some (int a, int b, 0, b'.' ∷ (c ++ rest)))
              else none)
          else none)
  unfolding main_version
  main_version-three_part c rest dc e = ground (
    arith,
    span-append a (b'.' ∷ (b ++ (b'.' ∷ (c ++ rest)))) da refl,
    span-append b (b'.' ∷ (c ++ rest)) db refl,
    span-append c rest dc e,
  )

  pub main_version-two_part :
      (rest : Text)
      → EndsMain rest
      → main_version fits_major fits (two_part a b rest) ≡ (
          if fits_major (length a)
          then (if fits (length b) then some (int a, int b, 0, rest) else none)
          else none)
  unfolding main_version
  main_version-two_part rest e = ground (
    arith,
    span-append a (b'.' ∷ (b ++ rest)) da refl,
    span-append b rest db (EndsRun-of_EndsMain rest e),
    patch_group-none fits rest e,
  )
