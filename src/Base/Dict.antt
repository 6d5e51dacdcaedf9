-- ===== src/Base/Dict.antt =====
-- A Python `dict` with `str` keys: the items in the order of insertion.
use mathlib.Core.Path.{◌≡◌, refl}
use mathlib.Core.Option.{Option, none, some}
use mathlib.Core.List.{List, [], ◌∷◌}
use native.Mathlib.Omega.{arith}
use miniverse_backend.Base.Tests.{if◌then◌else◌}
use miniverse_backend.Base.Strings.{Text, ◌==◌, eq_iff}

abbrev pub Dict : Type 0 → Type 0
Dict A = List (Text × A)

module _ {A : Type 0} where
  -- `d[k] = v`
  unfoldable pub insert : Text → A → Dict A → Dict A
  insert k v [] = (k, v) ∷ []
  insert k v ((j, w) ∷ d) = let rest = insert k v d in if j == k then (j, v) ∷ d else (j, w) ∷ rest

  -- `d.get(k)`
  unfoldable pub lookup : Text → Dict A → Option A
  lookup k [] = none
  lookup k ((j, w) ∷ d) = let rest = lookup k d in if j == k then some w else rest

  -- `d.pop(k, None)`
  unfoldable pub discard : Text → Dict A → Dict A
  discard k [] = []
  discard k ((j, w) ∷ d) = let rest = discard k d in if j == k then rest else (j, w) ∷ rest

  unfoldable pub values : Dict A → List A
  values [] = []
  values ((j, w) ∷ d) = w ∷ values d

pub lookup-insert :
    {A : Type 0} (k j : Text) (v : A) (d : Dict A)
    → lookup k (insert j v d) ≡ (if j == k then some v else lookup k d)
unfolding lookup insert
lookup-insert k j v [] = refl
lookup-insert k j v ((l, w) ∷ d) =
    ground (arith, lookup-insert k j v d, eq_iff l j, eq_iff l k, eq_iff j k)
