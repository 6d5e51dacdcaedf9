-- ===== src/Miniverses/Restarts.antt =====
-- What the test for a new Java version sees after the loop over the fields of an update.
use miniverse_backend.Base.{
  Option-cases, Result-cases, inl, inr, ◌≡◌, refl, Bool, true, false, Option, none, some, List, [],
  ◌∷◌, Text, eq_refl, ok, arith,
}
use miniverse_backend.Models.{Miniverse}
use miniverse_backend.Miniverses.World.{Host, World, row}
use miniverse_backend.Miniverses.Running.{first-adjust_self}
use miniverse_backend.Miniverses.Update.{
  Field, MiniverseData, is_changed, set_field, update_field, update_fields, fields_to_update,
  should_restart, text_changes, or_keep,
}

set_field_id : (field : Field) (d : MiniverseData) (m : Miniverse) → (set_field field d m).id ≡ m.id
unfolding set_field
set_field_id Field.name d m = refl
set_field_id Field.description d m = refl
set_field_id Field.subdomain d m = refl
set_field_id Field.java_version d m = refl
set_field_id Field.allow_bedrock d m = refl
set_field_id Field.online_mode d m = refl

-- Does the test after the loop ask for a restart, for the row as it stands?
abbrev restarts : MiniverseData → Option Miniverse → Bool
restarts d none = false
restarts d (some m) = should_restart d m

text_changes_self : (o : Option Text) (v : Option Text) → text_changes o (or_keep o v) ≡ false
text_changes_self none v = refl
text_changes_self (some x) v = ground (arith, eq_refl x)

set_field_restarts :
    (field : Field) (d : MiniverseData) (m : Miniverse)
    → should_restart d m ≡ false
    → should_restart d (set_field field d m) ≡ false
unfolding set_field should_restart
set_field_restarts Field.name d m e = e
set_field_restarts Field.description d m e = e
set_field_restarts Field.subdomain d m e = e
set_field_restarts Field.java_version d m e = text_changes_self d.java_version m.java_version
set_field_restarts Field.allow_bedrock d m e = e
set_field_restarts Field.online_mode d m e = e

set_java_version_restarts :
    (d : MiniverseData) (m : Miniverse)
    → should_restart d (set_field Field.java_version d m) ≡ false
unfolding set_field should_restart
set_java_version_restarts d m = text_changes_self d.java_version m.java_version

abbrev has_java_version : List Field → Bool
has_java_version [] = false
has_java_version (Field.java_version ∷ fields) = true
has_java_version (_ ∷ fields) = has_java_version fields

module _ (h : Host) (i : Text) (d : MiniverseData) where
  update_field_keeps :
      (field : Field) (w : World h)
      → restarts d (row i w.session) ≡ false
      → restarts d (row i (update_field h i d field w).1.session) ≡ false
  unfolding update_field
  update_field_keeps field w e = elim (Option-cases (row i w.session)) [
    | inr (m, r) ↦ ground (
      arith,
      first-adjust_self i (set_field field d) w.session.miniverses (set_field_id field d),
      set_field_restarts field d m,
    )
    | inl r ↦ ground arith
  ]

  update_fields_keeps :
      (fields : List Field) (w : World h)
      → restarts d (row i w.session) ≡ false
      → restarts d (row i (update_fields h i d fields w).1.session) ≡ false
  unfolding update_fields
  update_fields_keeps [] w e = e
  update_fields_keeps (field ∷ fields) w e = ground (
    arith,
    update_field_keeps field w e,
    update_fields_keeps fields (update_field h i d field w).1,
  )

  update_java_version :
      (changed : Bool) (w : World h)
      → (update_field h i d Field.java_version w).0 ≡ ok changed
      → restarts d (row i (update_field h i d Field.java_version w).1.session) ≡ false
  unfolding update_field is_changed should_restart
  update_java_version changed w e = elim (Option-cases (row i w.session)) [
    | inr (m, r) ↦ ground (
      arith,
      first-adjust_self i (set_field Field.java_version d) w.session.miniverses
          (set_field_id Field.java_version d),
      set_java_version_restarts d m,
    )
    | inl r ↦ ground arith
  ]

  update_fields_java_version :
      (fields changed : List Field) (w : World h)
      → has_java_version fields ≡ true
      → (update_fields h i d fields w).0 ≡ ok changed
      → restarts d (row i (update_fields h i d fields w).1.session) ≡ false
  unfolding update_fields
  update_fields_java_version [] changed w j e = cc
  update_fields_java_version (Field.java_version ∷ fields) changed w j e =
      elim (Result-cases (update_field h i d Field.java_version w).0) [
        | inl (b, r) ↦ ground (
          arith,
          update_java_version b w r,
          update_fields_keeps fields (update_field h i d Field.java_version w).1,
        )
        | inr r ↦ ground arith
      ]
  update_fields_java_version (field ∷ fields) changed w j e =
      elim (Result-cases (update_fields h i d fields (update_field h i d field w).1).0) [
        | inl (rest, r) ↦
            ground
              (arith, update_fields_java_version fields rest (update_field h i d field w).1 j r)
        | inr r ↦ ground arith
      ]

-- After the loop has succeeded the test for a new Java version fails, whatever was asked for: a change
-- of the Java version never restarts the miniverse.
update_fields-should_restart :
    (h : Host) (i : Text) (d : MiniverseData) (w : World h) (m : Miniverse) (changed : List Field)
    → (update_fields h i d fields_to_update w).0 ≡ ok changed
    → row i (update_fields h i d fields_to_update w).1.session ≡ some m
    → should_restart d m ≡ false
update_fields-should_restart h i d w m changed e r =
    ground (arith, update_fields_java_version h i d fields_to_update changed w refl e)
