-- ===== src/Miniverses/Update.antt =====
-- The loop over the fields in `update_miniverse` of app/services/miniverse_service.py, and the test for
-- a restart that follows it. The request's `dict` is a record of optional values of the columns' types.
use miniverse_backend.Base.{
  Bool, true, false, not, Option, none, some, List, [], ◌∷◌, Text, ◌==◌, exists, Error, Action,
  ◌>>=◌, ◌>>◌, pure, gets, raise_if, if◌then◌else◌,
}
use miniverse_backend.Models.{Miniverse}
use miniverse_backend.Miniverses.World.{Host, World, assign, the}

pub data Field : Type 0 where
  name description subdomain java_version allow_bedrock online_mode : Field

pub record MiniverseData : Type 0 where
  pub name : Option Text
  pub description : Option Text
  pub subdomain : Option Text
  pub java_version : Option Text
  pub mc_version : Option Text
  pub allow_bedrock : Option Bool
  pub online_mode : Option Bool

-- `value != new_value`
abbrev pub text_differs : Option Text → Text → Bool
text_differs none new_value = true
text_differs (some value) new_value = not (value == new_value)

abbrev pub bool_differs : Bool → Bool → Bool
bool_differs true new_value = not new_value
bool_differs false new_value = new_value

-- `new_value is not None and getattr(miniverse, field) != new_value`
abbrev pub text_changes : Option Text → Option Text → Bool
text_changes none value = false
text_changes (some new_value) value = text_differs value new_value

abbrev pub bool_changes : Option Bool → Bool → Bool
bool_changes none value = false
bool_changes (some new_value) value = bool_differs value new_value

unfoldable pub is_changed : Field → MiniverseData → Miniverse → Bool
is_changed Field.name d m = text_changes d.name (some m.name)
is_changed Field.description d m = text_changes d.description m.description
is_changed Field.subdomain d m = text_changes d.subdomain (some m.subdomain)
is_changed Field.java_version d m = text_changes d.java_version m.java_version
is_changed Field.allow_bedrock d m = bool_changes d.allow_bedrock m.allow_bedrock
is_changed Field.online_mode d m = bool_changes d.online_mode m.online_mode

abbrev pub or_else : {A : Type 0} → Option A → A → A
or_else none a = a
or_else (some b) a = b

abbrev pub or_keep : {A : Type 0} → Option A → Option A → Option A
or_keep none a = a
or_keep (some b) a = some b

-- `setattr(miniverse, field, new_value)`
unfoldable pub set_field : Field → MiniverseData → Miniverse → Miniverse
set_field Field.name d m = record m { name = or_else d.name m.name }
set_field Field.description d m = record m { description = or_keep d.description m.description }
set_field Field.subdomain d m = record m { subdomain = or_else d.subdomain m.subdomain }
set_field Field.java_version d m = record m { java_version = or_keep d.java_version m.java_version }
set_field Field.allow_bedrock d m = record m {
  allow_bedrock = or_else d.allow_bedrock m.allow_bedrock;
}
set_field Field.online_mode d m = record m { online_mode = or_else d.online_mode m.online_mode }

abbrev pub has_text : (Miniverse → Text) → Option Text → List Miniverse → Bool
has_text f none ms = false
has_text f (some v) ms = exists (λ m. f m == v) ms

-- The query for another row, made for a name and a subdomain only.
unfoldable pub is_used : Field → MiniverseData → List Miniverse → Bool
is_used Field.name d ms = has_text (λ m. m.name) d.name ms
is_used Field.subdomain d ms = has_text (λ m. m.subdomain) d.subdomain ms
is_used Field.description d ms = false
is_used Field.java_version d ms = false
is_used Field.allow_bedrock d ms = false
is_used Field.online_mode d ms = false

abbrev pub fields_to_update : List Field
fields_to_update =
    Field.name ∷ Field.description ∷ Field.subdomain ∷ Field.java_version ∷ Field.allow_bedrock
    ∷ Field.online_mode ∷ []

module _ (h : Host) (i : Text) (d : MiniverseData) where
  -- One turn of the loop: is the field changed?
  unfoldable pub update_field : Field → Action (World h) Bool
  unfolding is_changed set_field is_used
  update_field field w =
      (the i >>= λ m. elim (is_changed field d m) [
        | false ↦ pure false
        | true ↦ do
          used ← gets (λ w. is_used field d w.session.miniverses)
          raise_if used Error.validation
          assign i (set_field field d)
          pure true
      ])
        w

  -- The loop: the fields that were changed.
  unfoldable pub update_fields : List Field → Action (World h) (List Field)
  unfolding update_field
  update_fields [] = pure []
  update_fields (field ∷ fields) = do
    changed ← update_field field
    rest ← update_fields fields
    pure (if changed then field ∷ rest else rest)

-- `java_version is not None and miniverse.java_version != java_version`, read after the loop.
unfoldable pub should_restart : MiniverseData → Miniverse → Bool
should_restart d m = text_changes d.java_version m.java_version
