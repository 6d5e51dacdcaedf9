-- ===== src/Mods/Decoding/Members.antt =====
-- The enumerations of app/schemas/mods.py by their values, and the hashes of a file.
use miniverse_backend.Base.{
  Bool, true, false, ◌&&◌, ◌||◌, List, [], ◌∷◌, ◌++◌, Text, str, ◌==◌, eqb, Result, ok, err, Error,
  if◌then◌else◌,
}
use miniverse_backend.Json.{Json, object, end, field, Fields, ◌>>=◌, text_at}
use miniverse_backend.Mods.Schema.{
  ModrinthProjectType, ModSideSupport, ModVersionType, ModrinthFileHashes,
}

-- The members' values.
abbrev pub project_type_value : ModrinthProjectType → Text
project_type_value ModrinthProjectType.mod_type = str "mod"
project_type_value ModrinthProjectType.modpack = str "modpack"
project_type_value ModrinthProjectType.resourcepack = str "resourcepack"
project_type_value ModrinthProjectType.shader = str "shader"
project_type_value ModrinthProjectType.world = str "world"

abbrev pub side_value : ModSideSupport → Text
side_value ModSideSupport.required = str "required"
side_value ModSideSupport.optional = str "optional"
side_value ModSideSupport.unsupported = str "unsupported"
side_value ModSideSupport.unknown = str "unknown"

abbrev pub version_type_value : ModVersionType → Text
version_type_value ModVersionType.release = str "release"
version_type_value ModVersionType.beta = str "beta"
version_type_value ModVersionType.alpha = str "alpha"

-- `E(value)`: the member with the value, among the members in their order
abbrev pub member : {A : Type 0} → (A → Text) → List A → Text → Result A
member value [] t = err Error.value_error
member value (a ∷ bs) t = let rest = member value bs t in if value a == t then ok a else rest

abbrev pub project_type_of : Text → Result ModrinthProjectType
project_type_of = member project_type_value (
    ModrinthProjectType.mod_type ∷ ModrinthProjectType.modpack ∷ ModrinthProjectType.resourcepack
    ∷ ModrinthProjectType.shader ∷ ModrinthProjectType.world ∷ [])

abbrev pub side_of : Text → Result ModSideSupport
side_of = member side_value (
    ModSideSupport.required ∷ ModSideSupport.optional ∷ ModSideSupport.unsupported
    ∷ ModSideSupport.unknown ∷ [])

abbrev pub version_type_of : Text → Result ModVersionType
version_type_of =
    member version_type_value
      (ModVersionType.release ∷ ModVersionType.beta ∷ ModVersionType.alpha ∷ [])

abbrev pub enum_at : {A : Type 0} → (Text → Result A) → Text → Json → Result A
enum_at of_text k d = text_at k d >>= of_text

-- `t.replace("Z", "+00:00")`
unfoldable pub with_offset : Text → Text
with_offset [] = []
with_offset (c ∷ t) = (if eqb c b'Z' then str "+00:00" else c ∷ []) ++ with_offset t

-- `ModrinthFileHashes(**data)` takes these two keys and no other.
abbrev pub only_hashes : Fields → Bool
only_hashes end = true
only_hashes (field k v fs) = (k == str "sha1" || k == str "sha512") && only_hashes fs

abbrev pub are_hashes : Json → Bool
are_hashes (object fs) = only_hashes fs
are_hashes _ = false

abbrev pub as_type_error : {A : Type 0} → Result A → Result A
as_type_error (ok a) = ok a
as_type_error (err e) = err Error.type_error

unfoldable pub hashes_from_dict : Json → Result ModrinthFileHashes
hashes_from_dict d = do
  sha1 ← as_type_error (text_at (str "sha1") d)
  sha512 ← as_type_error (text_at (str "sha512") d)
  if are_hashes d then ok (record { sha1 = sha1; sha512 = sha512 }) else err Error.type_error
