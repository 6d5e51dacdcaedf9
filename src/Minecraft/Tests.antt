-- ===== src/Minecraft/Tests.antt =====
-- A catalogue of two versions.
use miniverse_backend.Base.{
  ◌≡◌, refl, ◌⊎◌, ℕ, ◌+◌, true, false, none, some, [], ◌∷◌, ◌++◌, Text, str, ◌==◌, exists, length,
  ok, err, Error, Action, Result,
}
use miniverse_backend.Base.Dict.{lookup}
use miniverse_backend.Json.{Json, array, object, text, boolean, nil, cons, end, field}
use miniverse_backend.Version.Compare.{MinecraftVersion, release_type, snapshot_type}
use miniverse_backend.Minecraft.Catalogue.{
  minecraft_version_from_dict, get_minecraft_versions, normal, list_since,
}
use miniverse_backend.Minecraft.Uncached.{after, calls_ask}
use miniverse_backend.Minecraft.Since.{Found, is_named, list_since-up_to}

abbrev newer : MinecraftVersion
newer = record { version = str "1.21-pre1"; version_type = snapshot_type; date = 5; major = false }

abbrev older : MinecraftVersion
older = record { version = str "1.20"; version_type = release_type; date = 3; major = true }

abbrev document : Json
document = object (
    field (str "version") (text (str "1.20")) (
      field (str "version_type") (text (str "release"))
        (field (str "date") (text (str "abc")) (field (str "major") (boolean true) end))))

abbrev fromisoformat : Text → Result ℕ
fromisoformat t = ok (length t)

decoded : minecraft_version_from_dict fromisoformat document ≡ ok older
unfolding minecraft_version_from_dict
decoded = refl

-- Modrinth counts the requests.
abbrev fetch : Action ℕ Json
fetch n = (ok (array (cons document nil)), n + 1)

calls_ask_example :
    ((after 3 (get_minecraft_versions fromisoformat fetch) ([], 0)).1 ≡ 3)
    × (lookup (str "versions") (after 3 (get_minecraft_versions fromisoformat fetch) ([], 0)).0
        ≡ none)
unfolding lookup
calls_ask_example = calls_ask fromisoformat fetch 3 [] 0 refl

list_since-up_to_example :
    ((f : Found (normal (str " 1.20 ")) (newer ∷ older ∷ [])) × (list_since
          (some (str " 1.20 "))
          (newer ∷ older ∷ [])
        ≡ ok (f.front ++ f.hit ∷ [])))
    ⊎ ((exists (is_named (normal (str " 1.20 "))) (newer ∷ older ∷ []) ≡ false)
        × (list_since (some (str " 1.20 ")) (newer ∷ older ∷ []) ≡ err Error.not_found))
list_since-up_to_example = list_since-up_to (str " 1.20 ") (newer ∷ older ∷ [])

since : list_since (some (str " 1.20 ")) (newer ∷ older ∷ older ∷ []) ≡ ok (newer ∷ older ∷ [])
unfolding list_since ◌==◌
since = refl
