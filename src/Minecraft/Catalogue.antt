-- ===== src/Minecraft/Catalogue.antt =====
-- Reading the catalogue of versions, from the cache or from Modrinth.
use miniverse_backend.Base.{
  ℕ, ◌+◌, zero, suc, Bool, ◌&&◌, ◌||◌, Option, none, some, List, [], ◌∷◌, Text, str, ◌==◌, leb,
  Result, ok, err, Error, Action, ◌>>=◌, ◌>>◌, modify, if◌then◌else◌,
}
use miniverse_backend.Base.Dict.{Dict, insert, lookup}
use miniverse_backend.Json
use miniverse_backend.Json.{Json, text_at, bool_at, list_of}
use miniverse_backend.Mods.Decoding.{with_offset}
use miniverse_backend.Version.Compare.{
  MinecraftVersion, MinecraftVersionType, release_type, snapshot_type, alpha_type, beta_type,
}

-- `MinecraftVersionType(value)`
unfoldable pub version_type_of : Text → Result MinecraftVersionType
version_type_of t =
    if t == str "release"
    then ok release_type
    else if t == str "snapshot"
    then ok snapshot_type
    else if t == str "alpha"
    then ok alpha_type
    else if t == str "beta"
    then ok beta_type
    else err Error.value_error

-- `MinecraftVersion.from_dict`
unfoldable pub minecraft_version_from_dict : (Text → Result ℕ) → Json → Result MinecraftVersion
unfolding version_type_of with_offset ◌==◌
minecraft_version_from_dict fromisoformat d = Json.◌>>=◌ (text_at (str "version") d) λ version.
    Json.◌>>=◌ (Json.◌>>=◌ (text_at (str "version_type") d) version_type_of) λ type.
      Json.◌>>=◌ (Json.◌>>=◌ (text_at (str "date") d) λ t. fromisoformat (with_offset t)) λ date.
        Json.◌>>=◌ (bool_at (str "major") d) λ major.
          ok (record { version = version; version_type = type; date = date; major = major })

-- The cache `minecraft_cache_store` with what is in it now, as `json.loads` reads it; entries also go away
-- by themselves. `fetch` is the request to Modrinth with its check of the status.
module _ {S : Type 0} (fromisoformat : Text → Result ℕ) (fetch : Action S Json) where
  abbrev pub decode : Json → Action (Dict Json × S) (List MinecraftVersion)
  decode d s = (list_of (minecraft_version_from_dict fromisoformat) d, s)

  abbrev ask : Action (Dict Json × S) Json
  ask (c, s) = let (r, s') = fetch s in (r, (c, s'))

  unfoldable pub get_minecraft_versions : Action (Dict Json × S) (List MinecraftVersion)
  unfolding lookup insert
  get_minecraft_versions (c, s) = elim (lookup (str "versions") c) [
    | some cached ↦ decode cached (c, s)
    | none ↦
        (do
          answer ← ask
          modify (λ t. (insert (str "minecraft_versions") answer t.0, t.1))
          decode answer)
          (c, s)
  ]

abbrev pub is_space : ℕ → Bool
is_space c = (leb 9 c && leb c 13) || (leb 28 c && leb c 32)

unfoldable pub strip_front : Text → Text
strip_front [] = []
strip_front (c ∷ t) = let rest = strip_front t in if is_space c then rest else c ∷ t

unfoldable pub strip_back : Text → Text
strip_back [] = []
strip_back (c ∷ t) = elim (strip_back t) [
  | [] ↦ if is_space c then [] else c ∷ []
  | d ∷ rest ↦ c ∷ d ∷ rest
]

abbrev lower : Text → Text
lower [] = []
lower (c ∷ t) = (if leb b'A' c && leb c b'Z' then c + 32 else c) ∷ lower t

-- `min_version.lower().strip()`, for ASCII
abbrev pub normal : Text → Text
normal t = strip_back (strip_front (lower t))

-- `next((i for i, v in enumerate(all_versions) if v.version == min_version), None)`
unfoldable pub index_from : ℕ → Text → List MinecraftVersion → Option ℕ
index_from i min_version [] = none
index_from i min_version (v ∷ vs) =
    let rest = index_from (suc i) min_version vs in
    if v.version == min_version then some i else rest

-- `all_versions[:n]`
abbrev pub take {ℓ} : {A : Type ℓ} → ℕ → List A → List A
take zero xs = []
take (suc n) [] = []
take (suc n) (x ∷ xs) = x ∷ take n xs

-- `list_minecraft_versions`, for the versions that were read
unfoldable pub list_since : Option Text → List MinecraftVersion → Result (List MinecraftVersion)
unfolding index_from strip_back strip_front
list_since none all_versions = ok all_versions
list_since (some min_version) all_versions = elim (index_from 0 (normal min_version) all_versions) [
  | some i ↦ ok (take (suc i) all_versions)
  | none ↦ err Error.not_found
]
