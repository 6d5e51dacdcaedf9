-- ===== src/Mods/Samples.antt =====
-- Modrinth's answers and mods for the tests. An instant is written as that many strokes.
use miniverse_backend.Base.{
  ℕ, zero, suc, ◌≡◌, refl, true, false, none, some, [], ◌∷◌, Text, str, length, ok, Result, arith,
}
use miniverse_backend.Json.{null}
use miniverse_backend.Models.{Mod, Tables}
use miniverse_backend.Files.Disk.{dir, file}
use miniverse_backend.Mods.Schema.{
  ModSideSupport, ModVersionType, ModrinthProjectType, ModrinthProject, ModrinthProjectVersion,
  ModrinthProjectFile,
}
use miniverse_backend.Mods.Decoding.{with_offset}
use miniverse_backend.Miniverses.World.{World}
use miniverse_backend.Miniverses.Samples.{test_host, tables, data_m, world_on}

unfoldable pub isoformat : ℕ → Text
isoformat zero = []
isoformat (suc t) = b'|' ∷ isoformat t

abbrev pub fromisoformat : Text → Result ℕ
fromisoformat t = ok (length t)

pub fromisoformat-isoformat : (t : ℕ) → fromisoformat (with_offset (isoformat t)) ≡ ok t
unfolding isoformat with_offset
fromisoformat-isoformat zero = refl
fromisoformat-isoformat (suc t) = ground (arith, fromisoformat-isoformat t)

abbrev pub jar : ModrinthProjectFile
jar = record {
  hashes = record { sha1 = str "1"; sha512 = str "2" };
  url = str "u";
  filename = str "x.jar";
  primary = true;
  size = 3;
  file_type = none;
}

abbrev pub version : ModrinthProjectVersion
version = record {
  id = str "v1";
  project_id = str "p";
  author_id = str "a";
  date_published = 5;
  downloads = 0;
  name = str "one";
  version_number = str "1.0";
  changelog = none;
  game_versions = str "1.20.4" ∷ [];
  version_type = ModVersionType.release;
  loaders = str "fabric" ∷ [];
  featured = false;
  status = str "listed";
  requested_status = some (str "listed");
  files = jar ∷ [];
  dependencies = null;
}

abbrev pub later_beta : ModrinthProjectVersion
later_beta = record version {
  id = str "v2";
  date_published = 7;
  version_type = ModVersionType.beta;
  files = [];
}

abbrev pub project : ModrinthProject
project = record {
  id = str "p";
  slug = str "mod";
  title = str "Mod";
  description = [];
  body = [];
  categories = [];
  client_side = ModSideSupport.required;
  server_side = ModSideSupport.optional;
  issues_url = none;
  source_url = none;
  wiki_url = none;
  discord_url = none;
  color = null;
  team = str "t";
  published = 1;
  updated = 2;
  followers = 0;
  project_type = ModrinthProjectType.mod_type;
  downloads = 0;
  icon_url = [];
  versions = str "v1" ∷ str "v2" ∷ [];
  game_versions = [];
  loaders = [];
  gallery = [];
}

abbrev pub installed : Mod
installed = record {
  id = str "i";
  slug = str "mod";
  version_id = some (str "v1");
  project_id = some (str "p");
  title = str "Mod";
  icon_url = none;
  version_name = none;
  version_number = none;
  file_name = str "a.jar";
  miniverse_id = str "m";
}

abbrev pub tables_with_mod : Tables
tables_with_mod = record tables { mods = installed ∷ [] }

-- The world with the file of the installed mod.
abbrev pub modded : World test_host
modded = record (world_on test_host [] tables_with_mod) {
  disk =
      record { path = data_m; node = dir }
      ∷ record {
        path = str "d" ∷ str "miniverses" ∷ str "m" ∷ str "data" ∷ str "mods" ∷ [];
        node = dir;
      }
      ∷ record {
        path = str "d" ∷ str "miniverses" ∷ str "m" ∷ str "data" ∷ str "mods" ∷ str "a.jar" ∷ [];
        node = file (str "old");
      }
      ∷ [];
}
