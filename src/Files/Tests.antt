-- ===== src/Files/Tests.antt =====
-- The files of a miniverse on a small disk.
use miniverse_backend.Base.{
  Result, ℕ, ◌≡◌, refl, ◌⊎◌, true, false, some, List, [], ◌∷◌, ◌++◌, Text, str, ◌==◌, ok, All,
}
use miniverse_backend.Base.{none, err, Error}
use miniverse_backend.Role.{Role, lt, role_value}
use miniverse_backend.Models.{Miniverse, MiniverseType, MiniverseUserRole, get_miniverse_role}
use miniverse_backend.Settings.{Settings, get_miniverse_path}
use miniverse_backend.Files.Api.{
  delete_files, get_content, is_refused, data_root, handle_files, pre_create,
}
use miniverse_backend.Files.Routes.{compress, handle_archive}
use miniverse_backend.Files.Download.{handle_download}
use miniverse_backend.Files.Archives.{Member}
use miniverse_backend.Files.Requests.{files_refused, handle_files_confined}
use miniverse_backend.Base.{length, ◌<◌}
use miniverse_backend.Files.Service.{get_file_content, size_limit}
use miniverse_backend.Files.Confined.{Inside}
use miniverse_backend.Files.Reading.{node_at, get_file_content_bounded}
use miniverse_backend.Files.Path.{
  FilePath, UserPath, path_of_text, split_from, text_of_path, join, walk, is_relative_to,
  safe_user_path,
}
use miniverse_backend.Files.Disk.{
  dir, file, Entry, Disk, path_eq, path_exists, is_dir, look, make_dirs,
}
use miniverse_backend.Files.Free.{name_of, numbered, change_path_name_if_exists}
use miniverse_backend.Files.Naming.{change_path_name_free}
use miniverse_backend.Files.Safety.{IsName, IsChild, relative_parts, safe_user_path_contained}
use miniverse_backend.Files.Service.{
  copy_miniverse_files, copy_each, copy_one, copytree, transform_safe_miniverse_files,
  set_file_content,
}
use miniverse_backend.Files.Quoting.{encode, utf8}
use miniverse_backend.Files.Adding.{IsRooted}

abbrev root : FilePath
root = str "data" ∷ []

abbrev secret : Entry
secret = record { path = str "secret" ∷ []; node = file (str "s") }

abbrev world_file : Entry
world_file = record { path = str "data" ∷ str "world" ∷ []; node = file (str "w") }

abbrev disk : Disk
disk = record { path = root; node = dir } ∷ world_file ∷ secret ∷ []

-- `a/../world`, and `world`
abbrev dotted : UserPath
dotted = record { is_absolute = false; parts = str "a" ∷ str ".." ∷ str "world" ∷ [] }

abbrev world_path : UserPath
world_path = record { is_absolute = true; parts = str "world" ∷ [] }

abbrev here : UserPath
here = record { is_absolute = false; parts = [] }

root-IsChild : All IsChild root
unfolding ◌==◌
root-IsChild = ((refl, refl), tt)

world-IsChild : All IsChild (str "world" ∷ [])
unfolding ◌==◌
world-IsChild = ((refl, refl), tt)

world-IsName : All IsName (str "world" ∷ [])
unfolding ◌==◌
world-IsName = (((refl, (refl, (refl, (refl, (refl, tt))))), refl), tt)

dotted_accepted : safe_user_path root dotted ≡ ok (str "data" ∷ str "world" ∷ [])
unfolding safe_user_path path_of_text split_from text_of_path join walk is_relative_to ◌==◌
dotted_accepted = refl

outside_root : is_relative_to (str "secret" ∷ []) root ≡ false
unfolding is_relative_to ◌==◌
outside_root = refl

safe_user_path_contained_example :
    (rest : List Text) × (str "data" ∷ str "world" ∷ [] ≡ root ++ rest) × All IsChild rest
safe_user_path_contained_example =
    safe_user_path_contained root dotted (str "data" ∷ str "world" ∷ []) root-IsChild
      dotted_accepted

relative_parts_example :
    path_of_text (str "./" ++ text_of_path world_path)
    ≡ record { is_absolute = false; parts = str "world" ∷ [] }
relative_parts_example = relative_parts true (str "world" ∷ []) world-IsName

change_path_name_free_example :
    (new_path : FilePath) × (change_path_name_if_exists disk (str "data" ∷ str "world" ∷ [])
      ≡ some new_path)
    × (path_exists new_path disk ≡ false)
    × ((new_path ≡ str "data" ∷ str "world" ∷ [])
        ⊎ ((i : ℕ) × (new_path
              ≡ numbered
                  (str "data" ∷ str "world" ∷ [])
                  (is_dir (str "data" ∷ str "world" ∷ []) disk)
                  i)))
change_path_name_free_example = change_path_name_free disk (str "data" ∷ str "world" ∷ [])

abbrev no_overrun : FilePath → FilePath → Disk → List Entry
no_overrun source target d = []

abbrev settings : Settings
settings = record {
  data_path = [];
  host_data_path = [];
  domain_name = [];
  docker_network_name = [];
  proxy_secret = [];
  proxy_socks = none;
}

abbrev a_miniverse : Miniverse
a_miniverse = record {
  id = str "m";
  name = str "one";
  type = MiniverseType.vanilla;
  description = none;
  container_id = none;
  java_version = none;
  mc_version = str "1.20.4";
  subdomain = str "s";
  online_mode = true;
  is_on_lite_proxy = true;
  allow_bedrock = false;
  started = false;
  management_server_secret = none;
}

abbrev a_user : MiniverseUserRole
a_user = record { user_id = str "c"; miniverse_id = str "m"; role = Role.user }

-- The data directory of the miniverse, with the directories above it.
abbrev data_path : FilePath
data_path = str "miniverses" ∷ str "m" ∷ str "data" ∷ []

abbrev deep_disk : Disk
deep_disk =
    record { path = str "miniverses" ∷ []; node = dir }
    ∷ record { path = str "miniverses" ∷ str "m" ∷ []; node = dir }
    ∷ record { path = data_path; node = dir }
    ∷ secret
    ∷ []

user_refused : is_refused settings (a_miniverse ∷ []) (a_user ∷ []) (str "m") ≡ true
unfolding is_refused get_miniverse_role lt role_value ◌==◌
user_refused = refl

data_root_found :
    data_root settings (a_miniverse ∷ []) (a_user ∷ []) (str "m") deep_disk
    ≡ (ok data_path, deep_disk)
unfolding data_root get_miniverse_path ◌==◌
data_root_found = refl

deep_disk-IsRooted : IsRooted data_path deep_disk
unfolding path_eq ◌==◌
deep_disk-IsRooted = (refl, (refl, (refl, tt)))

outside_data : is_relative_to (str "secret" ∷ []) data_path ≡ false
unfolding is_relative_to ◌==◌
outside_data = refl

abbrev no_members : Text → Result (List Member)
no_members t = ok []

abbrev no_archive : List (Text × Text) → Text
no_archive es = []

files_refused_example :
    (handle_files settings
        (a_miniverse ∷ [])
        (a_user ∷ [])
        no_overrun
        (str "m")
        (get_content world_path)
        deep_disk
      ≡ (err Error.not_authorized, deep_disk))
    × (handle_archive no_members no_archive [] settings
          (a_miniverse ∷ [])
          (a_user ∷ [])
          (str "m")
          (compress (world_path ∷ []))
          deep_disk
        ≡ (err Error.not_authorized, deep_disk))
    × (handle_download settings (a_miniverse ∷ []) (a_user ∷ []) (str "m") (str "world") deep_disk
        ≡ (err Error.not_authorized, deep_disk))
    × ((pre_create settings (a_miniverse ∷ []) (a_user ∷ []) (str "m")).reject_upload ≡ true)
files_refused_example =
    files_refused settings (a_miniverse ∷ []) (a_user ∷ []) no_overrun (str "m") no_members
      no_archive [] (get_content world_path) (compress (world_path ∷ [])) (str "world") deep_disk
      user_refused

handle_files_confined_example :
    look
      (str "secret" ∷ [])
      (handle_files settings
        (a_miniverse ∷ [])
        (a_user ∷ [])
        no_overrun
        (str "m")
        (delete_files (dotted ∷ []))
        deep_disk).1
    ≡ look (str "secret" ∷ []) deep_disk
handle_files_confined_example =
    handle_files_confined settings (a_miniverse ∷ []) (a_user ∷ []) no_overrun (str "m")
      (delete_files (dotted ∷ [])) deep_disk data_path (str "secret" ∷ []) data_root_found
      deep_disk-IsRooted outside_data

world_read : (get_file_content root world_path disk).0 ≡ ok (str "w")
unfolding get_file_content safe_user_path path_of_text split_from text_of_path join walk
    is_relative_to path_eq ◌==◌
world_read = refl

get_file_content_bounded_example :
    (length (str "w") < size_limit)
    × ((get_file_content root world_path disk).1 ≡ disk)
    × ((q : FilePath) × Inside root q × (node_at q disk ≡ some (file (str "w"))))
get_file_content_bounded_example =
    get_file_content_bounded root world_path disk (str "w") world_read

-- A copy of the data directory into itself is one of what was there.
copied_into_itself :
    (copy_miniverse_files no_overrun root (here ∷ []) here disk).1
    ≡ disk
      ++ record { path = str "data" ∷ str "data" ∷ []; node = dir }
        ∷ record { path = str "data" ∷ str "data" ∷ str "world" ∷ []; node = file (str "w") }
        ∷ []
unfolding copy_miniverse_files copy_each copy_one copytree transform_safe_miniverse_files
    safe_user_path path_of_text split_from text_of_path join walk is_relative_to path_eq make_dirs
    name_of change_path_name_if_exists ◌==◌
copied_into_itself = refl

-- Three letters of which one takes two bytes.
written :
    (set_file_content root world_path (str "h" ++ 233 ∷ str "!") disk).1
    ≡ record { path = root; node = dir }
      ∷ record { path = str "data" ∷ str "world" ∷ []; node = file (104 ∷ 195 ∷ 169 ∷ 33 ∷ []) }
      ∷ secret
      ∷ []
unfolding set_file_content encode utf8 safe_user_path path_of_text split_from text_of_path join walk
    is_relative_to path_eq ◌==◌
written = refl
