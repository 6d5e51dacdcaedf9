-- ===== src/Files/UploadTests.antt =====
-- Uploads to the miniverse `m`.
use miniverse_backend.Base.{◌≡◌, refl, true, [], ◌∷◌, ◌++◌, str, ◌==◌}
use miniverse_backend.Miniverses.Samples.{disk, data_m}
use miniverse_backend.Files.Path.{
  FilePath, UserPath, path_of_text, text_of_path, walk, is_relative_to, safe_user_path,
}
use miniverse_backend.Files.Disk.{Disk, dir, file, path_eq, locate, make_dirs}
use miniverse_backend.Files.Free.{
  stem_suffix, find_free, numbered, mark, decimal, change_path_name_if_exists,
}
use miniverse_backend.Files.Service.{upload_miniverse_file, upload_path, info_path}

abbrev uploads : FilePath
uploads = str "d" ∷ str "uploads" ∷ []

-- The upload `7` is finished.
abbrev uploaded : Disk
uploaded =
    disk
    ++ record { path = uploads; node = dir }
      ∷ record { path = uploads ++ str "7" ∷ []; node = file (str "abc") }
      ∷ record { path = uploads ++ str "7.info" ∷ []; node = file [] }
      ∷ []

abbrev top : UserPath
top = record { is_absolute = true; parts = [] }

abbrev target : FilePath
target = data_m ++ str "a.txt" ∷ []

-- An upload without a name, at the top: the data directory is the target, and the file comes to stand beside it.
upload_beside :
    (upload_miniverse_file uploads data_m (str "7") [] top uploaded).1
    ≡ disk
      ++ record { path = uploads; node = dir }
        ∷ record {
          path = str "d" ∷ str "miniverses" ∷ str "m" ∷ str "data (2)" ∷ [];
          node = file (str "abc");
        }
        ∷ []
unfolding upload_miniverse_file upload_path info_path locate find_free numbered mark decimal
    safe_user_path path_of_text text_of_path walk is_relative_to path_eq make_dirs stem_suffix
    change_path_name_if_exists ◌==◌
upload_beside = refl
