-- ===== src/Files/Uploading.antt =====
-- What an upload does to the disk.
use miniverse_backend.Base.{◌≡◌, ◌≢◌, [], Text, ok}
use miniverse_backend.Files.Path.{FilePath, UserPath, path_of_text, drop_last, safe_user_path}
use miniverse_backend.Files.Disk.{Disk, make_dirs}
use miniverse_backend.Files.Adding.{IsRooted}

module _ (uploads root dest target : FilePath) (file_id filename : Text) (destination : UserPath)
    (to_dest : safe_user_path root destination ≡ ok dest)
    (to_target : safe_user_path dest (path_of_text filename) ≡ ok target) (below : target ≢ root)
    (d : Disk) (rooted : IsRooted root d) where
  made : Disk
  made = make_dirs [] dest d

  ready : Disk
  unfolding made
  ready = make_dirs [] (drop_last target) made
