-- ===== src/Files/Routes.antt =====
-- app/api/v1/files.py: the handlers of `FilesController` that extract and compress. `cwd` is the process's
-- working directory.
use miniverse_backend.Base.{List, Text, Result, Error, Action, ◌>>=◌, ◌>>◌, raise_if}
use miniverse_backend.Models.{Miniverse, MiniverseUserRole}
use miniverse_backend.Settings.{Settings}
use miniverse_backend.Files.Path.{FilePath, UserPath}
use miniverse_backend.Files.Disk.{Disk}
use miniverse_backend.Files.Api.{is_refused, data_root}
use miniverse_backend.Files.Archives
use miniverse_backend.Files.Archives.{Member}

pub data ArchiveRequest : Type 0 where
  extract_archive : UserPath → ArchiveRequest
  compress : List UserPath → ArchiveRequest

module _ (zip_members : Text → Result (List Member)) (zip_of : List (Text × Text) → Text)
    (cwd : FilePath) (settings : Settings) (miniverses : List Miniverse)
    (roles : List MiniverseUserRole) where
  unfoldable pub handle_archive : Text → ArchiveRequest → Action Disk (Unit {0})
  unfolding is_refused data_root
  handle_archive miniverse_id (extract_archive path) = do
    raise_if (is_refused settings miniverses roles miniverse_id) Error.not_authorized
    root ← data_root settings miniverses roles miniverse_id
    Archives.extract_miniverse_archive zip_members zip_of root path
  handle_archive miniverse_id (compress paths) = do
    raise_if (is_refused settings miniverses roles miniverse_id) Error.not_authorized
    root ← data_root settings miniverses roles miniverse_id
    Archives.compress_miniverse_files zip_members zip_of cwd root paths
