-- ===== src/Files/Api.antt =====
-- app/api/v1/files.py: the handlers of `FilesController` but those of archives and downloads. A handler
-- runs with the roles of the current user and the miniverses of the database.
use miniverse_backend.Base.{
  Bool, true, false, not, Option, none, some, List, [], ◌∷◌, ◌++◌, Text, str, ◌==◌, first, Error,
  Action, ◌>>=◌, ◌>>◌, pure, raise, gets, or_raise, raise_if, modify, if◌then◌else◌, ℕ,
}
use miniverse_backend.Role.{Role, lt}
use miniverse_backend.Models.{Miniverse, MiniverseUserRole, get_miniverse_role}
use miniverse_backend.Settings.{Settings, get_miniverse_path}
use miniverse_backend.Files.Path.{FilePath, UserPath}
use miniverse_backend.Files.Disk.{Disk, Entry, is_file, unlink}
use miniverse_backend.Files.Service
use miniverse_backend.Files.Service.{FileInfo}

-- The routes about one miniverse, and the two hooks of an upload. `set_content` carries the field
-- `content` of its data, which may be missing.
pub data FilesRequest : Type 0 where
  list_files : UserPath → FilesRequest
  delete_files : List UserPath → FilesRequest
  copy_files : List UserPath → UserPath → FilesRequest
  rename : UserPath → Text → FilesRequest
  get_content : UserPath → FilesRequest
  set_content : UserPath → Option Text → FilesRequest

pub data FilesReply : Type 0 where
  done : FilesReply
  listing : Option (List FileInfo) → FilesReply
  content : Text → FilesReply

-- The answer to the first hook: the status for the client, and whether the upload is rejected.
pub record HookReply : Type 0 where
  pub status_code : ℕ
  pub reject_upload : Bool

module _ (settings : Settings) (miniverses : List Miniverse) (roles : List MiniverseUserRole) where
  -- `current_user.get_miniverse_role(miniverse_id) < Role.MODERATOR`
  unfoldable pub is_refused : Text → Bool
  unfolding get_miniverse_role lt
  is_refused miniverse_id = lt (get_miniverse_role roles miniverse_id) (some Role.moderator)

  -- `get_miniverse_path(miniverse.id) / "data"`, where `get_miniverse` may have returned `None`.
  unfoldable pub data_root : Text → Action Disk FilePath
  unfolding get_miniverse_path
  data_root miniverse_id = do
    miniverse ← or_raise (first (λ m. m.id == miniverse_id) miniverses) Error.attribute_error
    pure (get_miniverse_path settings miniverse.id [] false ++ str "data" ∷ [])

  -- The guard of each route.
  abbrev permit : Text → Action Disk (Unit {0})
  permit miniverse_id = raise_if (is_refused miniverse_id) Error.not_authorized

  unfoldable pub rename_route : Text → UserPath → Text → Action Disk FilesReply
  unfolding is_refused data_root
  rename_route miniverse_id path new_name = do
    permit miniverse_id
    root ← data_root miniverse_id
    Service.rename_file root path new_name
    pure done

  unfoldable pub get_content_route : Text → UserPath → Action Disk FilesReply
  unfolding is_refused data_root
  get_content_route miniverse_id path = do
    permit miniverse_id
    root ← data_root miniverse_id
    bytes ← Service.get_file_content root path
    pure (content bytes)

  -- The data is looked at before the miniverse is.
  unfoldable pub set_content_route : Text → UserPath → Option Text → Action Disk FilesReply
  unfolding is_refused data_root
  set_content_route miniverse_id path none = do permit miniverse_id; raise Error.value_error
  set_content_route miniverse_id path (some text) = do
    permit miniverse_id
    root ← data_root miniverse_id
    Service.set_file_content root path text
    pure done

  -- `overrun` is what an endless copy leaves.
  unfoldable pub handle_files :
      (FilePath → FilePath → Disk → List Entry) → Text → FilesRequest → Action Disk FilesReply
  unfolding is_refused data_root rename_route get_content_route set_content_route
  handle_files overrun miniverse_id (list_files path) = do
    permit miniverse_id
    root ← data_root miniverse_id
    files ← Service.list_miniverse_files root path
    pure (listing files)
  handle_files overrun miniverse_id (delete_files paths) = do
    permit miniverse_id
    root ← data_root miniverse_id
    Service.delete_miniverse_files root paths
    pure done
  handle_files overrun miniverse_id (copy_files paths destination) = do
    permit miniverse_id
    root ← data_root miniverse_id
    Service.copy_miniverse_files overrun root paths destination
    pure done
  handle_files overrun miniverse_id (rename path new_name) = rename_route miniverse_id path new_name
  handle_files overrun miniverse_id (get_content path) = get_content_route miniverse_id path
  handle_files overrun miniverse_id (set_content path text) =
      set_content_route miniverse_id path text

  abbrev pub uploads : FilePath
  uploads = settings.data_path ++ str "uploads" ∷ []

  unfoldable pub pre_create : Text → HookReply
  unfolding is_refused
  pre_create miniverse_id =
      if is_refused miniverse_id
      then record { status_code = 401; reject_upload = true }
      else record { status_code = 204; reject_upload = false }

  -- `path.unlink()`, which raises if no file is there.
  abbrev unlink_file : FilePath → Action Disk (Unit {0})
  unlink_file p = do
    found ← Service.located p
    there ← gets (is_file found)
    raise_if (not there) Error.os_error
    modify (unlink found)

  unfoldable pub post_finish : Text → Text → Text → UserPath → Action Disk (Unit {0})
  unfolding is_refused data_root
  post_finish miniverse_id file_id filename destination =
      if is_refused miniverse_id
      then (do
        unlink_file (Service.upload_path uploads file_id)
        unlink_file (Service.upload_path uploads (file_id ++ str ".info")))
      else (do
        root ← data_root miniverse_id
        Service.upload_miniverse_file uploads root file_id filename destination)
