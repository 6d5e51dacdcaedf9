-- ===== src/Files/Requests.antt =====
-- What a request about the files of a miniverse may change, and for whom.
use miniverse_backend.Base.{◌≡◌, true, false, none, some, List, Text, Result, ok, err, Error, arith}
use miniverse_backend.Models.{Miniverse, MiniverseUserRole}
use miniverse_backend.Settings.{Settings}
use miniverse_backend.Files.Path.{FilePath, UserPath, is_relative_to}
use miniverse_backend.Files.Disk.{Disk, Entry, look}
use miniverse_backend.Files.Archives.{Member}
use miniverse_backend.Files.Routes.{ArchiveRequest, extract_archive, compress, handle_archive}
use miniverse_backend.Files.Download.{handle_download}
use miniverse_backend.Files.Service.{list_miniverse_files, get_file_content}
use miniverse_backend.Files.Api.{
  FilesRequest, list_files, delete_files, copy_files, rename, get_content, set_content, is_refused,
  data_root, handle_files, rename_route, get_content_route, set_content_route, pre_create,
}
use miniverse_backend.Files.Confined.{file_operations_confined}
use miniverse_backend.Files.Copying.{copy_miniverse_files_confined}
use miniverse_backend.Files.Adding.{IsRooted}

list_pure : (root : FilePath) (p : UserPath) (d : Disk) → (list_miniverse_files root p d).1 ≡ d
unfolding list_miniverse_files
list_pure root p d = ground arith

get_pure : (root : FilePath) (p : UserPath) (d : Disk) → (get_file_content root p d).1 ≡ d
unfolding get_file_content
get_pure root p d = ground arith

module _ (settings : Settings) (miniverses : List Miniverse) (roles : List MiniverseUserRole)
    (overrun : FilePath → FilePath → Disk → List Entry) (i : Text) where
  -- Whoever lists, deletes, copies, renames, reads or writes files of a miniverse, and whatever becomes of it: what stands
  -- outside the data directory of that miniverse stays, if the data directory exists.
  pub handle_files_confined :
      (r : FilesRequest) (d : Disk) (root q : FilePath)
      → data_root settings miniverses roles i d ≡ (ok root, d)
      → IsRooted root d
      → is_relative_to q root ≡ false
      → look q (handle_files settings miniverses roles overrun i r d).1 ≡ look q d
  unfolding handle_files rename_route get_content_route set_content_route
  handle_files_confined (list_files p) d root q e h o = ground (arith, e, list_pure root p d)
  handle_files_confined (delete_files ps) d root q e h o =
      ground (arith, e, (file_operations_confined root d q o).0 ps)
  handle_files_confined (copy_files ps p) d root q e h o =
      ground (arith, e, copy_miniverse_files_confined overrun root ps p d q h o)
  handle_files_confined (rename p new_name) d root q e h o =
      ground (arith, e, (file_operations_confined root d q o).1 p new_name)
  handle_files_confined (get_content p) d root q e h o = ground (arith, e, get_pure root p d)
  handle_files_confined (set_content p none) d root q e h o = ground arith
  handle_files_confined (set_content p (some text)) d root q e h o =
      ground (arith, e, (file_operations_confined root d q o).2 p text)

  files_only :
      (r : FilesRequest) (d : Disk)
      → is_refused settings miniverses roles i ≡ true
      → handle_files settings miniverses roles overrun i r d ≡ (err Error.not_authorized, d)
  unfolding handle_files rename_route get_content_route set_content_route
  files_only (list_files p) d e = ground (arith, e)
  files_only (delete_files ps) d e = ground (arith, e)
  files_only (copy_files ps p) d e = ground (arith, e)
  files_only (rename p new_name) d e = ground (arith, e)
  files_only (get_content p) d e = ground (arith, e)
  files_only (set_content p none) d e = ground (arith, e)
  files_only (set_content p (some text)) d e = ground (arith, e)

  archives_only :
      (zip_members : Text → Result (List Member)) (zip_of : List (Text × Text) → Text)
      (cwd : FilePath) (a : ArchiveRequest) (d : Disk)
      → is_refused settings miniverses roles i ≡ true
      → handle_archive zip_members zip_of cwd settings miniverses roles i a d
        ≡ (err Error.not_authorized, d)
  unfolding handle_archive
  archives_only zip_members zip_of cwd (extract_archive p) d e = ground (arith, e)
  archives_only zip_members zip_of cwd (compress ps) d e = ground (arith, e)

  -- A caller who is not at least a moderator of the miniverse is refused on every route about its files,
  -- the archives and the download among them, with "not authorized", and the disk stays as it is; the first hook
  -- of an upload rejects it.
  pub files_refused :
      (zip_members : Text → Result (List Member)) (zip_of : List (Text × Text) → Text)
      (cwd : FilePath) (r : FilesRequest) (a : ArchiveRequest) (paths : Text) (d : Disk)
      → is_refused settings miniverses roles i ≡ true
      → (handle_files settings miniverses roles overrun i r d ≡ (err Error.not_authorized, d))
        × (handle_archive zip_members zip_of cwd settings miniverses roles i a d
            ≡ (err Error.not_authorized, d))
        × (handle_download settings miniverses roles i paths d ≡ (err Error.not_authorized, d))
        × ((pre_create settings miniverses roles i).reject_upload ≡ true)
  unfolding handle_archive handle_download pre_create
  files_refused zip_members zip_of cwd r a paths d e = (
    files_only r d e,
    archives_only zip_members zip_of cwd a d e,
    ground (arith, e),
    ground (arith, e),
  )
