-- ===== src/Files/Download.antt =====
-- `download_files` of app/services/files_service.py and its route in app/api/v1/files.py: the answer that makes
-- the web server send a file, or an archive of the files that a manifest names.
use miniverse_backend.Base.{
  Bool, true, false, ◌&&◌, List, [], ◌∷◌, ◌++◌, Text, str, keep, map, eqb, length, Error, Action,
  ◌>>=◌, ◌>>◌, gets, raise_if, if◌then◌else◌,
}
use miniverse_backend.Base.Dict.{Dict}
use miniverse_backend.Models.{Miniverse, MiniverseUserRole}
use miniverse_backend.Settings.{Settings}
use miniverse_backend.Files.Path.{FilePath, path_of_text, join, drop_last}
use miniverse_backend.Files.Disk.{
  Node, dir, file, Entry, Disk, path_eq, is_dir, is_file, is_below, behind,
}
use miniverse_backend.Files.Free.{decimal, name_of}
use miniverse_backend.Files.Quoting.{quote}
use miniverse_backend.Files.Service.{transform_safe_miniverse_files}
use miniverse_backend.Files.Api.{is_refused, data_root}

pub record Response : Type 0 where
  pub content : Text
  pub headers : Dict Text

-- A file that the manifest names, by its place on the disk and the directory that its name in the archive
-- is relative to.
pub record Listed : Type 0 where
  pub parent : FilePath
  pub path : FilePath
  pub size : Text

abbrev size_of : Node → Text
size_of dir = decimal 0
size_of (file content) = decimal (length content)

-- `f"{crc} {size} /internal/{quoted} {zip_path}"`, where `crc` is always "-"
abbrev pub line_of : Text → Text → Text → Text
line_of size quoted zip_path =
    str "- " ++ (size ++ (str " /internal/" ++ (quoted ++ (str " " ++ zip_path))))

-- The line that `add_to_manifest` appends, below the data path `data_path`.
unfoldable pub manifest_line : FilePath → Listed → Text
unfolding quote
manifest_line data_path f =
    line_of f.size (quote (join (behind data_path f.path))) (join (behind f.parent f.path))

-- `"\n".join(manifest) + "\n"`
unfoldable pub render : FilePath → List Listed → Text
unfolding manifest_line
render data_path [] = b'\n' ∷ []
render data_path (f ∷ []) = manifest_line data_path f ++ (b'\n' ∷ [])
render data_path (f ∷ g ∷ fs) = manifest_line data_path f ++ (b'\n' ∷ render data_path (g ∷ fs))

abbrev pub is_regular : Entry → Bool
is_regular e = elim e.node [ dir ↦ false | file content ↦ true ]

abbrev pub listed : FilePath → Entry → Listed
listed parent e = record { parent = parent; path = e.path; size = size_of e.node }

-- The files that one of the paths stands for: itself, or what `rglob("*")` finds below a directory.
unfoldable pub listed_below : FilePath → Disk → List Listed
listed_below p d =
    if is_file p d
    then map (listed (drop_last p)) (keep (λ e. path_eq e.path p) d)
    else if is_dir p d
    then map (listed (drop_last p)) (keep (λ e. is_below p e && is_regular e) d)
    else []

unfoldable pub listed_files : List FilePath → Disk → List Listed
unfolding listed_below
listed_files [] d = []
listed_files (p ∷ paths) d = listed_below p d ++ listed_files paths d

abbrev pub archive_of : FilePath → List Listed → Response
archive_of data_path fs = record {
  content = render data_path fs;
  headers =
      (str "X-Archive-Files", str "zip")
      ∷ (str "Content-Type", str "application/zip")
      ∷ (str "Content-Disposition", str "attachment; filename=\"archive.zip\"")
      ∷ [];
}

abbrev pub redirect_to : FilePath → FilePath → Response
redirect_to data_path p = record {
  content = [];
  headers =
      (str "X-Accel-Redirect", str "/internal/" ++ join (behind data_path p))
      ∷ (str "Content-Type", str "application/octet-stream")
      ∷ (str "Content-Disposition", str "attachment; filename=\"" ++ (name_of p ++ str "\""))
      ∷ [];
}

-- `download_files`, for paths that were checked.
unfoldable pub download_files : FilePath → List FilePath → Disk → Response
unfolding listed_files render
download_files data_path (p ∷ []) d =
    if is_file p d then redirect_to data_path p else archive_of data_path (listed_files (p ∷ []) d)
download_files data_path paths d = archive_of data_path (listed_files paths d)

-- `t.split(",")`, behind the characters of the current piece
unfoldable pub split_commas : Text → Text → List Text
split_commas piece [] = piece ∷ []
split_commas piece (c ∷ t) =
    let next = split_commas [] t in
    let same = split_commas (piece ++ c ∷ []) t in if eqb c b',' then piece ∷ next else same

-- The route. The list of paths is never empty, so that "Dossier vide" is never raised.
module _ (settings : Settings) (miniverses : List Miniverse) (roles : List MiniverseUserRole) where
  unfoldable pub handle_download : Text → Text → Action Disk Response
  handle_download miniverse_id paths = do
    raise_if (is_refused settings miniverses roles miniverse_id) Error.not_authorized
    root ← data_root settings miniverses roles miniverse_id
    safe_paths ← transform_safe_miniverse_files root (map path_of_text (split_commas [] paths))
    gets (download_files settings.data_path safe_paths)
