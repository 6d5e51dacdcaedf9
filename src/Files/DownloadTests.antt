-- ===== src/Files/DownloadTests.antt =====
-- Downloads and compression on the disk of the miniverse `m`, for a moderator of it.
use miniverse_backend.Base.{
  ◌≡◌, refl, false, some, List, [], ◌∷◌, ◌++◌, Text, str, ◌==◌, ok, Result,
}
use miniverse_backend.Role.{Role, role_value}
use miniverse_backend.Models.{MiniverseUserRole, get_miniverse_role}
use miniverse_backend.Settings.{get_miniverse_path}
use miniverse_backend.Miniverses.Samples.{settings, tables, disk, data_m}
use miniverse_backend.Files.Path.{
  FilePath, path_of_text, text_of_path, join, walk, is_relative_to, safe_user_path,
}
use miniverse_backend.Files.Disk.{locate, Node, Entry, Disk, file, path_eq, look}
use miniverse_backend.Files.Free.{decimal, name_of, change_path_name_if_exists}
use miniverse_backend.Files.Api.{is_refused, data_root}
use miniverse_backend.Files.Service.{transform_safe_miniverse_files}
use miniverse_backend.Files.Calls.{write_file}
use miniverse_backend.Files.Archives.{Member, last_part, compress_miniverse_files}
use miniverse_backend.Files.Quoting.{quote}
use miniverse_backend.Files.Download.{
  line_of, manifest_line, listed_files, redirect_to, archive_of, download_files, split_commas,
  handle_download,
}
use miniverse_backend.Files.Downloads.{GivesInside, handle_download_inside}
use miniverse_backend.Files.Forging.{forged_path, manifest_line_forged}
use miniverse_backend.Files.Reach.{only, compress_reads_raw}

abbrev moderator : List MiniverseUserRole
moderator = record { user_id = str "c"; miniverse_id = str "m"; role = Role.moderator } ∷ []

abbrev notes : FilePath
notes = data_m ++ str "my notes" ∷ []

abbrev passwords : Entry
passwords = record { path = str "passwords" ∷ []; node = file (str "root") }

abbrev with_notes : Disk
with_notes = disk ++ record { path = notes; node = file (str "abc") } ∷ passwords ∷ []

downloaded :
    (handle_download settings tables.miniverses moderator (str "m") (str "my notes") with_notes).0
    ≡ ok (redirect_to settings.data_path notes)
unfolding handle_download download_files split_commas data_root is_refused
    transform_safe_miniverse_files safe_user_path path_of_text text_of_path walk is_relative_to
    path_eq get_miniverse_path get_miniverse_role role_value ◌==◌
downloaded = refl

handle_download_inside_example :
    (is_refused settings tables.miniverses moderator (str "m") ≡ false)
    × ((handle_download settings tables.miniverses moderator
          (str "m")
          (str "my notes")
          with_notes).1
        ≡ with_notes)
    × ((root : FilePath) × (data_root settings tables.miniverses moderator (str "m") with_notes
          ≡ (ok root, with_notes))
        × GivesInside root settings.data_path (redirect_to settings.data_path notes))
handle_download_inside_example =
    handle_download_inside settings tables.miniverses moderator (str "m") (str "my notes")
      with_notes (redirect_to settings.data_path notes) downloaded

-- Two paths give a manifest.
manifest :
    download_files settings.data_path (notes ∷ data_m ∷ []) with_notes
    ≡ archive_of settings.data_path (
        record { parent = data_m; path = notes; size = str "3" }
        ∷ record {
          parent = str "d" ∷ str "miniverses" ∷ str "m" ∷ [];
          path = notes;
          size = str "3";
        }
        ∷ [])
unfolding download_files listed_files decimal path_eq is_relative_to ◌==◌
manifest = refl

line :
    manifest_line settings.data_path (record { parent = data_m; path = notes; size = str "3" })
    ≡ str "- 3 /internal/miniverses/m/data/my%20notes my notes"
unfolding manifest_line join
line = refl

plain : quote (str "miniverses/n/key") ≡ str "miniverses/n/key"
unfolding quote
plain = refl

manifest_line_forged_example :
    manifest_line settings.data_path (record {
      parent = data_m;
      path =
          data_m
          ++ forged_path
              (str "a")
              (str "9")
              (str "k")
              (str "miniverses" ∷ str "n" ∷ str "key" ∷ []);
      size = str "1";
    })
    ≡ line_of
        (str "1")
        (quote (
          join (
            str "miniverses"
            ∷ str "m"
            ∷ str "data"
            ∷ forged_path
                (str "a")
                (str "9")
                (str "k")
                (str "miniverses" ∷ str "n" ∷ str "key" ∷ []))))
        (str "a")
      ++ (b'\n' ∷ line_of (str "9") (quote (str "miniverses/n/key")) (str "k"))
unfolding join
manifest_line_forged_example =
    manifest_line_forged settings.data_path data_m (str "a") (str "1") (str "9") (str "k")
      (str "miniverses") (str "n" ∷ str "key" ∷ []) plain

abbrev no_members : Text → Result (List Member)
no_members t = ok []

abbrev contents : List (Text × Text) → Text
contents [] = []
contents ((n, t) ∷ rest) = t ++ contents rest

abbrev over : Disk
over = record { path = []; node = Node.dir } ∷ with_notes

there : look (str "passwords" ∷ []) over ≡ some passwords
unfolding path_eq ◌==◌
there = refl

found_there : locate over [] (str "passwords" ∷ []) ≡ some (str "passwords" ∷ [])
unfolding locate ◌==◌
found_there = refl

compressed :
    (compress_miniverse_files no_members contents [] data_m (only (str "passwords") []) over).0
    ≡ ok tt
unfolding compress_miniverse_files transform_safe_miniverse_files safe_user_path path_of_text
    text_of_path walk is_relative_to path_eq change_path_name_if_exists ◌==◌ name_of
compressed = refl

compress_reads_raw_example :
    (target : FilePath) × (compress_miniverse_files no_members contents [] data_m
        (only (str "passwords") [])
        over
      ≡ write_file target
          (contents ((join (last_part (str "passwords" ∷ [])), str "root") ∷ []))
          over)
compress_reads_raw_example =
    compress_reads_raw no_members contents [] data_m (str "passwords") [] (str "passwords" ∷ [])
      passwords (str "root") over found_there there refl compressed
