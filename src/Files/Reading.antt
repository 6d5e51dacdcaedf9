-- ===== src/Files/Reading.antt =====
-- What reading a file gives.
use miniverse_backend.Base.{
  ◌≡◌, ◌<◌, Result-cases, Option-cases, inl, inr, Option, some, none, Text, length, ok, arith,
}
use miniverse_backend.Files.Path.{FilePath, UserPath, safe_user_path}
use miniverse_backend.Files.Disk.{Disk, Node, file, look}
use miniverse_backend.Files.Confined.{Inside, safe-Inside}
use miniverse_backend.Files.Service.{get_file_content, size_limit}

abbrev pub node_at : FilePath → Disk → Option Node
node_at p d = elim (look p d) [ none ↦ none | some e ↦ some e.node ]

-- Content that is given out is that of a file inside the data directory, as the disk holds it, of fewer than
-- 15,000,000 bytes; the disk stays as it is.
pub get_file_content_bounded :
    (root : FilePath) (p : UserPath) (d : Disk) (t : Text)
    → (get_file_content root p d).0 ≡ ok t
    → (length t < size_limit)
      × ((get_file_content root p d).1 ≡ d)
      × ((q : FilePath) × Inside root q × (node_at q d ≡ some (file t)))
unfolding get_file_content
get_file_content_bounded root p d t e = elim (Result-cases (safe_user_path root p)) [
  | inr (x, r) ↦ ground arith
  | inl (q, r) ↦ elim (Option-cases (look q d)) [
    | inl n ↦ ground arith
    | inr (found, n) ↦ (ground arith, ground arith, (q, safe-Inside root p q r, ground arith))
  ]
]
