-- ===== src/Files/Forging.antt =====
-- A line break in a name and the manifest of a download.
use miniverse_backend.Base.{◌≡◌, refl, sym, ap, ◌∙◌, [], ◌∷◌, ◌++◌, Text, str}
use mathlib.Core.List.{append_assoc}
use miniverse_backend.Files.Path.{FilePath, join}
use miniverse_backend.Files.Disk.{behind}
use miniverse_backend.Files.Quoting.{quote}
use miniverse_backend.Files.Download.{line_of, manifest_line}

behind-append : (base rest : FilePath) → behind base (base ++ rest) ≡ rest
behind-append [] rest = refl
behind-append (b ∷ base) rest = behind-append base rest

-- More behind the last name of a path.
abbrev pub extend : FilePath → Text → FilePath
extend [] t = t ∷ []
extend (s ∷ []) t = (s ++ t) ∷ []
extend (s ∷ u ∷ rest) t = s ∷ extend (u ∷ rest) t

join-cons :
    (s : Text) (p : Text) (v : FilePath) (t : Text)
    → join (s ∷ extend (p ∷ v) t) ≡ s ++ (b'/' ∷ join (extend (p ∷ v) t))
unfolding join
join-cons s p [] t = refl
join-cons s p (u ∷ v) t = refl

join-extend : (p : Text) (v : FilePath) (t : Text) → join (extend (p ∷ v) t) ≡ join (p ∷ v) ++ t
unfolding join
join-extend p [] t = refl
join-extend p (u ∷ v) t =
    join-cons p u v t ∙ rw (join-extend u v t) (sym (append_assoc p (b'/' ∷ join (u ∷ v)) t))

-- The directories that a forger makes below `parent`, for the file `v` below the data path.
abbrev pub forged_path : Text → Text → Text → FilePath → FilePath
forged_path n size x v =
    (n ++ (str "\n- " ++ (size ++ str " "))) ∷ str "internal" ∷ extend v (str " " ++ x)

join-forged :
    (n size x p : Text) (v : FilePath)
    → join (forged_path n size x (p ∷ v))
      ≡ n ++ (str "\n- " ++ (size ++ (str " /internal/" ++ (join (p ∷ v) ++ (str " " ++ x)))))
unfolding join
join-forged n size x p v =
    ap (λ t. (n ++ (str "\n- " ++ (size ++ str " "))) ++ (b'/' ∷ t))
      (join-cons (str "internal") p v (str " " ++ x)
        ∙ ap (λ t. str "internal/" ++ t) (join-extend p v (str " " ++ x)))
    ∙ simp append_assoc

-- A file below a directory whose name holds a line break puts two lines into the manifest: for every path
-- below the data path whose characters need no quoting, in this miniverse or in another one, the
-- names of the directories on the way can be chosen such that the second line is the one that lists that
-- path, with any size and any name in the archive.
pub manifest_line_forged :
    (data_path parent : FilePath) (n own size x p : Text) (v : FilePath)
    → quote (join (p ∷ v)) ≡ join (p ∷ v)
    → manifest_line data_path
        (record { parent = parent; path = parent ++ forged_path n size x (p ∷ v); size = own })
      ≡ line_of own (quote (join (behind data_path (parent ++ forged_path n size x (p ∷ v))))) n
        ++ (b'\n' ∷ line_of size (quote (join (p ∷ v))) x)
unfolding manifest_line
manifest_line_forged data_path parent n own size x p v plain =
    rw (behind-append parent (forged_path n size x (p ∷ v)), join-forged n size x p v, plain)
      (simp append_assoc)
