-- ===== src/Version/Scan.antt =====
-- The pieces of the regular expressions of app/services/minecraft_service.py: each reads a prefix of
-- the text and returns the rest. `\d` is an ASCII digit. In every pattern a group of digits is
-- followed by something that is no digit, so a group takes a whole run of digits or the match fails.
use miniverse_backend.Base.{
  ℕ, ◌+◌, ◌-◌, ◌*◌, Bool, true, false, ◌&&◌, Option, none, some, [], ◌∷◌, Text, str, length, leb,
  eqb, if◌then◌else◌,
}

-- A chain of matches.
infixl 5 ◌>>=◌
abbrev pub ◌>>=◌ : {A B : Type 0} → Option A → (A → Option B) → Option B
none >>= f = none
some a >>= f = f a

abbrev pub or_else : {A : Type 0} → Option A → Option A → Option A
or_else none other = other
or_else (some a) other = some a

abbrev pub is_digit : ℕ → Bool
is_digit c = leb b'0' c && leb c b'9'

-- The longest run of digits, and the rest.
unfoldable pub span : Text → Text × Text
span [] = ([], [])
span (c ∷ cs) = let (run, rest) = span cs in if is_digit c then (c ∷ run, rest) else ([], c ∷ cs)

int_from : ℕ → Text → ℕ
int_from n [] = n
int_from n (c ∷ cs) = int_from (n * 10 + (c - b'0')) cs

-- `int(s)` of a text of digits
unfoldable pub int : Text → ℕ
unfolding int_from
int = int_from 0

-- How many digits a group takes: `\d{1,2}`, `\d{2}` and `\d+`.
abbrev pub one_or_two : ℕ → Bool
one_or_two n = leb 1 n && leb n 2

abbrev pub exactly_two : ℕ → Bool
exactly_two n = eqb n 2

abbrev pub one_or_more : ℕ → Bool
one_or_more n = leb 1 n

unfoldable pub digits : (ℕ → Bool) → Text → Option (Text × Text)
unfolding span
digits fits t = let (run, rest) = span t in if fits (length run) then some (run, rest) else none

-- A literal text.
unfoldable pub literal : Text → Text → Option Text
literal [] t = some t
literal (c ∷ cs) [] = none
literal (c ∷ cs) (d ∷ ds) = let rest = literal cs ds in if eqb c d then rest else none

-- `[a-z]`
unfoldable pub lower : Text → Option (ℕ × Text)
lower [] = none
lower (c ∷ cs) = if leb b'a' c && leb c b'z' then some (c, cs) else none

-- `(pre|rc)`
unfoldable pub pre_or_rc : Text → Option (Text × Text)
unfolding literal
pre_or_rc t =
    or_else (literal (str "pre") t >>= λ rest. some (str "pre", rest))
      (literal (str "rc") t >>= λ rest. some (str "rc", rest))

-- `$`: the end, or the newline that ends the text
unfoldable pub at_end : Text → Bool
at_end [] = true
at_end (c ∷ []) = eqb c 10
at_end (c ∷ d ∷ cs) = false

-- `match.group(0)` of a pattern from `^` to `$`: the text without the newline that ends it
unfoldable pub matched : Text → Text
matched [] = []
matched (c ∷ []) = if eqb c 10 then [] else c ∷ []
matched (c ∷ d ∷ cs) = c ∷ matched (d ∷ cs)
