-- ===== src/Miniverses/Uuid.antt =====
-- `UUID4_REGEX` of app/api/v1/miniverses.py, as matched by `re.match` with `re.IGNORECASE`.
use miniverse_backend.Base.{ℕ, Bool, true, false, ◌&&◌, ◌||◌, List, [], ◌∷◌, ◌++◌, Text, leb, eqb}

pub data CharClass : Type 0 where
  hex : CharClass
  variant : CharClass
  exactly : ℕ → CharClass

-- `[0-9a-f]`, `[89ab]` and a literal, whatever the case.
abbrev pub accepts : CharClass → ℕ → Bool
accepts hex c =
    (leb b'0' c && leb c b'9') || ((leb b'a' c && leb c b'f') || (leb b'A' c && leb c b'F'))
accepts variant c =
    (eqb c b'8' || eqb c b'9') || ((eqb c b'a' || eqb c b'b') || (eqb c b'A' || eqb c b'B'))
accepts (exactly d) c = eqb c d

abbrev pub four_hex : List CharClass
four_hex = hex ∷ hex ∷ hex ∷ hex ∷ []

abbrev pub three_hex : List CharClass
three_hex = hex ∷ hex ∷ hex ∷ []

abbrev pub dash : List CharClass
dash = exactly b'-' ∷ []

abbrev pub uuid4_classes : List CharClass
uuid4_classes =
    four_hex
    ++ four_hex
    ++ dash
    ++ four_hex
    ++ dash
    ++ (exactly b'4' ∷ three_hex)
    ++ dash
    ++ (variant ∷ three_hex)
    ++ dash
    ++ four_hex
    ++ four_hex
    ++ four_hex

-- The classes one by one; `$` also matches before a line feed that ends the text.
abbrev pub matches : List CharClass → Text → Bool
matches [] [] = true
matches [] (c ∷ []) = eqb c 10
matches [] (c ∷ d ∷ s) = false
matches (p ∷ ps) [] = false
matches (p ∷ ps) (c ∷ s) = accepts p c && matches ps s

unfoldable pub is_uuid4 : Text → Bool
is_uuid4 user_id_or_name = matches uuid4_classes user_id_or_name
