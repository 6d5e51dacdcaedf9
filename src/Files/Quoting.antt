-- ===== src/Files/Quoting.antt =====
-- `urllib.parse.quote(text, safe="/")`: percent-encoding of the UTF-8 bytes. A path holds no lone surrogate.
use miniverse_backend.Base.{
  Option, none, some, ℕ, ◌+◌, Bool, ◌&&◌, ◌||◌, List, [], ◌∷◌, ◌++◌, Text, ltb, leb, eqb,
  if◌then◌else◌,
}
use Prim.Native.Nat.{◌/◌, ◌%◌}

abbrev low_six : ℕ → ℕ
low_six n = 128 + n % 64

-- The bytes of one code point.
unfoldable pub utf8 : ℕ → List ℕ
utf8 c =
    if ltb c 128
    then c ∷ []
    else if ltb c 2048
    then (192 + c / 64) ∷ low_six c ∷ []
    else if ltb c 65536
    then (224 + c / 4096) ∷ low_six (c / 64) ∷ low_six c ∷ []
    else (240 + c / 262144) ∷ low_six (c / 4096) ∷ low_six (c / 64) ∷ low_six c ∷ []

-- A letter, a digit, one of `_.-~`, or the slash that is called safe.
abbrev pub is_safe : ℕ → Bool
is_safe b =
    (leb b'a' b && leb b b'z')
    || ((leb b'A' b && leb b b'Z')
        || ((leb b'0' b && leb b b'9')
            || (eqb b b'_' || (eqb b b'.' || (eqb b b'-' || (eqb b b'~' || eqb b b'/'))))))

abbrev pub hex_digit : ℕ → ℕ
hex_digit n = if ltb n 10 then b'0' + n else b'7' + n

abbrev pub quote_byte : ℕ → Text
quote_byte b = if is_safe b then b ∷ [] else b'%' ∷ hex_digit (b / 16) ∷ hex_digit (b % 16) ∷ []

unfoldable pub quote_bytes : List ℕ → Text
quote_bytes [] = []
quote_bytes (b ∷ bs) = quote_byte b ++ quote_bytes bs

unfoldable pub quote : Text → Text
unfolding utf8 quote_bytes
quote [] = []
quote (c ∷ t) = quote_bytes (utf8 c) ++ quote t

-- `t.encode("utf-8")`, which refuses surrogates
unfoldable pub encode : Text → Option (List ℕ)
unfolding utf8
encode [] = some []
encode (c ∷ t) =
    let rest = encode t in
    if leb 55296 c && leb c 57343
    then none
    else elim rest [ none ↦ none | some bytes ↦ some (utf8 c ++ bytes) ]
