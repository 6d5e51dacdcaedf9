-- ===== src/Mods/Facets.antt =====
-- The query texts of app/services/mods_service.py: `dumps_values` and `build_facets`. `str` of a list
-- and `repr` of a text are Python's, for texts of printable characters, tabs and line ends.
use miniverse_backend.Base.{
  ℕ, Bool, Option, none, some, List, [], ◌∷◌, ◌++◌, Text, str, not, ◌&&◌, eqb, exists, map,
  if◌then◌else◌,
}
use miniverse_backend.Mods.Schema.{ModrinthSearchFacets}
use miniverse_backend.Mods.Decoding.{project_type_value, side_value}

abbrev pub is_quote : ℕ → Bool
is_quote c = eqb c b'\''

abbrev pub is_double : ℕ → Bool
is_double c = eqb c b'"'

abbrev pub is_backslash : ℕ → Bool
is_backslash c = eqb c b'\\'

-- One character within the quotes `q`.
unfoldable pub repr_char : ℕ → ℕ → Text
repr_char q c =
    if is_backslash c
    then b'\\' ∷ b'\\' ∷ []
    else if eqb c q
    then b'\\' ∷ q ∷ []
    else if eqb c 10
    then str "\\n"
    else if eqb c 13
    then str "\\r"
    else if eqb c 9
    then str "\\t"
    else c ∷ []

unfoldable pub repr_chars : ℕ → Text → Text
unfolding repr_char
repr_chars q [] = []
repr_chars q (c ∷ t) = repr_char q c ++ repr_chars q t

-- Python prefers `'`, and takes `"` for a text with a `'` and no `"`.
unfoldable pub quote_of : Text → ℕ
quote_of t = if exists is_quote t && not (exists is_double t) then b'"' else b'\''

unfoldable pub repr : Text → Text
unfolding repr_chars quote_of
repr t = quote_of t ∷ (repr_chars (quote_of t) t ++ quote_of t ∷ [])

abbrev joined : List Text → Text
joined [] = []
joined (t ∷ ts) = str ", " ++ (t ++ joined ts)

-- `", ".join(pieces)` in brackets
unfoldable pub bracketed : List Text → Text
bracketed [] = str "[]"
bracketed (t ∷ ts) = b'[' ∷ (t ++ (joined ts ++ str "]"))

-- `t.replace("'", '"').replace("\\", "")`
unfoldable pub requote : Text → Text
requote [] = []
requote (c ∷ t) =
    (if is_quote c then b'"' ∷ [] else if is_backslash c then [] else c ∷ []) ++ requote t

-- `dumps_values` of a list of texts
unfoldable pub dumps_values : List Text → Text
unfolding requote bracketed repr
dumps_values values = requote (bracketed (map repr values))

-- `dumps_values` of a list of lists of texts
unfoldable pub dumps_lists : List (List Text) → Text
unfolding requote bracketed repr
dumps_lists values = requote (bracketed (map (λ (v : List Text). bracketed (map repr v)) values))

unfoldable pub build_or_facets : Text → List Text → List Text
build_or_facets key values = map (λ (v : Text). key ++ (b':' ∷ v)) values

abbrev facet : {A : Type 0} → (A → List Text) → Option A → List (List Text)
facet f none = []
facet f (some a) = f a ∷ []

abbrev pub facet_lists : ModrinthSearchFacets → List (List Text)
facet_lists facets =
    facet (λ p. build_or_facets (str "project_type") (project_type_value p ∷ []))
      facets.project_type
    ++ (facet (build_or_facets (str "categories")) facets.categories
        ++ (facet (build_or_facets (str "versions")) facets.versions
            ++ (facet (λ s. build_or_facets (str "client_side") (side_value s ∷ []))
                  facets.client_side
                ++ facet (λ s. build_or_facets (str "server_side") (side_value s ∷ []))
                    facets.server_side)))

unfoldable pub build_facets : ModrinthSearchFacets → Text
unfolding dumps_lists build_or_facets
build_facets facets = dumps_lists (facet_lists facets)
