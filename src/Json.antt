-- ===== src/Json.antt =====
-- JSON values as `json.loads` gives them, and what Python does on them: `d[k]`, `d.get(k)`, and reading a
-- value at the type that the program expects. A value of another type is a `type_error` here, at the
-- place where it is read.
use miniverse_backend.Base.{
  ℕ, ◌≡◌, refl, Bool, Option, none, some, List, [], ◌∷◌, Text, ◌==◌, Result, ok, err, Error, arith,
  if◌then◌else◌,
}

mutual
  pub data Json : Type 0 where
    null : Json
    boolean : Bool → Json
    number : ℕ → Json
    text : Text → Json
    array : Items → Json
    object : Fields → Json

  pub data Items : Type 0 where
    nil : Items
    cons : Json → Items → Items

  pub data Fields : Type 0 where
    end : Fields
    field : Text → Json → Fields → Fields

infixl 5 ◌>>=◌
abbrev pub ◌>>=◌ : {A B : Type 0} → Result A → (A → Result B) → Result B
ok a >>= f = f a
err e >>= f = err e

abbrev pub look_up : Text → Fields → Result Json
look_up k end = err Error.key_error
look_up k (field j v fs) = let rest = look_up k fs in if j == k then ok v else rest

-- `d[k]`
abbrev pub field_at : Text → Json → Result Json
field_at k (object fs) = look_up k fs
field_at k _ = err Error.type_error

abbrev pub or_null : Result Json → Json
or_null (ok v) = v
or_null (err e) = null

-- `d.get(k)`
abbrev pub get_field : Text → Json → Json
get_field k d = or_null (field_at k d)

abbrev pub text_of : Json → Result Text
text_of (text t) = ok t
text_of _ = err Error.type_error

abbrev pub number_of : Json → Result ℕ
number_of (number n) = ok n
number_of _ = err Error.type_error

abbrev pub bool_of : Json → Result Bool
bool_of (boolean b) = ok b
bool_of _ = err Error.type_error

abbrev pub optional_text_of : Json → Result (Option Text)
optional_text_of null = ok none
optional_text_of (text t) = ok (some t)
optional_text_of _ = err Error.type_error

-- `[f(v) for v in values]`
unfoldable pub decode_all : {A : Type 0} → (Json → Result A) → Items → Result (List A)
decode_all f nil = ok []
decode_all f (cons v vs) = let rest = decode_all f vs in f v >>= λ a. rest >>= λ bs. ok (a ∷ bs)

unfoldable pub list_of : {A : Type 0} → (Json → Result A) → Json → Result (List A)
unfolding decode_all
list_of f (array vs) = decode_all f vs
list_of f _ = err Error.type_error

abbrev pub text_at : Text → Json → Result Text
text_at k d = field_at k d >>= text_of

abbrev pub number_at : Text → Json → Result ℕ
number_at k d = field_at k d >>= number_of

abbrev pub bool_at : Text → Json → Result Bool
bool_at k d = field_at k d >>= bool_of

abbrev pub optional_text : Text → Json → Result (Option Text)
optional_text k d = optional_text_of (get_field k d)

-- `d[k]`, which may be `null` and must be there
abbrev pub nullable_text_at : Text → Json → Result (Option Text)
nullable_text_at k d = field_at k d >>= optional_text_of

abbrev pub list_at : {A : Type 0} → (Json → Result A) → Text → Json → Result (List A)
list_at f k d = field_at k d >>= list_of f

-- `[f(v) for v in d.get(k, [])]`
abbrev pub list_or_empty : {A : Type 0} → (Json → Result A) → Text → Json → Result (List A)
list_or_empty f k d = elim (field_at k d) [ ok v ↦ list_of f v | err e ↦ ok [] ]

-- The other way: documents.
abbrev pub items_of : {A : Type 0} → (A → Json) → List A → Items
items_of f [] = nil
items_of f (a ∷ bs) = cons (f a) (items_of f bs)

abbrev pub array_of : {A : Type 0} → (A → Json) → List A → Json
array_of f bs = array (items_of f bs)

abbrev pub text_or_null : Option Text → Json
text_or_null none = null
text_or_null (some t) = text t

pub list_of-array_of :
    {A : Type 0} (read : Json → Result A) (print : A → Json) (bs : List A)
    → ((a : A) → read (print a) ≡ ok a)
    → list_of read (array_of print bs) ≡ ok bs
unfolding list_of
list_of-array_of read print [] h = refl
list_of-array_of read print (a ∷ bs) h = ground (arith, list_of-array_of read print bs h, h a)
