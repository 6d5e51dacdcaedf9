-- ===== src/Accounts/Current.antt =====
-- What `retrieve_user_handler` yields and what it leaves in the table.
use miniverse_backend.Base.{
  ◌≡◌, refl, ◌≤◌, true, false, none, some, List, [], ◌∷◌, ◌++◌, Text, eq_iff, eq_refl, first,
  adjust, arith, Option-cases, inl, inr, Result, ok, err, ℕ, ◌+◌, count-append,
}
use miniverse_backend.Role
use miniverse_backend.Role.{Role}
use miniverse_backend.Models.{User, Tables}
use miniverse_backend.Accounts.Service.{has_id, is_taken, new_user, count_admins}
use miniverse_backend.Accounts.Auth.{Token, retrieve_user_handler}
use miniverse_backend.Accounts.Rows.{IsKeyed, count_admins-adjust_role}
use miniverse_backend.Accounts.Keys.{append-IsKeyed, renamed, renamed-IsKeyed}

-- The user is the row of the token's subject, active, and named as the token says.
pub record IsCurrent (token : Token) (us : List User) (u : User) : Type 0 where
  pub found : first (has_id token.sub) us ≡ some u
  pub own : u.id ≡ token.sub
  pub active : u.is_active ≡ true
  pub named : u.username ≡ token.preferred_username

-- What a lookup that began with the rows `us` has done: the keys stay unique, no administrator is
-- lost, and a returned user is the current one.
abbrev pub Retrieves : Token → List User → Result User × Tables → Type 0
Retrieves token us (ok u, t') =
    IsKeyed t'.users × (count_admins us ≤ count_admins t'.users) × IsCurrent token t'.users u
Retrieves token us (err _, t') = IsKeyed t'.users × (count_admins us ≤ count_admins t'.users)

id_of_first : (i : Text) (u : User) (us : List User) → first (has_id i) us ≡ some u → u.id ≡ i
id_of_first i u [] e = cc
id_of_first i u (v ∷ us) e = ground (arith, id_of_first i u us, eq_iff v.id i)

first-append :
    (i name : Text) (n : User) (us : List User)
    → is_taken i name us ≡ false
    → n.id ≡ i
    → first (has_id i) (us ++ n ∷ []) ≡ some n
first-append i name n [] h e = ground (arith, eq_iff n.id i)
first-append i name n (u ∷ us) h e = ground (arith, first-append i name n us)

first-renamed :
    (i name : Text) (u : User) (us : List User)
    → first (has_id i) us ≡ some u
    → first (has_id i) (adjust (has_id i) (renamed i name) us) ≡ some (renamed i name u)
first-renamed i name u [] e = cc
first-renamed i name u (v ∷ us) e = ground (arith, first-renamed i name u us)

le_of_add : (a b c : ℕ) → b ≡ a + c → a ≤ b
le_of_add a b c h = omega arith

count_admins-append-le : (us : List User) (n : User) → count_admins us ≤ count_admins (us ++ n ∷ [])
unfolding count_admins
count_admins-append-le us n =
    le_of_add _ _ _ (count-append (λ (u : User). Role.eq u.role Role.admin) us (n ∷ []))

-- `create_user` appends a row with a new key, or raises and leaves the table alone.
create-Retrieves :
    (token : Token) (t : Tables)
    → IsKeyed t.users
    → first (has_id token.sub) t.users ≡ none
    → Retrieves token t.users (retrieve_user_handler token t)
unfolding retrieve_user_handler
create-Retrieves token t k e =
    let n = new_user token.sub token.preferred_username t.users in
    ground (
      arith,
      append-IsKeyed n t.users k,
      count_admins-append-le t.users n,
      first-append token.sub token.preferred_username n t.users,
      eq_refl token.preferred_username,
    )

-- A known user is taken as it is, or gets the name that the token carries.
known-Retrieves :
    (token : Token) (t : Tables) (u : User)
    → IsKeyed t.users
    → first (has_id token.sub) t.users ≡ some u
    → Retrieves token t.users (retrieve_user_handler token t)
unfolding retrieve_user_handler
known-Retrieves token t u k e =
    let name = token.preferred_username in
    ground (
      arith,
      id_of_first token.sub u t.users e,
      eq_iff u.username name,
      renamed-IsKeyed token.sub name t.users k,
      first-renamed token.sub name u t.users e,
      count_admins-adjust_role token.sub (renamed token.sub name) t.users (λ v. refl),
    )

pub retrieve-Retrieves :
    (token : Token) (t : Tables)
    → IsKeyed t.users
    → Retrieves token t.users (retrieve_user_handler token t)
retrieve-Retrieves token t k = elim (Option-cases (first (has_id token.sub) t.users)) [
  | inl e ↦ create-Retrieves token t k e
  | inr (u, e) ↦ known-Retrieves token t u k e
]
