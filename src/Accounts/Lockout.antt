-- ===== src/Accounts/Lockout.antt =====
-- How the last administrator who can sign in goes, and what is left then.
use miniverse_backend.Base.{
  ℕ, ◌+◌, ◌≤◌, ◌<◌, ◌≡◌, refl, ◌≢◌, Bool, true, false, ◌&&◌, none, some, List, [], ◌∷◌, ◌++◌, Text,
  eq_iff, Option-cases, inl, inr, ◌∙◌, first, adjust, count, arith, Result, ok, err, count-append,
}
use miniverse_backend.Role
use miniverse_backend.Role.{Role}
use miniverse_backend.Models.{User, Tables}
use miniverse_backend.Accounts.Service.{has_id, count_admins, new_user}
use miniverse_backend.Accounts.Auth.{Token, retrieve_user_handler}
use miniverse_backend.Accounts.Api.{
  Request, Response, no_content, get_me, delete_me, reject_user_request, handle, serve,
}
use miniverse_backend.Role.Order.{role_value_injective}
use miniverse_backend.Accounts.Current.{Retrieves, retrieve-Retrieves}
use miniverse_backend.Accounts.Admins.{resume, serve_resumes}
use miniverse_backend.Accounts.Rows.{IsKeyed, remove, remove-absent}

abbrev active_admin : User → Bool
active_admin u = u.is_active && Role.eq u.role Role.admin

-- Those who can use the administration: an inactive user is denied at sign-in.
abbrev pub active_admins : List User → ℕ
active_admins = count active_admin

active_admins-remove :
    (i : Text) (u : User) (us : List User)
    → IsKeyed us
    → first (has_id i) us ≡ some u
    → active_admin u ≡ true
    → active_admins (remove i us) + 1 ≡ active_admins us
active_admins-remove i u [] k e a = cc
active_admins-remove i u (v ∷ us) k e a =
    ground (arith, active_admins-remove i u us, remove-absent v.id v.username us, eq_iff v.id i)

-- `DELETE /api/users/me` counts inactive administrators as well: the only active administrator is
-- allowed to delete his account as soon as some other account has the role, approved or not.
delete_me_leaves_inactive :
    (u : User) (t : Tables)
    → IsKeyed t.users
    → first (has_id u.id) t.users ≡ some u
    → u.is_active ≡ true
    → u.role ≡ Role.admin
    → active_admins t.users ≡ 1
    → 1 < count_admins t.users
    → ((handle u delete_me t).0 ≡ ok no_content)
      × (active_admins (handle u delete_me t).1.users ≡ 0)
unfolding handle Role.eq
delete_me_leaves_inactive u t k own active role last more =
    ground (arith, active_admins-remove u.id u t.users k own)

-- `POST /api/users/inactive/reject/{user_id}` has no guard of its own: an administrator who names
-- himself, where ids and user names are unique, is answered with success, and there is one
-- active administrator less.
reject_own_account :
    (u : User) (t : Tables)
    → IsKeyed t.users
    → first (has_id u.id) t.users ≡ some u
    → u.is_active ≡ true
    → u.role ≡ Role.admin
    → ((handle u (reject_user_request u.id) t).0 ≡ ok no_content)
      × (active_admins (handle u (reject_user_request u.id) t).1.users + 1 ≡ active_admins t.users)
unfolding handle Role.eq
reject_own_account u t k own active role = ground (arith, active_admins-remove u.id u t.users k own)

not_active_admin :
    (i : Text) (u : User) (us : List User)
    → active_admins us ≡ 0
    → first (has_id i) us ≡ some u
    → active_admin u ≡ false
not_active_admin i u [] z e = cc
not_active_admin i u (v ∷ us) z e = ground (arith, not_active_admin i u us)

active_admins-renamed :
    (i name : Text) (us : List User)
    → active_admins (adjust (has_id i) (λ v. record v { username = name }) us) ≡ active_admins us
active_admins-renamed i name [] = refl
active_admins-renamed i name (u ∷ us) = ground (arith, active_admins-renamed i name us)

active_admins-remove-le :
    (i : Text) (us : List User) → active_admins (remove i us) ≤ active_admins us
active_admins-remove-le i [] = omega arith
active_admins-remove-le i (u ∷ us) = ground (arith, active_admins-remove-le i us)

active_admins-append_new :
    (i name : Text) (us : List User)
    → us ≢ []
    → active_admins (us ++ new_user i name us ∷ []) ≡ active_admins us
active_admins-append_new i name [] h = absurd (h refl)
active_admins-append_new i name (u ∷ us) h =
    omega (arith, count-append active_admin (u ∷ us) (new_user i name (u ∷ us) ∷ []))

module _ (token : Token) (t : Tables) (some_user : t.users ≢ []) where
  retrieve-active_admins_new :
      first (has_id token.sub) t.users ≡ none
      → active_admins (retrieve_user_handler token t).1.users ≡ active_admins t.users
  unfolding retrieve_user_handler
  retrieve-active_admins_new e =
      ground (arith, active_admins-append_new token.sub token.preferred_username t.users some_user)

  retrieve-active_admins_known :
      (u : User)
      → first (has_id token.sub) t.users ≡ some u
      → active_admins (retrieve_user_handler token t).1.users ≡ active_admins t.users
  unfolding retrieve_user_handler
  retrieve-active_admins_known u e =
      ground (arith, active_admins-renamed u.id token.preferred_username t.users)

  -- Sign-in makes no active administrator of an account, in a table that is not empty.
  retrieve-active_admins :
      active_admins (retrieve_user_handler token t).1.users ≡ active_admins t.users
  retrieve-active_admins = elim (Option-cases (first (has_id token.sub) t.users)) [
    | inl e ↦ retrieve-active_admins_new e
    | inr (u, e) ↦ retrieve-active_admins_known u e
  ]

-- The requests behind `admin_user_guard`.
abbrev pub is_guarded : Request → Bool
is_guarded get_me = false
is_guarded delete_me = false
is_guarded _ = true

abbrev pub is_answered : Result Response → Bool
is_answered (ok b) = true
is_answered (err e) = false

-- What a locked-out system answers, and that it stays so.
abbrev StaysLocked : Request → Result Response × Tables → Type 0
StaysLocked r (a, t) = (active_admins t.users ≡ 0) × ((is_guarded r && is_answered a) ≡ false)

module _ (u : User) (t : Tables) (locked : active_admins t.users ≡ 0)
    (mere : active_admin u ≡ false) (active : u.is_active ≡ true) where
  handle-StaysLocked : (r : Request) → StaysLocked r (handle u r t)
  unfolding handle Role.eq Role.ge
  handle-StaysLocked get_me = ground arith
  handle-StaysLocked delete_me = ground (arith, active_admins-remove-le u.id t.users)
  handle-StaysLocked _ = ground (arith, role_value_injective u.role Role.admin)

resume-StaysLocked :
    (token : Token) (r : Request) (us : List User) (found : Result User × Tables)
    → Retrieves token us found
    → active_admins found.1.users ≡ 0
    → StaysLocked r (resume r found)
resume-StaysLocked token r us (ok u, t) (k, more, c) z =
    handle-StaysLocked u t z (not_active_admin token.sub u t.users z c.found) c.active r
resume-StaysLocked token r us (err e, t) g z = ground arith

-- Where ids and user names are unique, and there are accounts but no active administrator: one request of
-- anybody leaves no active administrator, and does not succeed if it is behind the administrator's guard.
pub locked_out :
    (token : Token) (r : Request) (t : Tables)
    → IsKeyed t.users
    → t.users ≢ []
    → active_admins t.users ≡ 0
    → (active_admins (serve token r t).1.users ≡ 0)
      × ((is_guarded r && is_answered (serve token r t).0) ≡ false)
locked_out token r t k some_user z = rw serve_resumes (
    resume-StaysLocked token r t.users (retrieve_user_handler token t)
      (retrieve-Retrieves token t k) (retrieve-active_admins token t some_user ∙ z))
