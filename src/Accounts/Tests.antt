-- ===== src/Accounts/Tests.antt =====
-- Accounts on a small table: an administrator, an unapproved administrator and a user.
use miniverse_backend.Base.{
  ◌<◌, ◌≡◌, refl, ◌≢◌, true, false, ◌&&◌, some, [], ◌∷◌, str, ◌==◌, arith, first,
}
use miniverse_backend.Role
use miniverse_backend.Role.{Role}
use miniverse_backend.Models.{User, Tables}
use miniverse_backend.Accounts.Service.{count_admins, has_id}
use miniverse_backend.Accounts.Auth.{Token}
use miniverse_backend.Accounts.Api.{delete_user, accept_user_request, reject_user_request, serve}
use miniverse_backend.Accounts.Rows.{IsKeyed}
use miniverse_backend.Accounts.Admins.{serve_keeps_admin}
use miniverse_backend.Accounts.Lockout.{active_admins, is_guarded, is_answered, locked_out}

abbrev alice : User
alice = record { id = str "a"; is_active = true; username = str "alice"; role = Role.admin }

abbrev bob : User
bob = record { id = str "b"; is_active = false; username = str "bob"; role = Role.admin }

abbrev carol : User
carol = record { id = str "c"; is_active = true; username = str "carol"; role = Role.user }

abbrev three_users : Tables
three_users = record {
  users = alice ∷ bob ∷ carol ∷ [];
  users_roles = [];
  miniverses = [];
  mods = [];
}

-- The administrator is gone.
abbrev two_users : Tables
two_users = record { users = bob ∷ carol ∷ []; users_roles = []; miniverses = []; mods = [] }

abbrev carols_token : Token
carols_token = record { sub = str "c"; preferred_username = str "carol" }

abbrev alices_token : Token
alices_token = record { sub = str "a"; preferred_username = str "alice" }

three_users-IsKeyed : IsKeyed three_users.users
unfolding ◌==◌
three_users-IsKeyed = (refl, (refl, (refl, tt)))

two_users-IsKeyed : IsKeyed two_users.users
unfolding ◌==◌
two_users-IsKeyed = (refl, (refl, tt))

two_admins : count_admins three_users.users ≡ 2
unfolding count_admins Role.eq Role.role_value
two_admins = refl

one_active : active_admins three_users.users ≡ 1
unfolding Role.eq Role.role_value
one_active = refl

none_active : active_admins two_users.users ≡ 0
unfolding Role.eq Role.role_value
none_active = refl

own_row : first (has_id (str "a")) three_users.users ≡ some alice
unfolding ◌==◌
own_row = refl

not_own_rejection : delete_user (str "a") ≢ reject_user_request (str "a")
not_own_rejection = ground arith

some_user : two_users.users ≢ []
some_user = ground arith

serve_keeps_admin_example :
    0 < count_admins (serve alices_token (delete_user (str "a")) three_users).1.users
serve_keeps_admin_example =
    serve_keeps_admin alices_token (delete_user (str "a")) three_users three_users-IsKeyed
      (omega (arith, two_admins)) not_own_rejection

locked_out_example :
    (active_admins (serve carols_token (accept_user_request (str "b")) two_users).1.users ≡ 0)
    × ((is_guarded (accept_user_request (str "b"))
          && is_answered (serve carols_token (accept_user_request (str "b")) two_users).0)
        ≡ false)
locked_out_example =
    locked_out carols_token (accept_user_request (str "b")) two_users two_users-IsKeyed some_user
      none_active
