-- ===== src/Accounts/Auth.antt =====
-- app/services/auth_service.py: from a verified token to the current user, and the role guards.
-- Keycloak and the check of the token's signature are outside: a token here is a verified one.
use miniverse_backend.Base.{
  not, ◌&&◌, Option, none, some, Text, ◌==◌, exists, adjust, Action, Error, ◌>>=◌, ◌>>◌, pure, gets,
  raise_if, modify, if◌then◌else◌,
}
use miniverse_backend.Models.{User, Tables, is_admin, is_moderator}
use miniverse_backend.Accounts.Service.{create_user, get_user, has_id}

-- The claims that the code reads: `token.sub` and `token.extras["preferred_username"]`.
pub record Token : Type 0 where
  pub sub : Text
  pub preferred_username : Text

abbrev get_or_create : Token → Option User → Action Tables User
get_or_create token none = create_user token.sub token.preferred_username
get_or_create token (some u) = pure u

-- `user.username = …` with its commit, which raises if another user has the name.
abbrev rename : User → Text → Action Tables User
rename u username = do
  users ← gets (λ t. t.users)
  raise_if (exists (λ v. not (has_id u.id v) && v.username == username) users) Error.integrity_error
  modify
      λ t. record t { users = adjust (has_id u.id) (λ v. record v { username = username }) t.users }
  pure (record u { username = username })

unfoldable pub retrieve_user_handler : Token → Action Tables User
unfolding create_user get_user
retrieve_user_handler token = do
  found ← get_user token.sub
  user ← get_or_create token found
  raise_if (not user.is_active) Error.permission_denied
  if user.username == token.preferred_username
      then pure user
      else rename user token.preferred_username

unfoldable pub admin_user_guard : User → Action Tables (Unit {0})
unfolding is_admin
admin_user_guard user = raise_if (not (is_admin user)) Error.not_authorized

unfoldable pub moderator_user_guard : User → Action Tables (Unit {0})
unfolding is_moderator
moderator_user_guard user = raise_if (not (is_moderator user)) Error.not_authorized
