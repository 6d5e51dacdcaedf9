-- ===== src/Accounts/Api.antt =====
-- app/api/v1/users.py: the handlers of `SelfUserController` and, behind `admin_user_guard`, those of
-- `UsersController`. A request runs `retrieve_user_handler`, the guards and the handler.
use miniverse_backend.Base.{
  ◌&&◌, Option, List, Text, ◌==◌, leb, Action, Error, ◌>>=◌, ◌>>◌, pure, gets, raise_if,
}
use miniverse_backend.Role
use miniverse_backend.Role.{Role}
use miniverse_backend.Models.{User, Tables}
use miniverse_backend.Accounts.Service
use miniverse_backend.Accounts.Service.{count_admins, create_user}
use miniverse_backend.Accounts.Auth.{Token, retrieve_user_handler, admin_user_guard}

pub data Request : Type 0 where
  get_me delete_me list_users list_inactive_users : Request
  get_user delete_user accept_user_request reject_user_request : Text → Request
  set_user_role : Text → Role → Request

pub data Response : Type 0 where
  no_content : Response
  one_user : Option User → Response
  user_list : List User → Response

abbrev done : Action Tables (Unit {0}) → Action Tables Response
done m = m >> pure no_content

module _ (current_user : User) where
  unfoldable pub delete_me_handler : Action Tables Response
  unfolding Role.eq count_admins Service.delete_user
  delete_me_handler = do
    admins ← gets (λ t. count_admins t.users)
    raise_if (Role.eq current_user.role Role.admin && leb admins 1) Error.permission_denied
    done (Service.delete_user current_user.id)

  unfoldable pub delete_user_handler : Text → Action Tables Response
  unfolding Service.delete_user
  delete_user_handler user_id = do
    raise_if (current_user.id == user_id) Error.permission_denied
    done (Service.delete_user user_id)

  unfoldable pub set_user_role_handler : Text → Role → Action Tables Response
  unfolding count_admins Service.set_user_role
  set_user_role_handler user_id role = do
    admins ← gets (λ t. count_admins t.users)
    raise_if (current_user.id == user_id && leb admins 1) Error.permission_denied
    done (Service.set_user_role user_id role)

  unfoldable pub handle : Request → Action Tables Response
  unfolding delete_me_handler delete_user_handler set_user_role_handler admin_user_guard
      Service.get_users Service.get_inactive_users Service.get_user Service.accept_user_request
      Service.reject_user_request
  handle get_me = pure (one_user (Option.some current_user))
  handle delete_me = delete_me_handler
  handle list_users = do
    admin_user_guard current_user
    users ← Service.get_users
    pure (user_list users)
  handle (get_user user_id) = do
    admin_user_guard current_user
    user ← Service.get_user user_id
    pure (one_user user)
  handle (delete_user user_id) = do admin_user_guard current_user; delete_user_handler user_id
  handle (set_user_role user_id role) = do
    admin_user_guard current_user
    set_user_role_handler user_id role
  handle list_inactive_users = do
    admin_user_guard current_user
    users ← Service.get_inactive_users
    pure (user_list users)
  handle (accept_user_request user_id) = do
    admin_user_guard current_user
    done (Service.accept_user_request user_id)
  handle (reject_user_request user_id) = do
    admin_user_guard current_user
    done (Service.reject_user_request user_id)

-- The whole request.
unfoldable pub serve : Token → Request → Action Tables Response
serve token request = do current_user ← retrieve_user_handler token; handle current_user request
