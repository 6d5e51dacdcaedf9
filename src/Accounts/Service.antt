-- ===== src/Accounts/Service.antt =====
-- app/services/user_service.py, over the tables. Each function commits what it changes at its end;
-- a commit that breaks the primary key or the unique user name raises and is rolled back. The database compares
-- texts exactly, which is up to its collation: MySQL's default ignores case.
use miniverse_backend.Base.{
  ℕ, Bool, true, false, not, ◌||◌, Option, List, [], ◌∷◌, ◌++◌, Text, ◌==◌, keep, first, exists,
  count, adjust, Action, Error, ◌>>=◌, ◌>>◌, pure, gets, or_raise, raise_if, modify,
}
use miniverse_backend.Role
use miniverse_backend.Role.{Role}
use miniverse_backend.Models.{User, Tables}

abbrev pub has_id : Text → User → Bool
has_id user_id u = u.id == user_id

-- Is the id or the user name in use?
abbrev pub is_taken : Text → Text → List User → Bool
is_taken user_id username = exists (λ u. u.id == user_id || u.username == username)

-- The new row: the first user of all is an active administrator, any other one waits for approval.
abbrev pub new_user : Text → Text → List User → User
new_user userid username [] = record {
  id = userid;
  is_active = true;
  username = username;
  role = Role.admin;
}
new_user userid username (_ ∷ _) = record {
  id = userid;
  is_active = false;
  username = username;
  role = Role.user;
}

unfoldable pub create_user : Text → Text → Action Tables User
create_user userid username = do
  users ← gets (λ t. t.users)
  let db_user = new_user userid username users
  raise_if (is_taken userid username users) Error.integrity_error
  modify (λ t. record t { users = t.users ++ (db_user ∷ []) })
  pure db_user

unfoldable pub get_user : Text → Action Tables (Option User)
get_user user_id = gets (λ t. first (has_id user_id) t.users)

unfoldable pub get_users : Action Tables (List User)
get_users = gets (λ t. keep (λ u. u.is_active) t.users)

unfoldable pub count_admins : List User → ℕ
unfolding Role.eq
count_admins = count (λ u. Role.eq u.role Role.admin)

unfoldable pub get_user_by_username : Text → Action Tables (Option User)
get_user_by_username username = gets (λ t. first (λ u. u.username == username) t.users)

-- `DELETE FROM users WHERE id = …`: the foreign key of `miniverse_user_roles` cascades.
unfoldable pub delete_user : Text → Action Tables (Unit {0})
delete_user user_id = modify λ t. record t {
  users = keep (λ u. not (has_id user_id u)) t.users;
  users_roles = keep (λ r. not (r.user_id == user_id)) t.users_roles;
}

-- `user = await get_user(user_id, db)`, an attribute of `user` written, and a commit: a missing user
-- is `None`, which has no attributes.
abbrev write_user : Text → (User → User) → Action Tables (Unit {0})
write_user user_id f = do
  found ← get_user user_id
  _ ← or_raise found Error.attribute_error
  modify (λ t. record t { users = adjust (has_id user_id) f t.users })

unfoldable pub set_user_role : Text → Role → Action Tables (Unit {0})
unfolding get_user
set_user_role user_id role = write_user user_id (λ u. record u { role = role })

unfoldable pub get_inactive_users : Action Tables (List User)
get_inactive_users = gets (λ t. keep (λ u. not u.is_active) t.users)

unfoldable pub accept_user_request : Text → Action Tables (Unit {0})
unfolding get_user
accept_user_request user_id = write_user user_id (λ u. record u { is_active = true })

unfoldable pub reject_user_request : Text → Action Tables (Unit {0})
unfolding delete_user
reject_user_request user_id = delete_user user_id
