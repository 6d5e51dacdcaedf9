-- ===== src/Miniverses/Api.antt =====
-- app/api/v1/miniverses.py: the handlers of `MiniversesController` that list, create, delete, start,
-- stop and restart miniverses, manage their users and act on their players. A handler runs with the
-- current user and the roles that were loaded with it.
use miniverse_backend.Base.{
  true, false, Bool, not, ◌&&◌, Option, none, some, List, [], ◌∷◌, ◌++◌, Text, ◌==◌, keep, first,
  adjust, Error, Action, ◌>>=◌, ◌>>◌, pure, gets, or_raise, raise_if, modify, if◌then◌else◌,
}
use miniverse_backend.Role
use miniverse_backend.Role.{Role}
use miniverse_backend.Models.{Miniverse, MiniverseUserRole, User, get_miniverse_role}
use miniverse_backend.Settings.{Settings}
use miniverse_backend.Events.{miniverse_updated_event}
use miniverse_backend.Miniverses.World.{Host, World, call, commit, publish, row}
use miniverse_backend.Miniverses.Lifecycle
use miniverse_backend.Miniverses.Lifecycle.{MiniverseCreate, roles_of}
use miniverse_backend.Miniverses.Uuid.{is_uuid4}

-- The routes. `create_miniverse` carries the id and the secret that the service draws.
pub data MiniverseRequest : Type 0 where
  list_miniverses list_all_players list_all_banned_players : MiniverseRequest
  create_miniverse : Text → Text → MiniverseCreate → MiniverseRequest
  delete_miniverse start_miniverse stop_miniverse restart_miniverse : Text → MiniverseRequest
  list_miniverse_users : Text → MiniverseRequest
  set_user_role : Text → Text → Role → MiniverseRequest
  set_operator : Text → Text → Bool → MiniverseRequest
  kick_player ban_player : Text → Text → Text → MiniverseRequest
  unban_player : Text → Text → MiniverseRequest

pub data Reply : Type 0 where
  nothing : Reply
  one_miniverse : Text → Reply
  miniverse_list : List Miniverse → Reply
  user_list : List User → Reply
  players_by_miniverse : List (Text × List (Text × Text)) → Reply

abbrev pub is_member : Text → Text → MiniverseUserRole → Bool
is_member user_id miniverse_id r = r.user_id == user_id && r.miniverse_id == miniverse_id

-- The rows after `set_user_role`, by the row `mur` that was found and the role asked for.
abbrev pub write_role :
    Text → Text → Role → Option MiniverseUserRole → List MiniverseUserRole → List MiniverseUserRole
write_role user_id miniverse_id Role.none none rs = rs
write_role user_id miniverse_id role none rs =
    rs ++ record { user_id = user_id; miniverse_id = miniverse_id; role = role } ∷ []
write_role user_id miniverse_id Role.none (some mur) rs =
    keep (λ r. not (is_member user_id miniverse_id r)) rs
write_role user_id miniverse_id role (some mur) rs =
    adjust (is_member user_id miniverse_id) (λ r. record r { role = role }) rs

-- The user by id or by name, as the text looks.
unfoldable pub find_user : Text → List User → Option User
unfolding is_uuid4
find_user user_id_or_name users =
    if is_uuid4 user_id_or_name
    then first (λ u. u.id == user_id_or_name) users
    else first (λ u. u.username == user_id_or_name) users

-- The users of the role rows, in their order, with the global role hidden.
abbrev hidden_users : List MiniverseUserRole → List User → List User
hidden_users [] users = []
hidden_users (r ∷ rs) users = elim (first (λ u. u.id == r.user_id) users) [
  | none ↦ hidden_users rs users
  | some u ↦ record u { role = Role.none } ∷ hidden_users rs users
]

module _ (h : Host) (settings : Settings) (current_user : User)
    (roles : List MiniverseUserRole) where
  -- `if current_user.get_miniverse_role(miniverse_id) < role: raise NotAuthorizedException(…)`
  unfoldable pub require : Text → Role → Action (World h) (Unit {0})
  unfolding get_miniverse_role Role.lt
  require miniverse_id role =
      raise_if (Role.lt (get_miniverse_role roles miniverse_id) (some role)) Error.not_authorized

  -- `get_miniverse`, and a 404 if there is none.
  abbrev known : Text → Action (World h) Miniverse
  known miniverse_id = do
    found ← gets (λ w. row miniverse_id w.session)
    or_raise found Error.not_found

  unfoldable pub set_user_role_handler : Text → Text → Role → Action (World h) Reply
  unfolding find_user
  set_user_role_handler miniverse_id user_id_or_name role = do
    found ← gets (λ w. find_user user_id_or_name w.session.users)
    user ← or_raise found Error.not_found
    mur ← gets (λ w. first (is_member user.id miniverse_id) w.session.users_roles)
    modify λ w. record w {
      session = record (w.session) {
        users_roles = write_role user.id miniverse_id role mur w.session.users_roles;
      };
    }
    commit
    publish (miniverse_updated_event miniverse_id (some (user.id ∷ [])))
    pure nothing

  -- A call of the controller of the miniverse, which answers whether it succeeded.
  abbrev on_controller : Text → Action (World h) Bool → Action (World h) Reply
  on_controller miniverse_id act = do
    found ← gets (λ w. row miniverse_id w.session)
    _ ← or_raise found Error.attribute_error
    result ← act
    raise_if (not result) Error.not_found
    pure nothing

  -- The miniverses that the current user has a role in.
  unfoldable pub visible : List Miniverse → List Miniverse
  unfolding get_miniverse_role Role.ge
  visible = keep (λ m. Role.ge (get_miniverse_role roles m.id) (some Role.user))

  abbrev players_of :
      (Text → Action h.State (List (Text × Text)))
      → Miniverse
      → Bool
      → Action (World h) (List (Text × Text))
  players_of get_list m false = pure []
  players_of get_list m true = do
    has ← gets (λ w. h.has_controller m.id w.outside)
    raise_if (not has) Error.attribute_error
    call (get_list m.id)

  -- The loop of `list_all_players` and of `list_all_banned_players`.
  unfoldable pub collect :
      (Text → Action h.State (List (Text × Text)))
      → List Miniverse
      → Action (World h) (List (Text × List (Text × Text)))
  collect get_list [] = pure []
  collect get_list (m ∷ ms) = do
    players ← players_of get_list m m.started
    rest ← collect get_list ms
    pure ((m.id, players) ∷ rest)

  unfoldable pub handle_miniverse : MiniverseRequest → Action (World h) Reply
  unfolding require visible collect Role.lt
  handle_miniverse list_all_players = do
    miniverses ← gets (λ w. w.session.miniverses)
    result ← collect h.get_player_list (visible miniverses)
    pure (players_by_miniverse result)
  handle_miniverse list_all_banned_players = do
    miniverses ← gets (λ w. w.session.miniverses)
    result ← collect h.get_banned_player_list (visible miniverses)
    pure (players_by_miniverse result)
  handle_miniverse list_miniverses = do
    miniverses ← gets (λ w. w.session.miniverses)
    pure (miniverse_list (visible miniverses))
  handle_miniverse (create_miniverse new_id secret data_in) = do
    raise_if (Role.lt current_user.role (some Role.moderator)) Error.not_authorized
    i ← Lifecycle.create_miniverse h settings new_id secret data_in current_user
    pure (one_miniverse i)
  handle_miniverse (delete_miniverse miniverse_id) = do
    require miniverse_id Role.admin
    Lifecycle.delete_miniverse h settings miniverse_id
    pure nothing
  handle_miniverse (start_miniverse miniverse_id) = do
    require miniverse_id Role.user
    _ ← known miniverse_id
    _ ← Lifecycle.start_miniverse h settings miniverse_id
    pure (one_miniverse miniverse_id)
  handle_miniverse (stop_miniverse miniverse_id) = do
    require miniverse_id Role.user
    _ ← known miniverse_id
    Lifecycle.stop_miniverse h settings miniverse_id
    pure (one_miniverse miniverse_id)
  handle_miniverse (restart_miniverse miniverse_id) = do
    require miniverse_id Role.user
    _ ← known miniverse_id
    _ ← Lifecycle.restart_miniverse h settings miniverse_id
    pure (one_miniverse miniverse_id)
  handle_miniverse (list_miniverse_users miniverse_id) = do
    require miniverse_id Role.moderator
    found ← gets (λ w. row miniverse_id w.session)
    _ ← or_raise found Error.attribute_error
    users ← gets (λ w. hidden_users (roles_of miniverse_id w.session) w.session.users)
    pure (user_list users)
  handle_miniverse (set_user_role miniverse_id user_id_or_name role) = do
    require miniverse_id Role.admin
    set_user_role_handler miniverse_id user_id_or_name role
  handle_miniverse (set_operator miniverse_id player_id value) = do
    require miniverse_id Role.moderator
    on_controller miniverse_id
        (Lifecycle.miniverse_set_player_operator h settings miniverse_id player_id value)
  handle_miniverse (kick_player miniverse_id player_id reason) = do
    require miniverse_id Role.moderator
    on_controller miniverse_id
        (Lifecycle.miniverse_kick_player h settings miniverse_id player_id reason)
  handle_miniverse (ban_player miniverse_id player_id reason) = do
    require miniverse_id Role.moderator
    on_controller miniverse_id
        (Lifecycle.miniverse_ban_player h settings miniverse_id player_id reason)
  handle_miniverse (unban_player miniverse_id player_id) = do
    require miniverse_id Role.moderator
    on_controller miniverse_id (Lifecycle.miniverse_unban_player h settings miniverse_id player_id)
