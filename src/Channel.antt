-- ===== src/Channel.antt =====
-- The WebSockets of app/api/v1/websockets.py. `handle_miniverse_channel_message` says which of the published
-- events go to the socket of a user; `Initial` is the first event, `Session` the events of a session and
-- `Console` the console of a miniverse.
pub mod Delivery
pub mod Initial
pub mod Visible
pub mod Session
pub mod Console
pub mod SocketTests
pub mod Tests
use miniverse_backend.Base.{
  Bool, true, false, ◌&&◌, ◌||◌, not, Option, none, some, List, [], ◌∷◌, ◌++◌, Text, ◌==◌, exists,
  if◌then◌else◌,
}
use miniverse_backend.Role
use miniverse_backend.Role.{Role}
use miniverse_backend.Models.{MiniverseUserRole, get_miniverse_role}
use miniverse_backend.Events.{MiniverseEvent}

-- `WebsocketContext`, with the roles that were loaded with the user, and what was sent on the socket.
pub record Context : Type 0 where
  pub user_id : Text
  pub roles : List MiniverseUserRole
  pub sent : List MiniverseEvent

-- `get_miniverse_role` of an id that may be `None`.
abbrev pub role_for : List MiniverseUserRole → Option Text → Role
role_for roles none = Role.none
role_for roles (some miniverse_id) = get_miniverse_role roles miniverse_id

abbrev pub names_user : Text → Option (List Text) → Bool
names_user user_id none = false
names_user user_id (some ids) = exists (λ i. i == user_id) ids

abbrev pub is_for_all : Option Text → Bool
is_for_all none = true
is_for_all (some i) = false

-- `fresh` are the user's roles in the database, which a refresh loads.
unfoldable pub handle_miniverse_channel_message :
    List MiniverseUserRole → MiniverseEvent → Context → Context
unfolding Role.max Role.ge get_miniverse_role
handle_miniverse_channel_message fresh event ctx =
    let before = role_for ctx.roles event.miniverse_id in
    let updated = names_user ctx.user_id event.updated_user_ids in
    let roles = if updated then fresh else ctx.roles in
    let highest = if updated then Role.max before (role_for fresh event.miniverse_id) else before in
    record ctx {
      roles = roles;
      sent =
          if is_for_all event.miniverse_id || Role.ge highest (some Role.user)
          then ctx.sent ++ event ∷ []
          else ctx.sent;
    }
