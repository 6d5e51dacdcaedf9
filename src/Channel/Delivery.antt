-- ===== src/Channel/Delivery.antt =====
-- Who is told of what on the channel.
use miniverse_backend.Base.{
  ◌≡◌, Bool, true, false, ◌&&◌, ◌||◌, Option, some, List, [], ◌∷◌, ◌++◌, Text, if◌then◌else◌, arith,
}
use miniverse_backend.Role
use miniverse_backend.Role.{Role, ge}
use miniverse_backend.Models.{MiniverseUserRole}
use miniverse_backend.Events.{MiniverseEvent}
use miniverse_backend.Channel.{
  Context, role_for, names_user, is_for_all, handle_miniverse_channel_message,
}

abbrev pub is_member : List MiniverseUserRole → Option Text → Bool
is_member roles i = ge (role_for roles i) (some Role.user)

-- Is the event the user's business: is it about no miniverse, had the user a role before, or does the
-- event name the user and give the database the user a role now?
abbrev pub concerns : List MiniverseUserRole → MiniverseEvent → Context → Bool
concerns fresh e ctx =
    is_for_all e.miniverse_id
    || (is_member ctx.roles e.miniverse_id
        || (names_user ctx.user_id e.updated_user_ids && is_member fresh e.miniverse_id))

-- An event is sent exactly if it is about no miniverse, or the user had a role in the miniverse so far,
-- or the event names the user and the database gives the user a role there now; it is sent once and last.
pub handle_miniverse_channel_message_sends :
    (fresh : List MiniverseUserRole) (e : MiniverseEvent) (ctx : Context)
    → (handle_miniverse_channel_message fresh e ctx).sent
      ≡ (if concerns fresh e ctx then ctx.sent ++ e ∷ [] else ctx.sent)
unfolding handle_miniverse_channel_message Role.max Role.gt ge
handle_miniverse_channel_message_sends fresh e ctx = ground arith

-- A member who loses his role in a miniverse is told by the event that names him, and gets no later
-- event of that miniverse that does not name him.
handle_miniverse_channel_message_revoked :
    (fresh later : List MiniverseUserRole) (i : Text) (e f : MiniverseEvent) (ctx : Context)
    → e.miniverse_id ≡ some i
    → f.miniverse_id ≡ some i
    → is_member ctx.roles (some i) ≡ true
    → is_member fresh (some i) ≡ false
    → names_user ctx.user_id e.updated_user_ids ≡ true
    → names_user ctx.user_id f.updated_user_ids ≡ false
    → (handle_miniverse_channel_message later f (handle_miniverse_channel_message fresh e ctx)).sent
      ≡ ctx.sent ++ e ∷ []
unfolding handle_miniverse_channel_message Role.max Role.gt ge
handle_miniverse_channel_message_revoked fresh later i e f ctx ei fi m n u v = ground arith
