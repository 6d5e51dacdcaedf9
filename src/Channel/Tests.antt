-- ===== src/Channel/Tests.antt =====
-- Events on the channel for one user.
use miniverse_backend.Base.{◌≡◌, refl, true, false, some, none, [], ◌∷◌, str, ◌==◌}
use miniverse_backend.Role.{Role, ge, role_value}
use miniverse_backend.Models.{MiniverseUserRole, get_miniverse_role}
use miniverse_backend.Events.{MiniverseEvent, miniverse_updated_event}
use miniverse_backend.Channel.{Context, names_user}
use miniverse_backend.Channel.Delivery.{is_member}

abbrev role_m : MiniverseUserRole
role_m = record { user_id = str "c"; miniverse_id = str "m"; role = Role.user }

abbrev carol : Context
carol = record { user_id = str "c"; roles = role_m ∷ []; sent = [] }

-- Carol loses her role, and then the miniverse is updated again.
abbrev revoking : MiniverseEvent
revoking = miniverse_updated_event (str "m") (some (str "c" ∷ []))

abbrev later : MiniverseEvent
later = miniverse_updated_event (str "m") none

member_before : is_member (role_m ∷ []) (some (str "m")) ≡ true
unfolding ge role_value get_miniverse_role ◌==◌
member_before = refl

member_after : is_member [] (some (str "m")) ≡ false
unfolding ge role_value get_miniverse_role ◌==◌
member_after = refl

named : names_user (str "c") revoking.updated_user_ids ≡ true
unfolding ◌==◌
named = refl
