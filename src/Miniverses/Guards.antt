-- ===== src/Miniverses/Guards.antt =====
-- Who may ask what of a miniverse, and what a change of role leaves.
use miniverse_backend.Base.{
  ◌≡◌, refl, true, false, not, ◌&&◌, Option, none, some, List, [], ◌∷◌, ◌++◌, Text, ◌==◌, eq_iff,
  eq_refl, keep, first, adjust, ok, err, Error, arith, ltb,
}
use miniverse_backend.Role
use miniverse_backend.Role.{Role, role_value}
use miniverse_backend.Models.{MiniverseUserRole, User, get_miniverse_role}
use miniverse_backend.Settings.{Settings}
use miniverse_backend.Miniverses.World.{Host, World}
use miniverse_backend.Miniverses.Api.{
  MiniverseRequest, list_miniverses, list_all_players, list_all_banned_players, create_miniverse,
  delete_miniverse, start_miniverse, stop_miniverse, restart_miniverse, list_miniverse_users,
  set_user_role, set_operator, kick_player, ban_player, unban_player, handle_miniverse, is_member,
  write_role, require, find_user, set_user_role_handler, nothing,
}

-- The rank that a request asks for, globally or in the miniverse that it names.
abbrev pub required : User → List MiniverseUserRole → MiniverseRequest → Role × Role
required u roles list_miniverses = (Role.none, Role.none)
required u roles list_all_players = (Role.none, Role.none)
required u roles list_all_banned_players = (Role.none, Role.none)
required u roles (create_miniverse _ _ _) = (u.role, Role.moderator)
required u roles (delete_miniverse i) = (get_miniverse_role roles i, Role.admin)
required u roles (start_miniverse i) = (get_miniverse_role roles i, Role.user)
required u roles (stop_miniverse i) = (get_miniverse_role roles i, Role.user)
required u roles (restart_miniverse i) = (get_miniverse_role roles i, Role.user)
required u roles (list_miniverse_users i) = (get_miniverse_role roles i, Role.moderator)
required u roles (set_user_role i _ _) = (get_miniverse_role roles i, Role.admin)
required u roles (set_operator i _ _) = (get_miniverse_role roles i, Role.moderator)
required u roles (kick_player i _ _) = (get_miniverse_role roles i, Role.moderator)
required u roles (ban_player i _ _) = (get_miniverse_role roles i, Role.moderator)
required u roles (unban_player i _) = (get_miniverse_role roles i, Role.moderator)

module _ (h : Host) (settings : Settings) (u : User) (roles : List MiniverseUserRole) where
  -- A request whose caller ranks below what its route asks for is refused with "not authorized", and
  -- the database, the events and everything outside stay as they are.
  pub handle_miniverse_refuses :
      (r : MiniverseRequest) (w : World h)
      → ltb (role_value (required u roles r).0) (role_value (required u roles r).1) ≡ true
      → handle_miniverse h settings u roles r w ≡ (err Error.not_authorized, w)
  unfolding handle_miniverse require Role.lt
  handle_miniverse_refuses list_miniverses w e = cc
  handle_miniverse_refuses list_all_players w e = cc
  handle_miniverse_refuses list_all_banned_players w e = cc
  handle_miniverse_refuses (create_miniverse _ _ _) w e = ground arith
  handle_miniverse_refuses (delete_miniverse _) w e = ground arith
  handle_miniverse_refuses (start_miniverse _) w e = ground arith
  handle_miniverse_refuses (stop_miniverse _) w e = ground arith
  handle_miniverse_refuses (restart_miniverse _) w e = ground arith
  handle_miniverse_refuses (list_miniverse_users _) w e = ground arith
  handle_miniverse_refuses (set_user_role _ _ _) w e = ground arith
  handle_miniverse_refuses (set_operator _ _ _) w e = ground arith
  handle_miniverse_refuses (kick_player _ _ _) w e = ground arith
  handle_miniverse_refuses (ban_player _ _ _) w e = ground arith
  handle_miniverse_refuses (unban_player _ _) w e = ground arith

-- The role of a user in a miniverse, as `get_miniverse_role` reads it from the user's rows.
abbrev pub role_in : Text → Text → List MiniverseUserRole → Role
role_in user_id miniverse_id rs =
    get_miniverse_role (keep (λ r. r.user_id == user_id) rs) miniverse_id

abbrev found_in : Text → Text → List MiniverseUserRole → Option MiniverseUserRole
found_in user_id miniverse_id rs = first (is_member user_id miniverse_id) rs

role_in-append :
    (u i : Text) (role : Role) (rs : List MiniverseUserRole)
    → found_in u i rs ≡ none
    → role_in u i (rs ++ record { user_id = u; miniverse_id = i; role = role } ∷ []) ≡ role
unfolding get_miniverse_role
role_in-append u i role [] e = ground (arith, eq_refl u, eq_refl i)
role_in-append u i role (r ∷ rs) e = ground (arith, role_in-append u i role rs)

role_in-absent :
    (u i : Text) (rs : List MiniverseUserRole) → found_in u i rs ≡ none → role_in u i rs ≡ Role.none
unfolding get_miniverse_role
role_in-absent u i [] e = refl
role_in-absent u i (r ∷ rs) e = ground (arith, role_in-absent u i rs)

role_in-adjust :
    (u i : Text) (role : Role) (m : MiniverseUserRole) (rs : List MiniverseUserRole)
    → found_in u i rs ≡ some m
    → role_in u i (adjust (is_member u i) (λ r. record r { role = role }) rs) ≡ role
unfolding get_miniverse_role
role_in-adjust u i role m [] e = cc
role_in-adjust u i role m (r ∷ rs) e = ground (arith, role_in-adjust u i role m rs)

role_in-removed :
    (u i : Text) (rs : List MiniverseUserRole)
    → role_in u i (keep (λ r. not (is_member u i r)) rs) ≡ Role.none
unfolding get_miniverse_role
role_in-removed u i [] = refl
role_in-removed u i (r ∷ rs) = ground (arith, role_in-removed u i rs)

write_role_granted :
    (u i : Text) (role : Role) (found : Option MiniverseUserRole) (rs : List MiniverseUserRole)
    → found_in u i rs ≡ found
    → role_in u i (write_role u i role found rs) ≡ role
write_role_granted u i Role.none none rs e = role_in-absent u i rs e
write_role_granted u i Role.user none rs e = role_in-append u i Role.user rs e
write_role_granted u i Role.moderator none rs e = role_in-append u i Role.moderator rs e
write_role_granted u i Role.admin none rs e = role_in-append u i Role.admin rs e
write_role_granted u i Role.none (some m) rs e = role_in-removed u i rs
write_role_granted u i Role.user (some m) rs e = role_in-adjust u i Role.user m rs e
write_role_granted u i Role.moderator (some m) rs e = role_in-adjust u i Role.moderator m rs e
write_role_granted u i Role.admin (some m) rs e = role_in-adjust u i Role.admin m rs e

-- Another user, or another miniverse.
abbrev pub IsOther : Text → Text → Text → Text → Type 0
IsOther u i v j = (u == v && i == j) ≡ false

others-append :
    (u i v j : Text) (role : Role) (rs : List MiniverseUserRole)
    → IsOther u i v j
    → role_in v j (rs ++ record { user_id = u; miniverse_id = i; role = role } ∷ [])
      ≡ role_in v j rs
unfolding get_miniverse_role
others-append u i v j role [] o = ground arith
others-append u i v j role (r ∷ rs) o = ground (arith, others-append u i v j role rs o)

others-adjust :
    (u i v j : Text) (role : Role) (rs : List MiniverseUserRole)
    → IsOther u i v j
    → role_in v j (adjust (is_member u i) (λ r. record r { role = role }) rs) ≡ role_in v j rs
unfolding get_miniverse_role
others-adjust u i v j role [] o = refl
others-adjust u i v j role (r ∷ rs) o = ground (
  arith,
  others-adjust u i v j role rs o,
  eq_iff r.user_id u,
  eq_iff r.miniverse_id i,
  eq_iff r.user_id v,
  eq_iff r.miniverse_id j,
  eq_iff u v,
  eq_iff i j,
)

others-removed :
    (u i v j : Text) (rs : List MiniverseUserRole)
    → IsOther u i v j
    → role_in v j (keep (λ r. not (is_member u i r)) rs) ≡ role_in v j rs
unfolding get_miniverse_role
others-removed u i v j [] o = refl
others-removed u i v j (r ∷ rs) o = ground (
  arith,
  others-removed u i v j rs o,
  eq_iff r.user_id u,
  eq_iff r.miniverse_id i,
  eq_iff r.user_id v,
  eq_iff r.miniverse_id j,
  eq_iff u v,
  eq_iff i j,
)

write_role_others :
    (u i v j : Text) (role : Role) (found : Option MiniverseUserRole) (rs : List MiniverseUserRole)
    → IsOther u i v j
    → role_in v j (write_role u i role found rs) ≡ role_in v j rs
write_role_others u i v j Role.none none rs o = refl
write_role_others u i v j Role.user none rs o = others-append u i v j Role.user rs o
write_role_others u i v j Role.moderator none rs o = others-append u i v j Role.moderator rs o
write_role_others u i v j Role.admin none rs o = others-append u i v j Role.admin rs o
write_role_others u i v j Role.none (some m) rs o = others-removed u i v j rs o
write_role_others u i v j Role.user (some m) rs o = others-adjust u i v j Role.user rs o
write_role_others u i v j Role.moderator (some m) rs o = others-adjust u i v j Role.moderator rs o
write_role_others u i v j Role.admin (some m) rs o = others-adjust u i v j Role.admin rs o

-- The role route, for a user that is found: it succeeds, the committed role of that user in the
-- miniverse is the one that was asked for, whatever it was before, and every other role of any user
-- in any miniverse is as the session had it.
pub set_user_role_grants :
    (h : Host) (settings : Settings) (u : User) (roles : List MiniverseUserRole) (i q : Text)
    (role : Role) (target : User) (w : World h) (v j : Text)
    → IsOther target.id i v j
    → find_user q w.session.users ≡ some target
    → ((set_user_role_handler h settings u roles i q role w).0 ≡ ok nothing)
      × (role_in target.id i (set_user_role_handler h settings u roles i q role w).1.db.users_roles
          ≡ role)
      × (role_in v j (set_user_role_handler h settings u roles i q role w).1.db.users_roles
          ≡ role_in v j w.session.users_roles)
unfolding set_user_role_handler
set_user_role_grants h settings u roles i q role target w v j o e = (
  ground arith,
  ground (
    arith,
    write_role_granted target.id i role (found_in target.id i w.session.users_roles)
        w.session.users_roles refl,
  ),
  ground (
    arith,
    write_role_others target.id i v j role (found_in target.id i w.session.users_roles)
        w.session.users_roles o,
  ),
)
