-- ===== src/Role/Order.antt =====
-- The comparisons of `Role` are those of one linear order, and `max` is its least upper bound.
use miniverse_backend.Base.{◌≡◌, ◌↔◌, ◌⊎◌, ◌&&◌, not, true, false, some, arith}
use miniverse_backend.Role.{Role, lt, gt, le, ge, max, eq, role_value}

pub role_value_injective : (r s : Role) → role_value r ≡ role_value s → r ≡ s
unfolding role_value
role_value_injective Role.none s h = ground arith
role_value_injective Role.user s h = ground arith
role_value_injective Role.moderator s h = ground arith
role_value_injective Role.admin s h = ground arith

-- `==` holds exactly for the same member.
pub eq_iff_same : (r s : Role) → (eq r s ≡ true) ↔ (r ≡ s)
unfolding eq
eq_iff_same r s = ground (arith, role_value_injective r s)

-- `<=` is a linear order on the roles, `<` is its strict part, and `>` and `>=` are their converses.
pub comparisons_linear :
    (a b c : Role)
    → (((le a (some b) && le b (some c)) && not (le a (some c))) ≡ false)
      × ((le a (some b) && le b (some a)) ≡ eq a b)
      × (lt a (some b) ≡ not (le b (some a)))
      × (gt a (some b) ≡ lt b (some a))
      × (ge a (some b) ≡ le b (some a))
unfolding le lt gt ge eq
comparisons_linear a b c = ground arith

-- `max` returns one of its arguments, and is above both.
pub max_lub :
    (a b : Role)
    → ((max a b ≡ a) ⊎ (max a b ≡ b))
      × (ge (max a b) (some a) ≡ true)
      × (ge (max a b) (some b) ≡ true)
unfolding max ge
max_lub a b = ground arith
