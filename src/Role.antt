-- ===== src/Role.antt =====
-- `Role` of app/enums/role.py with its four rich comparisons. `None` on the right is Python's `None`.
pub mod Order
pub mod Tests
use miniverse_backend.Base.{ℕ, Bool, true, false, Option, ltb, leb, eqb, if◌then◌else◌}

pub data Role : Type 0 where
  none user moderator admin : Role

-- `Role.role_value`
unfoldable pub role_value : Role → ℕ
role_value none = 0
role_value user = 1
role_value moderator = 2
role_value admin = 3

-- `__lt__`, `__gt__`, `__le__`, `__ge__`
unfoldable pub lt : Role → Option Role → Bool
unfolding role_value
lt r Option.none = true
lt r (Option.some s) = ltb (role_value r) (role_value s)

unfoldable pub gt : Role → Option Role → Bool
unfolding role_value
gt r Option.none = false
gt r (Option.some s) = ltb (role_value s) (role_value r)

unfoldable pub le : Role → Option Role → Bool
unfolding role_value
le r Option.none = true
le r (Option.some s) = leb (role_value r) (role_value s)

unfoldable pub ge : Role → Option Role → Bool
unfolding role_value
ge r Option.none = false
ge r (Option.some s) = leb (role_value s) (role_value r)

-- Python's `max(a, b)`: the second only if it is greater than the first.
unfoldable pub max : Role → Role → Role
unfolding gt
max a b = if gt b (Option.some a) then b else a

-- `a == b`
unfoldable pub eq : Role → Role → Bool
unfolding role_value
eq a b = eqb (role_value a) (role_value b)
