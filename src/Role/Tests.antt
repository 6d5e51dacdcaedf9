-- ===== src/Role/Tests.antt =====
-- The order of the roles on some of them.
use miniverse_backend.Base.{◌≡◌, ◌⊎◌, true, some}
use miniverse_backend.Role.{Role, ge, max}
use miniverse_backend.Role.Order.{max_lub}

max_lub_example :
    ((max Role.user Role.admin ≡ Role.user) ⊎ (max Role.user Role.admin ≡ Role.admin))
    × (ge (max Role.user Role.admin) (some Role.user) ≡ true)
    × (ge (max Role.user Role.admin) (some Role.admin) ≡ true)
max_lub_example = max_lub Role.user Role.admin
