-- ===== src/Accounts/Rows.antt =====
-- What the statements of `Service` do to the rows of the users table.
use miniverse_backend.Base.{
  ℕ, ◌+◌, ◌<◌, ◌≡◌, refl, ◌≢◌, Bool, false, not, some, List, [], ◌∷◌, Text, eq_iff, first, keep,
  adjust, exists, arith, if◌then◌else◌,
}
use miniverse_backend.Role
use miniverse_backend.Role.{Role}
use miniverse_backend.Models.{User}
use miniverse_backend.Accounts.Service.{has_id, is_taken, count_admins}

abbrev pub admin_bit : User → ℕ
admin_bit u = if Role.eq u.role Role.admin then 1 else 0

-- No id and no user name stands in two rows.
abbrev pub IsKeyed : List User → Type 0
IsKeyed [] = Unit
IsKeyed (u ∷ us) = (is_taken u.id u.username us ≡ false) × IsKeyed us

abbrev pub remove : Text → List User → List User
remove i = keep (λ u. not (has_id i u))

module _ (i j : Text) (other : i ≢ j) where
  pub first-remove : (us : List User) → first (has_id j) (remove i us) ≡ first (has_id j) us
  first-remove [] = refl
  first-remove (u ∷ us) = ground (arith, first-remove us, eq_iff u.id i, eq_iff u.id j)

  pub first-adjust :
      (f : User → User) (us : List User)
      → ((u : User) → (f u).id ≡ u.id)
      → first (has_id j) (adjust (has_id i) f us) ≡ first (has_id j) us
  first-adjust f [] h = refl
  first-adjust f (u ∷ us) h =
      ground (arith, first-adjust f us h, h u, eq_iff u.id i, eq_iff u.id j, eq_iff (f u).id j)

-- A found administrator counts.
pub count_admins-pos :
    (j : Text) (u : User) (us : List User)
    → first (has_id j) us ≡ some u
    → u.role ≡ Role.admin
    → 0 < count_admins us
unfolding count_admins Role.eq
count_admins-pos j u [] e r = cc
count_admins-pos j u (v ∷ us) e r = ground (arith, count_admins-pos j u us)

pub exists-remove :
    (p : User → Bool) (i : Text) (us : List User)
    → exists p us ≡ false
    → exists p (remove i us) ≡ false
exists-remove p i [] h = refl
exists-remove p i (u ∷ us) h = ground (arith, exists-remove p i us)

-- With no second row of the same id, a test that implies the id misses everything behind it.
pub remove-absent : (i name : Text) (us : List User) → is_taken i name us ≡ false → remove i us ≡ us
remove-absent i name [] h = refl
remove-absent i name (u ∷ us) h = ground (arith, remove-absent i name us, eq_iff u.id i)

pub adjust-absent :
    (i name : Text) (f : User → User) (us : List User)
    → is_taken i name us ≡ false
    → adjust (has_id i) f us ≡ us
adjust-absent i name f [] h = refl
adjust-absent i name f (u ∷ us) h = ground (arith, adjust-absent i name f us, eq_iff u.id i)

-- Deleting the row that is found takes its bit off the count.
pub count_admins-remove :
    (i : Text) (u : User) (us : List User)
    → IsKeyed us
    → first (has_id i) us ≡ some u
    → count_admins (remove i us) + admin_bit u ≡ count_admins us
unfolding count_admins
count_admins-remove i u [] k e = cc
count_admins-remove i u (v ∷ us) k e =
    ground (arith, count_admins-remove i u us, remove-absent v.id v.username us, eq_iff v.id i)

-- Rewriting the row that is found changes the count by its bit alone.
pub count_admins-adjust :
    (i : Text) (f : User → User) (u : User) (us : List User)
    → IsKeyed us
    → first (has_id i) us ≡ some u
    → count_admins (adjust (has_id i) f us) + admin_bit u ≡ count_admins us + admin_bit (f u)
unfolding count_admins
count_admins-adjust i f u [] k e = cc
count_admins-adjust i f u (v ∷ us) k e =
    ground (arith, count_admins-adjust i f u us, adjust-absent v.id v.username f us, eq_iff v.id i)

-- A rewrite that leaves the role alone leaves the count alone.
pub count_admins-adjust_role :
    (i : Text) (f : User → User) (us : List User)
    → ((u : User) → (f u).role ≡ u.role)
    → count_admins (adjust (has_id i) f us) ≡ count_admins us
unfolding count_admins
count_admins-adjust_role i f [] h = refl
count_admins-adjust_role i f (u ∷ us) h = ground (arith, count_admins-adjust_role i f us h, h u)
