-- ===== src/Accounts/Admins.antt =====
-- The guards of the users API: which requests keep an administrator, and how the last one can go.
use mathlib.Core.Path.{subst}
use miniverse_backend.Base.{
  ◌<◌, ◌≡◌, refl, ◌≢◌, true, some, List, Text, ◌==◌, eq_iff, first, adjust, arith, Bool-cases, inl,
  inr, Result, ok, err, ap, sym,
}
use miniverse_backend.Role
use miniverse_backend.Role.{Role}
use miniverse_backend.Models.{User, Tables}
use miniverse_backend.Accounts.Service.{has_id, count_admins}
use miniverse_backend.Accounts.Auth.{Token, retrieve_user_handler}
use miniverse_backend.Accounts.Api.{
  Request, Response, get_me, delete_me, list_users, list_inactive_users, get_user, delete_user,
  accept_user_request, reject_user_request, set_user_role, handle, serve,
}
use miniverse_backend.Accounts.Rows.{
  IsKeyed, remove, first-remove, first-adjust, count_admins-pos, count_admins-remove,
  count_admins-adjust, count_admins-adjust_role,
}
use miniverse_backend.Accounts.Keys.{remove-IsKeyed, adjust-IsKeyed}
use miniverse_backend.Accounts.Current.{IsCurrent, Retrieves, retrieve-Retrieves}

admin_of_ge : (r : Role) → Role.ge r (some Role.admin) ≡ true → r ≡ Role.admin
unfolding Role.ge
admin_of_ge Role.none h = ground arith
admin_of_ge Role.user h = ground arith
admin_of_ge Role.moderator h = ground arith
admin_of_ge Role.admin h = refl

module _ (u : User) (t : Tables) (k : IsKeyed t.users) where
  -- Every handler keeps the keys unique.
  pub handle-IsKeyed : (r : Request) → IsKeyed (handle u r t).1.users
  unfolding handle
  handle-IsKeyed get_me = k
  handle-IsKeyed delete_me = ground (arith, remove-IsKeyed u.id t.users k)
  handle-IsKeyed list_users = ground arith
  handle-IsKeyed (get_user i) = ground arith
  handle-IsKeyed (delete_user i) = ground (arith, remove-IsKeyed i t.users k)
  handle-IsKeyed (set_user_role i s) =
      ground (
        arith,
        adjust-IsKeyed i (λ (v : User). record v { role = s }) t.users (λ v. (refl, refl)) k,
      )
  handle-IsKeyed list_inactive_users = ground arith
  handle-IsKeyed (accept_user_request i) = ground (
    arith,
    adjust-IsKeyed i (λ (v : User). record v { is_active = true }) t.users (λ v. (refl, refl)) k,
  )
  handle-IsKeyed (reject_user_request i) = ground (arith, remove-IsKeyed i t.users k)

  -- A handler leaves an administrator if there is one, unless the current user rejects himself.
  module _ (own : first (has_id u.id) t.users ≡ some u)
      (some_admin : 0 < count_admins t.users) where
    -- Another row changes: the administrator who asks is still there.
    other_written :
        (i : Text) (s : Role)
        → u.role ≡ Role.admin
        → i ≢ u.id
        → 0 < count_admins (adjust (has_id i) (λ v. record v { role = s }) t.users)
    other_written i s r other =
        let written = λ (v : User). record v { role = s } in
        ground (
          arith,
          first-adjust i u.id other written t.users (λ v. refl),
          count_admins-pos u.id u (adjust (has_id i) written t.users),
        )

    own_written :
        (s : Role)
        → u.role ≡ Role.admin
        → 1 < count_admins t.users
        → 0 < count_admins (adjust (has_id u.id) (λ v. record v { role = s }) t.users)
    unfolding Role.eq
    own_written s r more =
        ground
          (arith, count_admins-adjust u.id (λ (v : User). record v { role = s }) u t.users k own)

    other_removed :
        (i : Text) → u.role ≡ Role.admin → i ≢ u.id → 0 < count_admins (remove i t.users)
    other_removed i r other =
        ground
          (arith, first-remove i u.id other t.users, count_admins-pos u.id u (remove i t.users))

    handle-keeps_admin :
        (r : Request) → r ≢ reject_user_request u.id → 0 < count_admins (handle u r t).1.users
    unfolding handle
    handle-keeps_admin get_me h = some_admin
    handle-keeps_admin delete_me h = ground (arith, count_admins-remove u.id u t.users k own)
    handle-keeps_admin list_users h = ground arith
    handle-keeps_admin (get_user i) h = ground arith
    handle-keeps_admin (delete_user i) h =
        ground (arith, admin_of_ge u.role, other_removed i, eq_iff u.id i)
    handle-keeps_admin (set_user_role i s) h = elim (Bool-cases (u.id == i)) [
      | inl same ↦ ground (arith, admin_of_ge u.role, (eq_iff u.id i).0 same, own_written s)
      | inr other ↦ ground (arith, admin_of_ge u.role, other_written i s, eq_iff u.id i)
    ]
    handle-keeps_admin list_inactive_users h = ground arith
    handle-keeps_admin (accept_user_request i) h = ground (
      arith,
      count_admins-adjust_role i (λ (v : User). record v { is_active = true }) t.users (λ v. refl),
    )
    handle-keeps_admin (reject_user_request i) h =
        ground (
          arith,
          admin_of_ge u.role,
          other_removed i,
          λ (e : i ≡ u.id). h (ap reject_user_request e),
        )

abbrev pub resume : Request → Result User × Tables → Result Response × Tables
resume r (ok u, t) = handle u r t
resume r (err e, t) = (err e, t)

resume-IsKeyed :
    (token : Token) (r : Request) (us : List User) (found : Result User × Tables)
    → Retrieves token us found
    → IsKeyed (resume r found).1.users
resume-IsKeyed token r us (ok u, t) g = handle-IsKeyed u t g.0 r
resume-IsKeyed token r us (err e, t) g = g.0

own_row :
    (token : Token) (u : User) (t : Tables)
    → IsCurrent token t.users u
    → first (has_id u.id) t.users ≡ some u
own_row token u t c = subst (λ i. first (has_id i) t.users ≡ some u) (sym c.own) c.found

resume-keeps_admin :
    (token : Token) (r : Request) (us : List User) (found : Result User × Tables)
    → Retrieves token us found
    → 0 < count_admins us
    → r ≢ reject_user_request token.sub
    → 0 < count_admins (resume r found).1.users
resume-keeps_admin token r us (ok u, t) (k, more, c) some_admin h =
    handle-keeps_admin u t k (own_row token u t c) (omega arith) r (rw c.own h)
resume-keeps_admin token r us (err e, t) (k, more) some_admin h = omega arith

pub serve_resumes :
    (token : Token) (r : Request) (t : Tables)
    → serve token r t ≡ resume r (retrieve_user_handler token t)
unfolding serve
serve_resumes token r t = ground arith

-- Every request keeps the ids and the user names of the accounts unique, also when it fails.
serve-IsKeyed :
    (token : Token) (r : Request) (t : Tables) → IsKeyed t.users → IsKeyed (serve token r t).1.users
serve-IsKeyed token r t k =
    rw serve_resumes (
      resume-IsKeyed token r t.users (retrieve_user_handler token t) (retrieve-Retrieves token t k))

-- With ids compared exactly by the database (a binary collation), where ids and user names are unique and an
-- administrator exists: every request leaves one, whoever sends it and whether it succeeds or not, except
-- the request of a user to reject his own account.
pub serve_keeps_admin :
    (token : Token) (r : Request) (t : Tables)
    → IsKeyed t.users
    → 0 < count_admins t.users
    → r ≢ reject_user_request token.sub
    → 0 < count_admins (serve token r t).1.users
serve_keeps_admin token r t k some_admin h = rw serve_resumes (
    resume-keeps_admin token r t.users (retrieve_user_handler token t)
      (retrieve-Retrieves token t k) some_admin h)
