-- ===== src/Accounts/Keys.antt =====
-- Every request keeps the keys of the users table unique: the id and the user name.
use miniverse_backend.Base.{
  ◌≡◌, refl, ◌≢◌, Bool, false, not, ◌&&◌, ◌||◌, List, [], ◌∷◌, ◌++◌, Text, ◌==◌, eq_iff, adjust,
  exists, arith,
}
use miniverse_backend.Models.{User}
use miniverse_backend.Accounts.Service.{has_id, is_taken}
use miniverse_backend.Accounts.Rows.{IsKeyed, remove, exists-remove, adjust-absent}

pub remove-IsKeyed : (i : Text) (us : List User) → IsKeyed us → IsKeyed (remove i us)
remove-IsKeyed i [] k = tt
remove-IsKeyed i (u ∷ us) k = ground (
  arith,
  remove-IsKeyed i us k.1,
  exists-remove (λ (v : User). v.id == u.id || v.username == u.username) i us k.0,
)

is_taken-append :
    (i name : Text) (n : User) (us : List User)
    → is_taken i name us ≡ false
    → n.id ≢ i
    → n.username ≢ name
    → is_taken i name (us ++ n ∷ []) ≡ false
is_taken-append i name n [] h p q = ground (arith, eq_iff n.id i, eq_iff n.username name)
is_taken-append i name n (u ∷ us) h p q = ground (arith, is_taken-append i name n us)

pub append-IsKeyed :
    (n : User) (us : List User)
    → IsKeyed us
    → is_taken n.id n.username us ≡ false
    → IsKeyed (us ++ n ∷ [])
append-IsKeyed n [] k h = (refl, tt)
append-IsKeyed n (u ∷ us) k h = ground (
  arith,
  append-IsKeyed n us k.1,
  is_taken-append u.id u.username n us k.0,
  eq_iff u.id n.id,
  eq_iff u.username n.username,
)

is_taken-adjust :
    (i j name : Text) (f : User → User) (us : List User)
    → ((u : User) → ((f u).id ≡ u.id) × ((f u).username ≡ u.username))
    → is_taken j name (adjust (has_id i) f us) ≡ is_taken j name us
is_taken-adjust i j name f [] h = refl
is_taken-adjust i j name f (u ∷ us) h = ground (arith, is_taken-adjust i j name f us h, h u)

-- A rewrite that leaves both keys alone.
pub adjust-IsKeyed :
    (i : Text) (f : User → User) (us : List User)
    → ((u : User) → ((f u).id ≡ u.id) × ((f u).username ≡ u.username))
    → IsKeyed us
    → IsKeyed (adjust (has_id i) f us)
adjust-IsKeyed i f [] h k = tt
adjust-IsKeyed i f (u ∷ us) h k =
    ground (arith, adjust-IsKeyed i f us h k.1, is_taken-adjust i u.id u.username f us h, h u)

-- Giving the row of an id a name that no other row has.
module _ (i name : Text) where
  abbrev pub renamed : User → User
  renamed v = record v { username = name }

  abbrev pub is_used : List User → Bool
  is_used = exists (λ v. not (has_id i v) && v.username == name)

  is_taken-renamed :
      (j other : Text) (us : List User)
      → is_taken j other us ≡ false
      → other ≢ name
      → is_taken j other (adjust (has_id i) renamed us) ≡ false
  is_taken-renamed j other [] h p = refl
  is_taken-renamed j other (u ∷ us) h p =
      ground (arith, is_taken-renamed j other us, eq_iff name other)

  is_taken_own :
      (other : Text) (us : List User)
      → is_taken i other us ≡ false
      → is_used us ≡ false
      → is_taken i name us ≡ false
  is_taken_own other [] h p = refl
  is_taken_own other (u ∷ us) h p = ground (arith, is_taken_own other us)

  pub renamed-IsKeyed :
      (us : List User) → IsKeyed us → is_used us ≡ false → IsKeyed (adjust (has_id i) renamed us)
  renamed-IsKeyed [] k h = tt
  renamed-IsKeyed (u ∷ us) k h = ground (
    arith,
    renamed-IsKeyed us k.1,
    is_taken-renamed u.id u.username us k.0,
    is_taken_own u.username us,
    adjust-absent i u.username renamed us,
    eq_iff u.id i,
    eq_iff u.username name,
  )
