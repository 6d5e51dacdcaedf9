-- ===== src/Base/Binding.antt =====
-- Reasoning about chains of calls that may raise.
use mathlib.Core.Path.{◌≡◌, refl, ap, sym, subst, ◌∙◌}
use mathlib.Core.Logic.{inl, inr}
use mathlib.Core.Option.{Option, none, some}
use native.Mathlib.Omega.{arith}
use miniverse_backend.Base.Raising.{Action, Error, ok, err, ◌>>=◌, or_raise, Result-cases}

module _ {S A V : Type 0} (view : S → V) where
  -- The view is the same after the call, also if it raises.
  abbrev pub Keeps : Action S A → Type 0
  Keeps m = (s : S) → view (m s).1 ≡ view s

pub bind-Keeps :
    {S A B V : Type 0} (view : S → V) (m : Action S A) (f : A → Action S B)
    → Keeps view m
    → ((a : A) → Keeps view (f a))
    → Keeps view (m >>= f)
bind-Keeps view m f p q s = elim (Result-cases (m s).0) [
  | inl (a, e) ↦ ground (arith, p s, q a (m s).1)
  | inr (x, e) ↦ ground (arith, p s)
]

-- A chain goes on after a call that returns, and stops at one that raises.
pub bind_ok :
    {S A B : Type 0} (m : Action S A) (f : A → Action S B) (s : S) (a : A)
    → (m s).0 ≡ ok a
    → (m >>= f) s ≡ f a (m s).1
bind_ok m f s a e = ground (arith, e)

pub bind_err :
    {S A B : Type 0} (m : Action S A) (f : A → Action S B) (s : S) (x : Error)
    → (m s).0 ≡ err x
    → (m >>= f) s ≡ (err x, (m s).1)
bind_err m f s x e = ground (arith, e)

-- Where the call returns, the state after it has the property.
abbrev pub Ensures : {S A : Type 0} → (S → Type 0) → Action S A → Type 0
Ensures {S} {A} P m = (s : S) (a : A) → (m s).0 ≡ ok a → P (m s).1

pub bind-Ensures :
    {S A B : Type 0} (P : S → Type 0) (m : Action S A) (f : A → Action S B)
    → ((a : A) → Ensures P (f a))
    → Ensures P (m >>= f)
bind-Ensures P m f q s b e = elim (Result-cases (m s).0) [
  | inl (a, r) ↦
      let same = bind_ok m f s a r in
      subst P (sym (ap (λ t. t.1) same)) (q a (m s).1 b (sym (ap (λ t. t.0) same) ∙ e))
  | inr (x, r) ↦ ground (arith, bind_err m f s x r, e)
]

pub or_raise-Keeps :
    {S A V : Type 0} (view : S → V) (o : Option A) (e : Error) → Keeps view (or_raise o e)
or_raise-Keeps view none e s = refl
or_raise-Keeps view (some a) e s = refl
