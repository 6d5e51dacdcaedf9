-- ===== src/Players/Targets.antt =====
-- Which service the webhook finds for a backend of the proxy's routes.
use miniverse_backend.Base.{
  ◌≡◌, ◌≢◌, refl, ap, ◌∙◌, ◌≤◌, Bool, false, some, [], ◌∷◌, ◌++◌, Text, str, exists, eqb, length,
  arith, All, Bool-cases, inl, inr,
}
use miniverse_backend.Miniverses.Proxy.{route_target}
use miniverse_backend.Players.Webhook.{lstrip, before_colon, target_id}

before_colon-append :
    (i rest : Text) → All (λ c. eqb c b':' ≡ false) i → before_colon (i ++ b':' ∷ rest) ≡ i
unfolding before_colon
before_colon-append [] rest h = refl
before_colon-append (c ∷ i) rest h = ground (arith, before_colon-append i rest h.1, h.0)

-- Does `lstrip('miniverse-')` take the character away?
abbrev pub is_stripped : Text → Bool
is_stripped [] = false
is_stripped (c ∷ t) = exists (λ d. eqb d c) (str "miniverse-")

lstrip_prefix :
    (t : Text) → lstrip (str "miniverse-") (str "miniverse-" ++ t) ≡ lstrip (str "miniverse-") t
unfolding lstrip
lstrip_prefix t = refl

lstrip_kept :
    (i rest : Text)
    → is_stripped i ≡ false
    → lstrip (str "miniverse-") (i ++ b':' ∷ rest) ≡ i ++ b':' ∷ rest
unfolding lstrip
lstrip_kept [] rest h = refl
lstrip_kept (c ∷ i) rest h = ground arith

-- For the backend that the proxy's routes name for a miniverse, the webhook looks up the id of that
-- miniverse, provided that the id has no colon and begins with none of the letters of "miniverse-".
target_id-route_target :
    (i : Text)
    → All (λ c. eqb c b':' ≡ false) i
    → is_stripped i ≡ false
    → target_id (some (route_target i)) ≡ i
unfolding target_id
target_id-route_target i h k =
    ap before_colon (lstrip_prefix (i ++ str ":25565") ∙ lstrip_kept i (str "25565") k)
    ∙ before_colon-append i (str "25565") h

length-before_colon : (i rest : Text) → length (before_colon (i ++ b':' ∷ rest)) ≤ length i
unfolding before_colon
length-before_colon [] rest = omega arith
length-before_colon (c ∷ i) rest = ground (arith, length-before_colon i rest)

length-lstrip :
    (i rest : Text)
    → length (before_colon (lstrip (str "miniverse-") (i ++ b':' ∷ rest))) ≤ length i
unfolding lstrip
length-lstrip [] rest = length-before_colon [] rest
length-lstrip (c ∷ i) rest = elim (Bool-cases (exists (λ d. eqb d c) (str "miniverse-"))) [
  | inl e ↦ rw e (omega (arith, length-lstrip i rest))
  | inr e ↦ rw e (length-before_colon (c ∷ i) rest)
]

-- For an id that begins with "e" the webhook looks up another text than the id, whatever follows.
pub target_id_e : (i : Text) → target_id (some (route_target (b'e' ∷ i))) ≢ b'e' ∷ i
unfolding target_id lstrip
target_id_e i e = omega (arith, length-lstrip i (str "25565"), ap length e)
