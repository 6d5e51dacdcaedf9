-- ===== src/Management/Cache.antt =====
-- `delete_miniverse_cache` of app/services/connexion/server_status_store.py, over the keys as Redis holds
-- them, and the removal of a service in app/managers/ServerStatusManager.py.
use miniverse_backend.Base.{
  ◌≡◌, refl, ℕ, Bool, true, false, ◌&&◌, none, some, List, [], ◌∷◌, ◌++◌, Text, eqb, keep, map, All,
  ok, Action, arith,
}
use miniverse_backend.Base.Dict.{Dict, lookup, discard}
use miniverse_backend.Players.Store.{Status}

unfoldable pub starts_with : Text → Text → Bool
starts_with [] t = true
starts_with (c ∷ p) [] = false
starts_with (c ∷ p) (d ∷ t) = eqb c d && starts_with p t

-- The store puts its namespace and a colon before every key.
abbrev pub raw_key : Text → Text → Text
raw_key namespace k = namespace ++ (b':' ∷ k)

abbrev pub keys : {V : Type 0} → Dict V → List Text
keys d = map (λ (e : Text × _). e.0) d

unfoldable pub delete_all : {V : Type 0} → List Text → Dict V → Dict V
unfolding discard
delete_all [] d = d
delete_all (r ∷ rs) d = delete_all rs (discard r d)

-- `scan_iter` asks Redis itself, which also holds the `others`; `delete` asks the store. An id holds no
-- character that a pattern reads otherwise.
unfoldable pub delete_miniverse_cache : {V : Type 0} → Text → List Text → Text → Status V → Status V
unfolding starts_with delete_all
delete_miniverse_cache namespace others miniverse_id s =
    let all_keys = map (raw_key namespace) (keys s.redis) ++ others in
    record s {
      redis = delete_all (keep (starts_with (miniverse_id ++ (b'.' ∷ []))) all_keys) s.redis;
    }

-- `remove_miniverse`: the service is taken out of the table, and then stopped.
unfoldable pub remove_miniverse :
    {C S : Type 0} → (C → Action S (Unit {0})) → Text → Action (Dict C × S) (Unit {0})
unfolding lookup discard
remove_miniverse stop_control miniverse_id (services, s) = elim (lookup miniverse_id services) [
  | none ↦ (ok tt, (services, s))
  | some control ↦ let (r, s') = stop_control control s in (r, (discard miniverse_id services, s'))
]

abbrev pub begins : ℕ → Text → Bool
begins c [] = false
begins c (d ∷ t) = eqb c d

none_found :
    (c d : ℕ) (p : Text) (ks : List Text)
    → eqb d c ≡ false
    → All (λ k. begins c k ≡ true) ks
    → keep (starts_with (d ∷ p)) ks ≡ []
unfolding starts_with
none_found c d p [] e h = refl
none_found c d p ([] ∷ ks) e h = ground arith
none_found c d p ((x ∷ k) ∷ ks) e h = ground (arith, none_found c d p ks e h.1)

raw-begins :
    (c : ℕ) (n : Text) (ks : List Text) (others : List Text)
    → All (λ k. begins c k ≡ true) others
    → All (λ k. begins c k ≡ true) (map (raw_key (c ∷ n)) ks ++ others)
raw-begins c n [] others h = h
raw-begins c n (k ∷ ks) others h = (ground arith, raw-begins c n ks others h)

-- A miniverse whose id does not begin with the first letter of the namespace, with which every other key
-- in Redis begins too: deleting its cache deletes nothing, so that what was stored for it, and for every
-- other miniverse, is still there.
delete_miniverse_cache_nothing :
    {V : Type 0} (c d : ℕ) (n i : Text) (others : List Text) (s : Status V)
    → eqb d c ≡ false
    → All (λ k. begins c k ≡ true) others
    → delete_miniverse_cache (c ∷ n) others (d ∷ i) s ≡ s
unfolding delete_miniverse_cache
delete_miniverse_cache_nothing c d n i others s e h =
    rw
      (none_found c d (i ++ (b'.' ∷ [])) (map (raw_key (c ∷ n)) (keys s.redis) ++ others) e
        (raw-begins c n (keys s.redis) others h))
      refl
