-- ===== src/Miniverses/Running.antt =====
-- What starting and stopping leave in the database and in the daemon.
use miniverse_backend.Base.{
  ◌⊎◌, Option-cases, Result-cases, inl, inr, ◌≡◌, refl, sym, subst, ap, ◌≢◌, Bool, true, false,
  Option, none, some, List, [], ◌∷◌, Text, eq_iff, first, adjust, ok, arith,
}
use miniverse_backend.Models.{Miniverse}
use miniverse_backend.Miniverses.World.{Host, World, call, has_miniverse_id, row}
use miniverse_backend.Settings.{Settings}
use miniverse_backend.Miniverses.Setup.{init_data_path, container_name}
use miniverse_backend.Miniverses.Docker.{get_container_by_name, start_container, catch_all}
use miniverse_backend.Miniverses.Keeps.{init_data_path-Keeps}
use miniverse_backend.Miniverses.Lifecycle.{
  with_container, with_started, start_in, start_miniverse, create_miniverse_container,
  stop_miniverse_container, stop_miniverse,
}

abbrev rewritten : (Miniverse → Miniverse) → Option Miniverse → Option Miniverse
rewritten f none = none
rewritten f (some m) = some (f m)

pub first-adjust_self :
    (i : Text) (f : Miniverse → Miniverse) (ms : List Miniverse)
    → ((m : Miniverse) → (f m).id ≡ m.id)
    → first (has_miniverse_id i) (adjust (has_miniverse_id i) f ms)
      ≡ rewritten f (first (has_miniverse_id i) ms)
first-adjust_self i f [] h = refl
first-adjust_self i f (m ∷ ms) h = ground (arith, first-adjust_self i f ms h, h m)

pub first-adjust_other :
    (i j : Text) (f : Miniverse → Miniverse) (ms : List Miniverse)
    → ((m : Miniverse) → (f m).id ≡ m.id)
    → i ≢ j
    → first (has_miniverse_id j) (adjust (has_miniverse_id i) f ms) ≡ first (has_miniverse_id j) ms
first-adjust_other i j f [] h p = refl
first-adjust_other i j f (m ∷ ms) h p =
    ground
      (arith, first-adjust_other i j f ms h p, h m, eq_iff m.id i, eq_iff m.id j, eq_iff (f m).id j)

-- Whether a miniverse is started, and its container.
abbrev pub status : Option Miniverse → Option (Bool × Option Text)
status none = none
status (some m) = some (m.started, m.container_id)

module _ (h : Host) (settings : Settings) (i : Text) (w : World h) where
  -- The committed row after a start that returns: the row of the session, started, with the container.
  pub row-start_miniverse :
      (c : Text) (m : Miniverse)
      → row i w.session ≡ some m
      → (start_miniverse h settings i w).0 ≡ ok c
      → row i (start_miniverse h settings i w).1.db
        ≡ some (record m { started = true; container_id = some c })
  unfolding start_miniverse create_miniverse_container
  row-start_miniverse c m r e = ground (
    arith,
    init_data_path-Keeps h settings m w,
    first-adjust_self i (with_started true) (init_data_path h settings m w).1.session.miniverses
        (λ m. refl),
    first-adjust_self i (with_container (some c))
        (adjust (has_miniverse_id i) (with_started true)
          (init_data_path h settings m w).1.session.miniverses)
        (λ m. refl),
  )

  pub start_miniverse_found :
      (c : Text)
      → (start_miniverse h settings i w).0 ≡ ok c
      → (m : Miniverse) × (row i w.session ≡ some m)
  unfolding start_miniverse
  start_miniverse_found c e = elim (Option-cases (row i w.session)) [
    | inl r ↦ ground arith
    | inr found ↦ found
  ]

  -- The last that a start asks for outside: the container `c` is started, successfully, and then at most the
  -- connection to its server.
  abbrev pub IsLastStarted : Text → h.State → Type 0
  IsLastStarted c o =
      (s : h.State) × ((start_container h c s).0 ≡ ok tt)
      × ((o ≡ (start_container h c s).1) ⊎ (o ≡ (h.start_controller i (start_container h c s).1).1))

  start_in-last :
      (found : Option Text) (v : World h) (c : Text)
      → (start_in h settings i found v).0 ≡ ok c
      → IsLastStarted c (start_in h settings i found v).1.outside
  unfolding create_miniverse_container
  start_in-last (some x) v c e = elim (Result-cases (start_container h x v.outside).0) [
    | inr (y, bad) ↦ ground (arith, e, bad)
    | inl (u, good) ↦
        let same : x ≡ c = ground (arith, e, good) in
        subst (λ z. IsLastStarted z (start_in h settings i (some x) v).1.outside) same
          (v.outside, ground (arith, good), inl (ground (arith, good)))
  ]
  start_in-last none v c e =
      let v1 = (create_miniverse_container h settings i v).1 in
      elim (Result-cases (create_miniverse_container h settings i v).0) [
        | inr (y, bad) ↦ ground (arith, e, bad)
        | inl (k, made) ↦ elim (Result-cases (start_container h k v1.outside).0) [
          | inr (y, bad) ↦ ground (arith, e, made, bad)
          | inl (u, good) ↦
              let same : k ≡ c = ground (arith, e, made, good) in
              subst (λ z. IsLastStarted z (start_in h settings i none v).1.outside) same
                (v1.outside, ground (arith, good), inr (ground (arith, e, made, good)))
        ]
      ]

  pub start_last :
      (c : Text)
      → (start_miniverse h settings i w).0 ≡ ok c
      → IsLastStarted c (start_miniverse h settings i w).1.outside
  unfolding start_miniverse
  start_last c e =
      let (m, r) = start_miniverse_found c e in
      let v0 = (init_data_path h settings m w).1 in
      let t = record v0.session {
        miniverses = adjust (has_miniverse_id i) (with_started true) v0.session.miniverses;
      } in
      let v1 : World h = record v0 { session = t; db = t } in
      let v : World h = (call (get_container_by_name h (container_name i)) v1).1 in
      elim (Result-cases (init_data_path h settings m w).0) [
        | inr (y, bad) ↦ ground (arith, e, r, bad)
        | inl (u, good) ↦
            elim (Result-cases (get_container_by_name h (container_name i) v0.outside).0) [
              | inr (y, bad) ↦ ground (arith, e, r, good, bad)
              | inl (found, there) ↦
                  let same : start_miniverse h settings i w ≡ start_in h settings i found v =
                    ground (arith, r, good, there) in
                  subst (λ z. IsLastStarted c z.1.outside) (sym same)
                    (start_in-last found v c (subst (λ z. z.0 ≡ ok c) same e))
            ]
      ]

  -- When `start_miniverse` returns, the committed row says that the miniverse is started, in the container
  -- that was returned; and the daemon was asked to start this container and has accepted, after which
  -- only the connection to its server was started, if anything.
  pub start_miniverse_runs :
      (c : Text)
      → (start_miniverse h settings i w).0 ≡ ok c
      → (status (row i (start_miniverse h settings i w).1.db) ≡ some (true, some c))
        × IsLastStarted c (start_miniverse h settings i w).1.outside
  start_miniverse_runs c e =
      let (m, r) = start_miniverse_found c e in
      (ap status (row-start_miniverse c m r e), start_last c e)

  -- When `stop_miniverse` returns, the committed row says that the miniverse is not started and has no
  -- container, and the committed rows of the other miniverses are those of the session.
  stop_miniverse_clears :
      (j : Text)
      → i ≢ j
      → (stop_miniverse h settings i w).0 ≡ ok tt
      → (status (row i (stop_miniverse h settings i w).1.db) ≡ some (false, none))
        × (row j (stop_miniverse h settings i w).1.db ≡ row j w.session)
  unfolding stop_miniverse stop_miniverse_container
  stop_miniverse_clears j p e = (
    ground (
      arith,
      first-adjust_self i (λ m. record m { started = false; container_id = none })
          w.session.miniverses (λ m. refl),
    ),
    ground (
      arith,
      first-adjust_other i j (λ m. record m { started = false; container_id = none })
          w.session.miniverses (λ m. refl) p,
    ),
  )

  -- A miniverse whose row has no container id: `stop_miniverse_container` looks the container up by its
  -- name, and then returns and does nothing more, whether it found one or not.
  stop_without_container :
      (m : Miniverse)
      → row i w.session ≡ some m
      → m.container_id ≡ none
      → stop_miniverse_container h settings i w
        ≡ (ok tt, (call (get_container_by_name h (container_name i)) w).1)
  unfolding stop_miniverse_container get_container_by_name catch_all
  stop_without_container m e n =
      elim (Result-cases (h.containers_list (container_name i) w.outside).0) [
        | inl (cs, r) ↦ ground arith
        | inr (x, r) ↦ ground arith
      ]
