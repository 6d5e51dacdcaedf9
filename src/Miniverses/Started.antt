-- ===== src/Miniverses/Started.antt =====
-- What the start-up leaves: every miniverse that the database calls started runs in a container that was started.
use miniverse_backend.Base.{
  ◌≡◌, refl, sym, subst, ap, ◌∙◌, ◌≢◌, ◌⊎◌, Bool, true, false, Bool-cases, Option-cases,
  Result-cases, inl, inr, Option, none, some, List, [], ◌∷◌, Text, ◌==◌, eq_iff, exists, map, first,
  adjust, ok, arith,
}
use miniverse_backend.Models.{Miniverse}
use miniverse_backend.Settings.{Settings}
use miniverse_backend.Miniverses.World.{Host, World, row, has_miniverse_id}
use miniverse_backend.Miniverses.Setup.{init_data_path}
use miniverse_backend.Miniverses.Proxy.{start_proxy_containers}
use miniverse_backend.Miniverses.Lifecycle.{
  with_container, with_started, start_miniverse, create_miniverse_container,
}
use miniverse_backend.Miniverses.Docker.{start_container}
use miniverse_backend.Miniverses.Keeps.{init_data_path-Keeps}
use miniverse_backend.Miniverses.Running.{
  first-adjust_other, row-start_miniverse, start_miniverse_found, start_last,
}
use miniverse_backend.Miniverses.Startup.{start_started, start_each, docker_startup}

abbrev pub is_started : Option Miniverse → Bool
is_started none = false
is_started (some m) = m.started

-- The row of a started miniverse in a container which the daemon was asked to start, and accepted to.
abbrev pub IsAccepted : Host → Option Miniverse → Type 0
IsAccepted h found =
    (m : Miniverse) × (c : Text) × (s : h.State) × (found ≡ some m)
    × (m.started ≡ true)
    × (m.container_id ≡ some c)
    × ((start_container h c s).0 ≡ ok tt)

module _ (h : Host) (settings : Settings) (i : Text) (w : World h) (c : Text)
    (e : (start_miniverse h settings i w).0 ≡ ok c) where
  start_commits : (start_miniverse h settings i w).1.db ≡ (start_miniverse h settings i w).1.session
  unfolding start_miniverse create_miniverse_container
  start_commits = ground arith

  start_others :
      (j : Text) → i ≢ j → row j (start_miniverse h settings i w).1.session ≡ row j w.session
  unfolding start_miniverse create_miniverse_container
  start_others j p = elim (Option-cases (row i w.session)) [
    | inl r ↦ ground arith
    | inr (m, r) ↦
        let ms = (init_data_path h settings m w).1.session.miniverses in
        ground (
          arith,
          init_data_path-Keeps h settings m w,
          first-adjust_other i j (with_started true) ms (λ m. refl) p,
          first-adjust_other i j (with_container (some c))
              (adjust (has_miniverse_id i) (with_started true) ms) (λ m. refl) p,
        )
  ]

  start_self : IsAccepted h (row i (start_miniverse h settings i w).1.session)
  start_self =
      let (m, r) = start_miniverse_found h settings i w c e in
      let (s, accepted, last) = start_last h settings i w c e in
      (
        record m { started = true; container_id = some c },
        c,
        s,
        ap (row i) (sym start_commits) ∙ row-start_miniverse h settings i w c m r e,
        refl,
        refl,
        accepted,
      )

module _ (h : Host) (settings : Settings) where
  abbrev At : (Option Miniverse → Bool) → Text → World h → Type 0
  At p j w = p (row j w.session) ≡ true

  abbrev turn : Text → World h → World h
  turn i w = (start_started h settings i w).1

  abbrev AtRun : Text → World h → Type 0
  AtRun j w = IsAccepted h (row j w.session)

  running-started : (j : Text) (w : World h) → AtRun j w → At is_started j w
  running-started j w (m, c, s, there, on, held, accepted) = ground (arith, there, on)

  -- The turn either starts the miniverse or changes nothing.
  turn-cases :
      (i : Text) (w : World h)
      → (start_started h settings i w).0 ≡ ok tt
      → ((is_started (row i w.session) ≡ false) × (turn i w ≡ w))
        ⊎ ((c : Text) × ((start_miniverse h settings i w).0 ≡ ok c)
            × (turn i w ≡ (start_miniverse h settings i w).1))
  unfolding start_started
  turn-cases i w e = elim (Option-cases (row i w.session)) [
    | inl r ↦ ground arith
    | inr (m, r) ↦ elim (Bool-cases m.started) [
      | inr off ↦ inl (ground arith, ground arith)
      | inl on ↦ elim (Result-cases (start_miniverse h settings i w).0) [
        | inr (x, s) ↦ ground arith
        | inl (c, s) ↦ inr (c, s, ground arith)
      ]
    ]
  ]

  turn_runs :
      (i : Text) (w : World h)
      → (start_started h settings i w).0 ≡ ok tt
      → At is_started i w
      → AtRun i (turn i w)
  turn_runs i w e on = elim (turn-cases i w e) [
    | inl (off, same) ↦ absurd (ground (arith, off, on))
    | inr (c, s, same) ↦ subst (AtRun i) (sym same) (start_self h settings i w c s)
  ]

  turn_keeps_running :
      (i j : Text) (w : World h)
      → (start_started h settings i w).0 ≡ ok tt
      → AtRun j w
      → AtRun j (turn i w)
  turn_keeps_running i j w e on = elim (Bool-cases (i == j)) [
    | inl same ↦
        subst (λ k. AtRun k (turn i w)) ((eq_iff i j).0 same)
          (turn_runs i w e
            (running-started i w (subst (λ k. AtRun k w) (sym ((eq_iff i j).0 same)) on)))
    | inr differs ↦ elim (turn-cases i w e) [
      | inl (off, same) ↦ subst (AtRun j) (sym same) on
      | inr (c, s, same) ↦ subst (AtRun j) (sym same) (
          subst (IsAccepted h)
            (sym (start_others h settings i w c s j (λ p. ground (arith, p, differs, eq_iff i j))))
            on)
    ]
  ]

  turn_keeps_started :
      (i j : Text) (w : World h)
      → (start_started h settings i w).0 ≡ ok tt
      → At is_started j w
      → At is_started j (turn i w)
  turn_keeps_started i j w e on = elim (Bool-cases (i == j)) [
    | inl same ↦
        let p = (eq_iff i j).0 same in
        subst (λ k. At is_started k (turn i w)) p
          (running-started i (turn i w)
            (turn_runs i w e (subst (λ k. At is_started k w) (sym p) on)))
    | inr differs ↦ elim (turn-cases i w e) [
      | inl (off, same) ↦ ground arith
      | inr (c, s, same) ↦
          ground
            (arith, start_others h settings i w c s j (λ p. ground (arith, p, differs, eq_iff i j)))
    ]
  ]

  turn_commits :
      (i : Text) (w : World h)
      → (start_started h settings i w).0 ≡ ok tt
      → w.db ≡ w.session
      → (turn i w).db ≡ (turn i w).session
  turn_commits i w e same_tables = elim (turn-cases i w e) [
    | inl (off, same) ↦ ground arith
    | inr (c, s, same) ↦ ground (arith, start_commits h settings i w c s)
  ]

  -- The miniverse `j` is started and still to come, or it runs.
  abbrev Due : List Text → Text → World h → Type 0
  Due ids j w = (exists (λ i. i == j) ids ≡ true) × At is_started j w ⊎ AtRun j w

  turn-Due :
      (i : Text) (ids : List Text) (j : Text) (w : World h)
      → (start_started h settings i w).0 ≡ ok tt
      → Due (i ∷ ids) j w
      → Due ids j (turn i w)
  turn-Due i ids j w e (inr on) = inr (turn_keeps_running i j w e on)
  turn-Due i ids j w e (inl (member, on)) = elim (Bool-cases (i == j)) [
    | inl same ↦
        let p = (eq_iff i j).0 same in
        inr (
          subst (λ k. AtRun k (turn i w)) p
            (turn_runs i w e (subst (λ k. At is_started k w) (sym p) on)))
    | inr differs ↦ inl (ground (arith, member, differs), turn_keeps_started i j w e on)
  ]

  each_runs :
      (ids : List Text) (j : Text) (w : World h)
      → (start_each h settings ids w).0 ≡ ok tt
      → w.db ≡ w.session
      → Due ids j w
      → IsAccepted h (row j (start_each h settings ids w).1.db)
  unfolding start_each
  each_runs [] j w e same (inl (member, on)) = absurd (ground (arith, member))
  each_runs [] j w e same (inr on) = subst (λ t. IsAccepted h (row j t)) (sym same) on
  each_runs (i ∷ ids) j w e same due = elim (Result-cases (start_started h settings i w).0) [
    | inr (x, r) ↦ absurd (ground (arith, e, r))
    | inl (u, r) ↦
        let next : start_each h settings (i ∷ ids) w ≡ start_each h settings ids (turn i w) =
          ground (arith, r) in
        subst (λ z. IsAccepted h (row j z.1.db)) (sym next)
          (each_runs ids j (turn i w) (ground (arith, e, r)) (turn_commits i w r same)
            (turn-Due i ids j w r due))
  ]

  listed :
      (j : Text) (m : Miniverse) (ms : List Miniverse)
      → first (has_miniverse_id j) ms ≡ some m
      → exists (λ i. i == j) (map (λ (m : Miniverse). m.id) ms) ≡ true
  listed j m [] e = cc
  listed j m (n ∷ ms) e = ground (arith, listed j m ms)

  start_proxy-db : (w : World h) → (start_proxy_containers h settings w).1.db ≡ w.db
  unfolding start_proxy_containers
  start_proxy-db w = ground arith

  -- When `docker_startup` returns, every miniverse that the database called started before is committed as
  -- started in a container which the daemon was asked to start, and accepted to.
  pub docker_startup_runs :
      (j : Text) (m : Miniverse) (w : World h)
      → row j w.db ≡ some m
      → m.started ≡ true
      → (docker_startup h settings w).0 ≡ ok tt
      → IsAccepted h (row j (docker_startup h settings w).1.db)
  unfolding docker_startup
  docker_startup_runs j m w r on e =
      let p = (start_proxy_containers h settings w).1 in
      let fresh : World h = record p { session = p.db } in
      let ids = map (λ (m : Miniverse). m.id) p.db.miniverses in
      let there : row j p.db ≡ some m = ap (row j) (start_proxy-db w) ∙ r in
      elim (Result-cases (start_proxy_containers h settings w).0) [
        | inr (x, f) ↦ absurd (ground (arith, e, f))
        | inl (u, f) ↦
            let same : (docker_startup h settings w).1.db ≡ (start_each h settings ids fresh).1.db =
              ground (arith, f) in
            subst (λ t. IsAccepted h (row j t)) (sym same)
              (each_runs ids j fresh (ground (arith, e, f)) refl
                (inl (listed j m p.db.miniverses there, ground (arith, there, on))))
      ]
