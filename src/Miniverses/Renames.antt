-- ===== src/Miniverses/Renames.antt =====
-- What the loop over the fields of an update keeps of the rows as a whole.
use miniverse_backend.Base.{
  Option-cases, Result-cases, Bool-cases, sym, subst, ◌⊎◌, inl, inr, ◌≡◌, refl, false, not, ◌&&◌,
  List, [], ◌∷◌, Text, ◌==◌, eq_iff, exists, adjust, arith,
}
use miniverse_backend.Models.{Miniverse}
use miniverse_backend.Miniverses.World.{Host, World, has_miniverse_id, row}
use miniverse_backend.Miniverses.Update.{
  Field, MiniverseData, is_changed, set_field, is_used, update_field, update_fields,
}

-- No two miniverses of the list have the same text.
abbrev pub IsUnique : (Miniverse → Text) → List Miniverse → Type 0
IsUnique f [] = Unit
IsUnique f (m ∷ ms) = (exists (λ n. f n == f m) ms ≡ false) × IsUnique f ms

-- One row for each id, each name and each subdomain.
abbrev pub IsDistinct : List Miniverse → Type 0
IsDistinct ms = IsUnique (λ m. m.id) ms × IsUnique (λ m. m.name) ms × IsUnique (λ m. m.subdomain) ms

module _ (f : Miniverse → Text) (i : Text) (g : Miniverse → Miniverse) where
  exists-adjust_same :
      (x : Text) (ms : List Miniverse)
      → ((m : Miniverse) → f (g m) ≡ f m)
      → exists (λ n. f n == x) (adjust (has_miniverse_id i) g ms) ≡ exists (λ n. f n == x) ms
  exists-adjust_same x [] s = refl
  exists-adjust_same x (m ∷ ms) s = ground (arith, exists-adjust_same x ms s, s m)

module _ (f : Miniverse → Text) (i : Text) (g : Miniverse → Miniverse) (v : Text) where
  exists-adjust_new :
      (x : Text) (ms : List Miniverse)
      → ((m : Miniverse) → f (g m) ≡ v)
      → (v == x) ≡ false
      → exists (λ n. f n == x) ms ≡ false
      → exists (λ n. f n == x) (adjust (has_miniverse_id i) g ms) ≡ false
  exists-adjust_new x [] gv e n = refl
  exists-adjust_new x (m ∷ ms) gv e n = ground (arith, exists-adjust_new x ms gv e, gv m)

  exists-adjust_absent :
      (x : Text) (ms : List Miniverse)
      → exists (λ n. n.id == i) ms ≡ false
      → exists (λ n. f n == x) (adjust (has_miniverse_id i) g ms) ≡ exists (λ n. f n == x) ms
  exists-adjust_absent x [] e = refl
  exists-adjust_absent x (m ∷ ms) e = ground (arith, exists-adjust_absent x ms)

  IsUnique-adjust_absent :
      (ms : List Miniverse)
      → exists (λ n. n.id == i) ms ≡ false
      → IsUnique f ms
      → IsUnique f (adjust (has_miniverse_id i) g ms)
  IsUnique-adjust_absent [] e u = u
  IsUnique-adjust_absent (m ∷ ms) e (b, u) =
      (ground (arith, exists-adjust_absent (f m) ms), IsUnique-adjust_absent ms (ground arith) u)

  -- A fresh text for the row of one id.
  IsUnique-adjust_new :
      (ms : List Miniverse)
      → ((m : Miniverse) → f (g m) ≡ v)
      → exists (λ n. f n == v) ms ≡ false
      → IsUnique (λ m. m.id) ms
      → IsUnique f ms
      → IsUnique f (adjust (has_miniverse_id i) g ms)
  IsUnique-adjust_new [] gv n k u = u
  IsUnique-adjust_new (m ∷ ms) gv n (a, k) (b, u) = (
    ground (
      arith,
      exists-adjust_absent v ms,
      exists-adjust_new (f m) ms gv,
      eq_iff m.id i,
      eq_iff (f m) v,
      eq_iff v (f m),
      gv m,
    ),
    IsUnique-adjust_new ms gv (ground arith) k u,
  )

IsUnique-adjust_same :
    (f : Miniverse → Text) (i : Text) (g : Miniverse → Miniverse) (ms : List Miniverse)
    → ((m : Miniverse) → f (g m) ≡ f m)
    → IsUnique f ms
    → IsUnique f (adjust (has_miniverse_id i) g ms)
IsUnique-adjust_same f i g [] s u = u
IsUnique-adjust_same f i g (m ∷ ms) s (b, u) =
    (ground (arith, exists-adjust_same f i g (f m) ms s, s m), IsUnique-adjust_same f i g ms s u)

IsDistinct-adjust_same :
    (i : Text) (g : Miniverse → Miniverse) (ms : List Miniverse)
    → ((m : Miniverse)
        → ((g m).id ≡ m.id) × ((g m).name ≡ m.name) × ((g m).subdomain ≡ m.subdomain))
    → IsDistinct ms
    → IsDistinct (adjust (has_miniverse_id i) g ms)
IsDistinct-adjust_same i g ms s (k, u, v) = (
  IsUnique-adjust_same (λ m. m.id) i g ms (λ m. (s m).0) k,
  IsUnique-adjust_same (λ m. m.name) i g ms (λ m. (s m).1) u,
  IsUnique-adjust_same (λ m. m.subdomain) i g ms (λ m. (s m).2) v,
)

module _ (i : Text) (d : MiniverseData) where
  set_name-IsUnique :
      (ms : List Miniverse)
      → is_used Field.name d ms ≡ false
      → IsUnique (λ m. m.id) ms
      → IsUnique (λ m. m.name) ms
      → IsUnique (λ m. m.name) (adjust (has_miniverse_id i) (set_field Field.name d) ms)
  unfolding is_used set_field
  set_name-IsUnique ms n k u = elim (Option-cases d.name) [
    | inl e ↦ IsUnique-adjust_same (λ m. m.name) i (set_field Field.name d) ms (λ m. ground arith) u
    | inr (v, e) ↦
        IsUnique-adjust_new (λ m. m.name) i (set_field Field.name d) v ms (λ m. ground arith)
          (ground arith) k u
  ]

  set_subdomain-IsUnique :
      (ms : List Miniverse)
      → is_used Field.subdomain d ms ≡ false
      → IsUnique (λ m. m.id) ms
      → IsUnique (λ m. m.subdomain) ms
      → IsUnique (λ m. m.subdomain) (adjust (has_miniverse_id i) (set_field Field.subdomain d) ms)
  unfolding is_used set_field
  set_subdomain-IsUnique ms n k u = elim (Option-cases d.subdomain) [
    | inl e ↦
        IsUnique-adjust_same (λ m. m.subdomain) i (set_field Field.subdomain d) ms
          (λ m. ground arith) u
    | inr (v, e) ↦
        IsUnique-adjust_new (λ m. m.subdomain) i (set_field Field.subdomain d) v ms
          (λ m. ground arith) (ground arith) k u
  ]

  -- What the application needs of the rows: one per id, per name and per subdomain.
  set_field-IsDistinct :
      (field : Field) (ms : List Miniverse)
      → is_used field d ms ≡ false
      → IsDistinct ms
      → IsDistinct (adjust (has_miniverse_id i) (set_field field d) ms)
  unfolding set_field
  set_field-IsDistinct Field.name ms n (k, u, v) = (
    IsUnique-adjust_same (λ m. m.id) i (set_field Field.name d) ms (λ m. refl) k,
    set_name-IsUnique ms n k u,
    IsUnique-adjust_same (λ m. m.subdomain) i (set_field Field.name d) ms (λ m. refl) v,
  )
  set_field-IsDistinct Field.subdomain ms n (k, u, v) = (
    IsUnique-adjust_same (λ m. m.id) i (set_field Field.subdomain d) ms (λ m. refl) k,
    IsUnique-adjust_same (λ m. m.name) i (set_field Field.subdomain d) ms (λ m. refl) u,
    set_subdomain-IsUnique ms n k v,
  )
  set_field-IsDistinct Field.description ms n k =
      IsDistinct-adjust_same i (set_field Field.description d) ms (λ m. (refl, refl, refl)) k
  set_field-IsDistinct Field.java_version ms n k =
      IsDistinct-adjust_same i (set_field Field.java_version d) ms (λ m. (refl, refl, refl)) k
  set_field-IsDistinct Field.allow_bedrock ms n k =
      IsDistinct-adjust_same i (set_field Field.allow_bedrock d) ms (λ m. (refl, refl, refl)) k
  set_field-IsDistinct Field.online_mode ms n k =
      IsDistinct-adjust_same i (set_field Field.online_mode d) ms (λ m. (refl, refl, refl)) k

module _ (h : Host) (i : Text) (d : MiniverseData) where
  update_field-cases :
      (field : Field) (w : World h)
      → ((update_field h i d field w).1.session.miniverses ≡ w.session.miniverses)
        ⊎ (((update_field h i d field w).1.session.miniverses
              ≡ adjust (has_miniverse_id i) (set_field field d) w.session.miniverses)
            × (is_used field d w.session.miniverses ≡ false))
  unfolding update_field
  update_field-cases field w = elim (Option-cases (row i w.session)) [
    | inl e ↦ inl (ground arith)
    | inr (m, e) ↦
        elim (Bool-cases (is_changed field d m && not (is_used field d w.session.miniverses))) [
          | inl c ↦ inr (ground arith, ground arith)
          | inr c ↦ inl (ground arith)
        ]
  ]

  update_field-IsDistinct :
      (field : Field) (w : World h)
      → IsDistinct w.session.miniverses
      → IsDistinct (update_field h i d field w).1.session.miniverses
  update_field-IsDistinct field w u = elim (update_field-cases field w) [
    | inl e ↦ subst IsDistinct (sym e) u
    | inr (e, n) ↦
        subst IsDistinct (sym e) (set_field-IsDistinct i d field w.session.miniverses n u)
  ]

  update_fields-cases :
      (field : Field) (fields : List Field) (w : World h)
      → ((update_fields h i d (field ∷ fields) w).1 ≡ (update_field h i d field w).1)
        ⊎ ((update_fields h i d (field ∷ fields) w).1
            ≡ (update_fields h i d fields (update_field h i d field w).1).1)
  unfolding update_fields
  update_fields-cases field fields w = elim (Result-cases (update_field h i d field w).0) [
    | inl (b, r) ↦
        elim (Result-cases (update_fields h i d fields (update_field h i d field w).1).0) [
          | inl (c, q) ↦ inr (ground arith)
          | inr (c, q) ↦ inr (ground arith)
        ]
    | inr (e, r) ↦ inl (ground arith)
  ]

  -- The loop over any of the fields keeps the rows distinct by id, by name and by subdomain, whether it
  -- succeeds or raises.
  pub update_fields-IsDistinct :
      (fields : List Field) (w : World h)
      → IsDistinct w.session.miniverses
      → IsDistinct (update_fields h i d fields w).1.session.miniverses
  unfolding update_fields
  update_fields-IsDistinct [] w u = u
  update_fields-IsDistinct (field ∷ fields) w u = elim (update_fields-cases field fields w) [
    | inl e ↦
        subst (λ v. IsDistinct v.session.miniverses) (sym e) (update_field-IsDistinct field w u)
    | inr e ↦
        subst (λ v. IsDistinct v.session.miniverses) (sym e)
          (update_fields-IsDistinct fields (update_field h i d field w).1
            (update_field-IsDistinct field w u))
  ]
