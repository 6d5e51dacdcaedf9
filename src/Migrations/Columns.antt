-- ===== src/Migrations/Columns.antt =====
-- Adding a column and dropping it again.
use miniverse_backend.Base.{
  ◌≡◌, refl, subst, Bool, true, false, not, ◌&&◌, Bool-cases, inl, inr, List, [], ◌∷◌, ◌++◌, Text,
  str, eq_refl, keep, exists, adjust, ok, arith,
}
use miniverse_backend.Migrations.Schema.{
  Column, Schema, guard, is_table, is_column, has_table, has_column, with_column, without_column,
  set_nullable, with_nullable, add_column, drop_column, alter_nullable, ◌>>=◌,
}
use miniverse_backend.Migrations.Revisions.{
  miniverses, allow_bedrock_upgrade, allow_bedrock_downgrade, java_version_upgrade,
  java_version_downgrade, online_mode_upgrade, online_mode_downgrade,
}

-- A guarded operation that succeeds passed its guard and gives its schema.
pub guard-ok : (b : Bool) (s s' : Schema) → guard b s ≡ ok s' → (b ≡ true) × (s ≡ s')
guard-ok true s s' e = (refl, ground (arith, e))
guard-ok false s s' e = cc

exists-snoc : (c : Column) (cs : List Column) → exists (is_column c.name) (cs ++ c ∷ []) ≡ true
exists-snoc c [] = ground (arith, eq_refl c.name)
exists-snoc c (d ∷ cs) = ground (arith, exists-snoc c cs)

keep-snoc :
    (c : Column) (cs : List Column)
    → exists (is_column c.name) cs ≡ false
    → keep (λ d. not (is_column c.name d)) (cs ++ c ∷ []) ≡ cs
keep-snoc c [] e = ground (arith, eq_refl c.name)
keep-snoc c (d ∷ cs) e = ground (arith, keep-snoc c cs)

has-added :
    (n : Text) (c : Column) (s : Schema)
    → has_table n s ≡ true
    → has_column n c.name (adjust (is_table n) (with_column c) s) ≡ true
has-added n c [] e = cc
has-added n c (t ∷ s) e = ground (arith, has-added n c s, exists-snoc c t.columns)

drop-added :
    (n : Text) (c : Column) (s : Schema)
    → has_column n c.name s ≡ false
    → adjust (is_table n) (without_column c.name) (adjust (is_table n) (with_column c) s) ≡ s
drop-added n c [] e = refl
drop-added n c (t ∷ s) e = ground (arith, drop-added n c s, keep-snoc c t.columns)

-- Dropping a column that was just added gives the schema back.
add_drop :
    (n : Text) (c : Column) (s s' : Schema)
    → add_column n c s ≡ ok s'
    → drop_column n c.name s' ≡ ok s
unfolding add_column drop_column
add_drop n c s s' e =
    let (passed, same) = guard-ok _ _ s' e in
    subst (λ z. drop_column n c.name z ≡ ok s) same
      (ground (
        arith,
        passed,
        has-added n c s (ground (arith, passed)),
        drop-added n c s (ground (arith, passed)),
      ))

module _ (c : Text) (b : Bool) where
  exists-nullable :
      (k : Text) (cs : List Column)
      → exists (is_column k) (adjust (is_column c) (set_nullable b) cs) ≡ exists (is_column k) cs
  exists-nullable k [] = refl
  exists-nullable k (d ∷ cs) = ground (arith, exists-nullable k cs)

  has-nullable :
      (n k : Text) (s : Schema)
      → has_column n k (adjust (is_table n) (with_nullable c b) s) ≡ has_column n k s
  has-nullable n k [] = refl
  has-nullable n k (t ∷ s) = ground (arith, has-nullable n k s, exists-nullable k t.columns)

columns-back :
    (j : Column) (c : Text) (cs : List Column)
    → exists (is_column j.name) cs ≡ false
    → keep
        (λ d. not (is_column j.name d))
        (adjust
          (is_column c)
          (set_nullable true)
          (adjust (is_column c) (set_nullable false) (cs ++ j ∷ [])))
      ≡ adjust (is_column c) (set_nullable true) cs
columns-back j c [] e = ground (arith, eq_refl j.name)
columns-back j c (d ∷ cs) e = ground (arith, columns-back j c cs)

schema-back :
    (n : Text) (j : Column) (c : Text) (s : Schema)
    → has_column n j.name s ≡ false
    → adjust (is_table n) (without_column j.name) (
        adjust
          (is_table n)
          (with_nullable c true)
          (adjust (is_table n) (with_nullable c false) (adjust (is_table n) (with_column j) s)))
      ≡ adjust (is_table n) (with_nullable c true) s
schema-back n j c [] e = refl
schema-back n j c (t ∷ s) e = ground (arith, schema-back n j c s, columns-back j c t.columns)

-- A column is added, another one altered, and both are undone.
alter_back :
    (n : Text) (j : Column) (c : Text) (s s' : Schema)
    → (add_column n j s >>= alter_nullable n c false) ≡ ok s'
    → (alter_nullable n c true s' >>= drop_column n j.name)
      ≡ ok (adjust (is_table n) (with_nullable c true) s)
unfolding add_column alter_nullable drop_column
alter_back n j c s s' e =
    let s1 = adjust (is_table n) (with_column j) s in
    let s2 = adjust (is_table n) (with_nullable c false) s1 in
    elim (Bool-cases (has_table n s && not (has_column n j.name s))) [
      | inr refused ↦ ground (arith, e, refused)
      | inl passed ↦ elim (Bool-cases (has_column n c s1)) [
        | inr missing ↦ ground (arith, e, passed, missing)
        | inl there ↦
            let same : s2 ≡ s' = ground (arith, e, passed, there) in
            subst
              (λ z.
                (alter_nullable n c true z >>= drop_column n j.name)
                ≡ ok (adjust (is_table n) (with_nullable c true) s))
              same
              (ground (
                arith,
                has-nullable c false n c s1,
                there,
                has-nullable c true n j.name s2,
                has-nullable c false n j.name s1,
                has-added n j s (ground (arith, passed)),
                schema-back n j c s (ground (arith, passed)),
              ))
      ]
    ]

java_version_undone :
    (s s' : Schema)
    → java_version_upgrade s ≡ ok s'
    → java_version_downgrade s'
      ≡ ok (adjust (is_table miniverses) (with_nullable (str "allow_bedrock") true) s)
unfolding java_version_upgrade java_version_downgrade
java_version_undone s s' e = alter_back miniverses _ (str "allow_bedrock") s s' e

-- The revisions after the first one, each undone where it could be applied. The two that add one column
-- give the schema back; the one that adds `java_version` gives it back but for `allow_bedrock`, which may
-- be null afterwards, also where it could not be before.
pub later_revisions_undone :
    (s s' t t' u u' : Schema)
    → allow_bedrock_upgrade s ≡ ok s'
    → java_version_upgrade t ≡ ok t'
    → online_mode_upgrade u ≡ ok u'
    → (allow_bedrock_downgrade s' ≡ ok s)
      × (java_version_downgrade t'
          ≡ ok (adjust (is_table miniverses) (with_nullable (str "allow_bedrock") true) t))
      × (online_mode_downgrade u' ≡ ok u)
unfolding allow_bedrock_upgrade allow_bedrock_downgrade online_mode_upgrade online_mode_downgrade
later_revisions_undone s s' t t' u u' e f g =
    (add_drop miniverses _ s s' e, java_version_undone t t' f, add_drop miniverses _ u u' g)
