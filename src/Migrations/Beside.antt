-- ===== src/Migrations/Beside.antt =====
-- The operations on a schema with further tables in front, which have other names.
use mathlib.Core.List.{append_assoc}
use miniverse_backend.Base.{
  ◌≡◌, refl, ap, ◌∙◌, Bool, true, false, not, ◌&&◌, List, [], ◌∷◌, ◌++◌, Text, ◌==◌, keep, exists,
  adjust, Result, ok, err, arith,
}
use miniverse_backend.Migrations.Schema.{
  Index, ForeignKey, Table, Schema, ◌>>=◌, guard, is_table, has_table, is_referred, with_index,
  without_index, create_table, drop_table, create_index, drop_index, Column, has_column,
  with_column, without_column, with_nullable, add_column, drop_column, alter_nullable,
}

exists-append :
    {A : Type 0} (p : A → Bool) (xs ys : List A)
    → exists p xs ≡ false
    → exists p (xs ++ ys) ≡ exists p ys
exists-append p [] ys e = refl
exists-append p (x ∷ xs) ys e = ground (arith, exists-append p xs ys)

adjust-append :
    (n : Text) (f : Table → Table) (s r : Schema)
    → has_table n s ≡ false
    → adjust (is_table n) f (s ++ r) ≡ s ++ adjust (is_table n) f r
adjust-append n f [] r e = refl
adjust-append n f (t ∷ s) r e = ground (arith, adjust-append n f s r)

keep-append :
    (n : Text) (s r : Schema)
    → has_table n s ≡ false
    → keep (λ t. not (is_table n t)) (s ++ r) ≡ s ++ keep (λ t. not (is_table n t)) r
keep-append n [] r e = refl
keep-append n (t ∷ s) r e = ground (arith, keep-append n s r)

exists-none :
    {A : Type 0} (p q : A → Bool) (xs : List A)
    → exists p xs ≡ false
    → exists (λ x. p x && q x) xs ≡ false
exists-none p q [] e = refl
exists-none p q (x ∷ xs) e = ground (arith, exists-none p q xs)

-- The tables `s` and more of them.
module _ (s : Schema) where
  abbrev pub put : Result Schema → Result Schema
  put (ok r) = ok (s ++ r)
  put (err e) = err e

  -- An operation that leaves the tables of `s` alone.
  abbrev pub IsBeside : (Schema → Result Schema) → Type 0
  IsBeside f = (r : Schema) → f (s ++ r) ≡ put (f r)

  pub bind-IsBeside :
      (f g : Schema → Result Schema) → IsBeside f → IsBeside g → IsBeside (λ r. f r >>= g)
  bind-IsBeside f g p q r = ap (λ z. z >>= g) (p r) ∙ put-bind (f r)
    where
      put-bind : (x : Result Schema) → (put x >>= g) ≡ put (x >>= g)
      put-bind (ok a) = q a
      put-bind (err e) = refl

  guard-put : (b c : Bool) (t r : Schema) → b ≡ c → t ≡ s ++ r → guard b t ≡ put (guard c r)
  guard-put b true t r e f = ground (arith, e, f)
  guard-put b false t r e f = ground (arith, e, f)

  keys-append :
      (r : Schema) (ks : List ForeignKey)
      → exists (λ k. has_table k.table s) ks ≡ false
      → exists (λ k. not (has_table k.table (s ++ r))) ks
        ≡ exists (λ k. not (has_table k.table r)) ks
  keys-append r [] e = refl
  keys-append r (k ∷ ks) e =
      ground (arith, e, keys-append r ks, exists-append (is_table k.table) s r)

  pub create-IsBeside :
      (t : Table)
      → has_table t.name s ≡ false
      → exists (λ k. has_table k.table s) t.foreign_keys ≡ false
      → IsBeside (create_table t)
  unfolding create_table
  create-IsBeside t e k r =
      guard-put _ _ _ (r ++ t ∷ [])
        (ground (arith, exists-append (is_table t.name) s r e, keys-append r t.foreign_keys k))
        (append_assoc s r (t ∷ []))

  pub drop-IsBeside :
      (n : Text) → has_table n s ≡ false → is_referred n s ≡ false → IsBeside (drop_table n)
  unfolding drop_table
  drop-IsBeside n e k r =
      guard-put _ _ _ _
        (ground (
          arith,
          exists-append (is_table n) s r e,
          exists-append (λ t. not (is_table n t) && exists (λ k. k.table == n) t.foreign_keys) s r
              k,
        ))
        (keep-append n s r e)

  pub create_index-IsBeside :
      (n : Text) (i : Index) → has_table n s ≡ false → IsBeside (create_index n i)
  unfolding create_index
  create_index-IsBeside n i e r =
      guard-put _ _ _ _ (exists-append _ s r (exists-none (is_table n) _ s e))
        (adjust-append n (with_index i) s r e)

  pub drop_index-IsBeside : (i n : Text) → has_table n s ≡ false → IsBeside (drop_index i n)
  unfolding drop_index
  drop_index-IsBeside i n e r =
      guard-put _ _ _ _ (exists-append _ s r (exists-none (is_table n) _ s e))
        (adjust-append n (without_index i) s r e)

  column_guard :
      (n c : Text) (r : Schema) → has_table n s ≡ false → has_column n c (s ++ r) ≡ has_column n c r
  column_guard n c r e = exists-append _ s r (exists-none (is_table n) _ s e)

  pub add-IsBeside : (n : Text) (c : Column) → has_table n s ≡ false → IsBeside (add_column n c)
  unfolding add_column
  add-IsBeside n c e r =
      guard-put _ _ _ _
        (ground (arith, exists-append (is_table n) s r e, column_guard n c.name r e))
        (adjust-append n (with_column c) s r e)

  pub column-IsBeside : (n c : Text) → has_table n s ≡ false → IsBeside (drop_column n c)
  unfolding drop_column
  column-IsBeside n c e r =
      guard-put _ _ _ _ (column_guard n c r e) (adjust-append n (without_column c) s r e)

  pub alter-IsBeside :
      (n c : Text) (b : Bool) → has_table n s ≡ false → IsBeside (alter_nullable n c b)
  unfolding alter_nullable
  alter-IsBeside n c b e r =
      guard-put _ _ _ _ (column_guard n c r e) (adjust-append n (with_nullable c b) s r e)
