-- ===== src/Minecraft/Since.antt =====
-- Which versions the route gives for a least version.
use miniverse_backend.Base.{
  ◌≡◌, refl, ap, ◌∙◌, ℕ, suc, ◌+◌, Bool, true, false, Bool-cases, Option-cases, none, some, List,
  [], ◌∷◌, ◌++◌, Text, ◌==◌, exists, length, ok, err, Error, arith, inl, inr, ◌⊎◌,
}
use miniverse_backend.Version.Compare.{MinecraftVersion}
use miniverse_backend.Minecraft.Catalogue.{index_from, normal, take, list_since}

abbrev pub is_named : Text → MinecraftVersion → Bool
is_named m v = v.version == m

-- Where a version is found: what stands before it, and that nothing there has the name.
pub record Found (m : Text) (vs : List MinecraftVersion) : Type 0 where
  pub front : List MinecraftVersion
  pub hit : MinecraftVersion
  pub rest : List MinecraftVersion
  pub split : vs ≡ front ++ hit ∷ rest
  pub named : is_named m hit ≡ true
  pub earliest : exists (is_named m) front ≡ false

index_from-none :
    (i : ℕ) (m : Text) (vs : List MinecraftVersion)
    → index_from i m vs ≡ none
    → exists (is_named m) vs ≡ false
unfolding index_from
index_from-none i m [] e = refl
index_from-none i m (v ∷ vs) e = ground (arith, index_from-none (suc i) m vs)

index_from-some :
    (i j : ℕ) (m : Text) (vs : List MinecraftVersion)
    → index_from i m vs ≡ some j
    → (f : Found m vs) × (j ≡ i + length f.front)
unfolding index_from
index_from-some i j m [] e = cc
index_from-some i j m (v ∷ vs) e = elim (Bool-cases (is_named m v)) [
  | inl hit ↦ (
    record { front = []; hit = v; rest = vs; split = refl; named = hit; earliest = refl },
    ground (arith, e, hit),
  )
  | inr miss ↦
      let (f, at) = index_from-some (suc i) j m vs (ground (arith, e, miss)) in
      (
        record {
          front = v ∷ f.front;
          hit = f.hit;
          rest = f.rest;
          split = ap (λ l. v ∷ l) f.split;
          named = f.named;
          earliest = ground (arith, miss, f.earliest);
        },
        omega (arith, at),
      )
]

take-front :
    (front : List MinecraftVersion) (v : MinecraftVersion) (rest : List MinecraftVersion)
    → take (suc (length front)) (front ++ v ∷ rest) ≡ front ++ v ∷ []
take-front [] v rest = refl
take-front (w ∷ front) v rest = ap (λ l. w ∷ l) (take-front front v rest)

take-Found :
    (m : Text) (vs : List MinecraftVersion) (f : Found m vs) (j : ℕ)
    → j ≡ 0 + length f.front
    → take (suc j) vs ≡ f.front ++ f.hit ∷ []
take-Found m vs f j at =
    let e : j ≡ length f.front = omega (arith, at) in
    ap (take (suc j)) f.split
    ∙ ap (λ n. take (suc n) (f.front ++ f.hit ∷ f.rest)) e
    ∙ take-front f.front f.hit f.rest

-- For a least version that the catalogue has, the answer is the beginning of the catalogue up to its first
-- entry of that name, that entry included; for any other one it is "not found".
pub list_since-up_to :
    (m : Text) (vs : List MinecraftVersion)
    → ((f : Found (normal m) vs) × (list_since (some m) vs ≡ ok (f.front ++ f.hit ∷ [])))
      ⊎ ((exists (is_named (normal m)) vs ≡ false) × (list_since (some m) vs ≡ err Error.not_found))
unfolding list_since
list_since-up_to m vs = elim (Option-cases (index_from 0 (normal m) vs)) [
  | inl e ↦ inr (index_from-none 0 (normal m) vs e, ground (arith, e))
  | inr (j, e) ↦
      let (f, at) = index_from-some 0 j (normal m) vs e in
      inl (f, ground (arith, e, take-Found (normal m) vs f j at))
]
