-- ===== src/Minecraft/Uncached.antt =====
-- How often Modrinth is asked for the versions.
use miniverse_backend.Base.{
  ◌≡◌, refl, ap, ◌∙◌, false, ℕ, zero, suc, none, Text, str, ◌==◌, Result, Action, Result-cases, inl,
  inr, arith,
}
use miniverse_backend.Base.Dict.{Dict, lookup, lookup-insert}
use miniverse_backend.Json.{Json}
use miniverse_backend.Minecraft.Catalogue.{get_minecraft_versions}

-- The state after so many calls, whether they succeed or not.
abbrev pub after : {S A : Type 0} → ℕ → Action S A → S → S
after zero m s = s
after (suc n) m s = after n m (m s).1

keys_differ : (str "minecraft_versions" == str "versions") ≡ false
unfolding ◌==◌
keys_differ = refl

module _ {S : Type 0} (fromisoformat : Text → Result ℕ) (fetch : Action S Json) where
  one_call :
      (c : Dict Json) (s : S)
      → lookup (str "versions") c ≡ none
      → ((get_minecraft_versions fromisoformat fetch (c, s)).1.1 ≡ (fetch s).1)
        × (lookup (str "versions") (get_minecraft_versions fromisoformat fetch (c, s)).1.0 ≡ none)
  unfolding get_minecraft_versions
  one_call c s e = elim (Result-cases (fetch s).0) [
    | inl (d, r) ↦
        ground
          (arith, e, r, lookup-insert (str "versions") (str "minecraft_versions") d c, keys_differ)
    | inr (x, r) ↦ ground (arith, e, r)
  ]

  -- The versions are read under one key of the cache and written under another. Where nothing else has written
  -- the first one, every call asks Modrinth, whatever was answered before and whether the call succeeds.
  pub calls_ask :
      (n : ℕ) (c : Dict Json) (s : S)
      → lookup (str "versions") c ≡ none
      → ((after n (get_minecraft_versions fromisoformat fetch) (c, s)).1 ≡ after n fetch s)
        × (lookup (str "versions") (after n (get_minecraft_versions fromisoformat fetch) (c, s)).0
            ≡ none)
  calls_ask zero c s e = (refl, e)
  calls_ask (suc n) c s e =
      let next = (get_minecraft_versions fromisoformat fetch (c, s)).1 in
      let (asked, absent) = one_call c s e in
      let (all, gone) = calls_ask n next.0 next.1 absent in (all ∙ ap (after n fetch) asked, gone)
