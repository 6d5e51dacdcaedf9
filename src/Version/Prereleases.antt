-- ===== src/Version/Prereleases.antt =====
-- How two prereleases of one version compare: `compare_versions` passes the suffixes "pre" and "rc"
-- to `compare_prerelease_identifiers`, which expects "pre2" or "rc1".
use miniverse_backend.Base.{
  ◌≡◌, ◌≢◌, ◌∙◌, refl, Option, none, some, eq_refl, List, Text, ◌==◌, eq_iff, length, true, Result,
  ok, err, Error, arith,
}
use miniverse_backend.Base.Int.{ℤ, pos}
use miniverse_backend.Version.Scan.{int, one_or_more, pre_or_rc, digits, span, literal}
use miniverse_backend.Version.Grammar.{ParsedMinecraftVersion, parse_version, prerelease}
use miniverse_backend.Version.Digits.{IsDigits, three_part}
use miniverse_backend.Version.Parse.{
  IsShort, Word, pre, rc, word, tag, prerelease_old, parse-prerelease,
}
use miniverse_backend.Version.Compare.{
  MinecraftVersion, compare_parsed, compare_versions, compare_prerelease_identifiers,
  prerelease_identifier, compare_suffixes,
}
use miniverse_backend.Version.Order.{compare_main_versions_lex}

-- The answer for the suffixes alone.
words_compared : (w x : Word) → Result (Option ℤ)
words_compared pre pre = ok (some (pos 0))
words_compared rc rc = ok (some (pos 0))
words_compared pre rc = err Error.attribute_error
words_compared rc pre = err Error.attribute_error

identifiers-words :
    (w x : Word) → compare_prerelease_identifiers (word w) (word x) ≡ words_compared w x
unfolding compare_prerelease_identifiers prerelease_identifier pre_or_rc digits span literal ◌==◌
    words_compared
identifiers-words pre pre = refl
identifiers-words pre rc = refl
identifiers-words rc pre = refl
identifiers-words rc rc = refl

words_compared_same : (w x : Word) → w ≡ x → words_compared w x ≡ ok (some (pos 0))
unfolding words_compared
words_compared_same w x e = ground arith

words_compared_ne : (w x : Word) → w ≢ x → words_compared w x ≡ err Error.attribute_error
unfolding words_compared
words_compared_ne w x h = ground arith

suffixes_refl : (s : Option Text) → compare_suffixes s s ≡ ok (some (pos 0))
unfolding compare_prerelease_identifiers
suffixes_refl none = refl
suffixes_refl (some i) = rw eq_refl

by_suffixes :
    (versions : Result (List MinecraftVersion)) (u v : Text) (p q : ParsedMinecraftVersion)
    → parse_version u ≡ some p
    → parse_version v ≡ some q
    → p.type ≡ prerelease
    → q.type ≡ prerelease
    → (p.major ≡ q.major) × (p.minor ≡ q.minor) × (p.patch ≡ q.patch)
    → compare_suffixes p.suffix q.suffix ≢ ok (some (pos 0))
    → compare_versions versions u v ≡ compare_suffixes p.suffix q.suffix
unfolding compare_versions compare_parsed
by_suffixes versions u v p q hp hq tp tq same other = ground (
  arith,
  eq_iff u v,
  suffixes_refl p.suffix,
  (compare_main_versions_lex p.major p.minor p.patch q.major q.minor q.patch).2.1 same,
)

same_suffix :
    (versions : Result (List MinecraftVersion)) (u v : Text) (p q : ParsedMinecraftVersion)
    → parse_version u ≡ some p
    → parse_version v ≡ some q
    → p.type ≡ prerelease
    → q.type ≡ prerelease
    → (p.major ≡ q.major) × (p.minor ≡ q.minor) × (p.patch ≡ q.patch)
    → compare_suffixes p.suffix q.suffix ≡ ok (some (pos 0))
    → compare_versions versions u v ≡ ok (some (pos 0))
unfolding compare_versions compare_parsed
same_suffix versions u v p q hp hq tp tq same e =
    ground
      (arith, (compare_main_versions_lex p.major p.minor p.patch q.major q.minor q.patch).2.1 same)

-- Two prereleases of one version: with the same word they compare as equal, whatever their numbers
-- are, so 1.20-pre1 is not before 1.20-pre2; with different words the comparison raises
-- `AttributeError`, so 1.20-pre1 cannot be compared with 1.20-rc1.
compare_prereleases :
    (versions : Result (List MinecraftVersion)) (a b c n m : Text) (w x : Word)
    → IsShort a
    → IsShort b
    → IsShort c
    → IsDigits n
    → IsDigits m
    → one_or_more (length n) ≡ true
    → one_or_more (length m) ≡ true
    → w ≢ x
    → (compare_versions versions (three_part a b c (tag w n)) (three_part a b c (tag w m))
        ≡ ok (some (pos 0)))
      × (compare_versions versions (three_part a b c (tag w n)) (three_part a b c (tag x m))
          ≡ err Error.attribute_error)
compare_prereleases versions a b c n m w x sa sb sc dn dm n1 m1 h =
    let u = three_part a b c (tag w n) in
    let v = three_part a b c (tag x m) in
    let p = prerelease_old u (int a) (int b) (int c) w (int n) in
    let q = prerelease_old v (int a) (int b) (int c) x (int m) in
    let hp = (parse-prerelease a b c n w sa sb sc dn n1).0 in
    let hq = (parse-prerelease a b c m x sa sb sc dm m1).0 in
    let answer = identifiers-words w x in
    let u' = three_part a b c (tag w m) in
    let p' = prerelease_old u' (int a) (int b) (int c) w (int m) in
    let hp' = (parse-prerelease a b c m w sa sb sc dm m1).0 in
    (
      same_suffix versions u u' p p' hp hp' refl refl (refl, refl, refl)
          (identifiers-words w w ∙ words_compared_same w w refl),
      by_suffixes versions u v p q hp hq refl refl (refl, refl, refl)
            (rw (answer, words_compared_ne w x h) (ground arith))
          ∙ answer
          ∙ words_compared_ne w x h,
    )
