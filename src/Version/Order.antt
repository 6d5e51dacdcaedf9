-- ===== src/Version/Order.antt =====
-- The order that the comparison functions compute.
use miniverse_backend.Base.{
  ℕ, ◌<◌, ◌≡◌, ◌↔◌, ◌≢◌, ◌⊎◌, refl, Bool, Option, none, some, List, [], Text, eq_iff, Result, ok,
  err, Error, arith, if◌then◌else◌, ◌||◌, suc,
}
use miniverse_backend.Base.Int.{ℤ, pos, negsuc, negate}
use miniverse_backend.Version.Scan.{int}
use miniverse_backend.Version.Grammar.{
  ParsedMinecraftVersion, VersionType, release, prerelease, snapshot, parse_version,
}
use miniverse_backend.Version.Digits.{three_part}
use miniverse_backend.Version.Parse.{IsShort, release_old, parse-release}
use miniverse_backend.Version.Compare.{
  MinecraftVersion, compare_main_versions, compare_parsed, compare_versions,
  compare_by_publish_date, compare_prerelease_identifiers, compare_suffixes, is_old_snapshot,
  unless_zero, compare_types,
}

-- The lexicographic order on major, minor and patch.
abbrev pub IsBefore : ℕ → ℕ → ℕ → ℕ → ℕ → ℕ → Type 0
IsBefore a b c d e f = (a < d) ⊎ ((a ≡ d) × ((b < e) ⊎ ((b ≡ e) × (c < f))))

-- `compare_main_versions` is the three-way comparison of the lexicographic order: -1 exactly for a
-- version before the other, 1 exactly for one after it, and 0 exactly for the same numbers.
pub compare_main_versions_lex :
    (a b c d e f : ℕ)
    → ((compare_main_versions a b c d e f 0 0 ≡ negsuc 0) ↔ IsBefore a b c d e f)
      × ((compare_main_versions a b c d e f 0 0 ≡ pos 1) ↔ IsBefore d e f a b c)
      × ((compare_main_versions a b c d e f 0 0 ≡ pos 0) ↔ ((a ≡ d) × (b ≡ e) × (c ≡ f)))
unfolding compare_main_versions
compare_main_versions_lex a b c d e f = ground arith

-- `-x` of a result that is an integer
abbrev pub negate_result : Result (Option ℤ) → Result (Option ℤ)
negate_result (ok (some z)) = ok (some (negate z))
negate_result (ok none) = ok none
negate_result (err e) = err e

compare_main-negate :
    (a b c d e f : ℕ)
    → compare_main_versions a b c d e f 0 0 ≡ negate (compare_main_versions d e f a b c 0 0)
unfolding compare_main_versions
compare_main-negate a b c d e f = ground arith

dates-negate :
    (versions : Result (List MinecraftVersion)) (v w : Text)
    → compare_by_publish_date versions v w ≡ negate_result (compare_by_publish_date versions w v)
unfolding compare_by_publish_date
dates-negate (err e) v w = refl
dates-negate (ok l) v w = ground arith

identifiers-negate :
    (i j : Text)
    → compare_prerelease_identifiers i j ≡ negate_result (compare_prerelease_identifiers j i)
unfolding compare_prerelease_identifiers
identifiers-negate i j = ground (arith, eq_iff i j, eq_iff j i)

suffixes-negate : (i j : Option Text) → compare_suffixes i j ≡ negate_result (compare_suffixes j i)
suffixes-negate none none = refl
suffixes-negate none (some j) = refl
suffixes-negate (some i) none = refl
suffixes-negate (some i) (some j) = identifiers-negate i j

types-negate :
    (x y : VersionType) (m n r s : Result (Option ℤ))
    → m ≡ negate_result n
    → r ≡ negate_result s
    → compare_types x y m r ≡ negate_result (compare_types y x n s)
types-negate release release m n r s h k = k
types-negate release prerelease m n r s h k = refl
types-negate release snapshot m n r s h k = k
types-negate prerelease release m n r s h k = refl
types-negate prerelease prerelease m n r s h k = h
types-negate prerelease snapshot m n r s h k = k
types-negate snapshot release m n r s h k = k
types-negate snapshot prerelease m n r s h k = k
types-negate snapshot snapshot m n r s h k = k

unless_zero-negate :
    (y z : ℤ) (r s : Result (Option ℤ))
    → y ≡ negate z
    → r ≡ negate_result s
    → unless_zero y r ≡ negate_result (unless_zero z s)
unless_zero-negate y (pos ℕ.zero) r s e h = rw e h
unless_zero-negate y (pos (suc n)) r s e h = ground arith
unless_zero-negate y (negsuc n) r s e h = ground arith

by_tests :
    (a b : Bool) (r s m n : Result (Option ℤ))
    → r ≡ negate_result s
    → m ≡ negate_result n
    → (if a || b then r else m) ≡ negate_result (if b || a then s else n)
by_tests a b r s m n h k = ground arith

-- Two runs of the three-way comparison in opposite directions.
compare_parsed-negate :
    (p q : ParsedMinecraftVersion) (r s : Result (Option ℤ))
    → r ≡ negate_result s
    → compare_parsed p q r ≡ negate_result (compare_parsed q p s)
unfolding compare_parsed
compare_parsed-negate p q r s h =
    let compared =
      unless_zero-negate (compare_main_versions p.major p.minor p.patch q.major q.minor q.patch 0 0)
        (compare_main_versions q.major q.minor q.patch p.major p.minor p.patch 0 0) _ _
        (compare_main-negate p.major p.minor p.patch q.major q.minor q.patch)
        (types-negate p.type q.type _ _ r s (suffixes-negate p.suffix q.suffix) h) in
    by_tests (is_old_snapshot p) (is_old_snapshot q) r s _ _ h compared

-- For two versions that parse, swapping the arguments negates the answer of `compare_versions`,
-- whatever the catalogue of versions is: an integer changes its sign, `None` stays `None`, and an
-- exception stays that exception.
pub compare_versions_antisym :
    (versions : Result (List MinecraftVersion)) (v w : Text) (p q : ParsedMinecraftVersion)
    → parse_version v ≡ some p
    → parse_version w ≡ some q
    → compare_versions versions v w ≡ negate_result (compare_versions versions w v)
unfolding compare_versions
compare_versions_antisym versions v w p q hp hq = ground (
  arith,
  eq_iff v w,
  eq_iff w v,
  compare_parsed-negate p q (compare_by_publish_date versions v w)
      (compare_by_publish_date versions w v) (dates-negate versions v w),
)

-- A second version that does not parse gives `None`, whatever other text the first one is.
pub compare_versions_invalid_second :
    (versions : Result (List MinecraftVersion)) (v w : Text)
    → v ≢ w
    → parse_version w ≡ none
    → compare_versions versions v w ≡ ok none
unfolding compare_versions
compare_versions_invalid_second versions v w h n = ground (arith, eq_iff v w)

-- A first version that does not parse raises `AttributeError` when the second one does parse, though
-- the documentation of the function promises `None`.
pub compare_versions_invalid_first :
    (versions : Result (List MinecraftVersion)) (v w : Text) (q : ParsedMinecraftVersion)
    → parse_version v ≡ none
    → parse_version w ≡ some q
    → compare_versions versions v w ≡ err Error.attribute_error
unfolding compare_versions
compare_versions_invalid_first versions v w q n p = ground (arith, eq_iff v w)

by_numbers :
    (versions : Result (List MinecraftVersion)) (v w : Text) (p q : ParsedMinecraftVersion)
    → parse_version v ≡ some p
    → parse_version w ≡ some q
    → p.type ≡ release
    → q.type ≡ release
    → (IsBefore p.major p.minor p.patch q.major q.minor q.patch
        → compare_versions versions v w ≡ ok (some (negsuc 0)))
      × (IsBefore q.major q.minor q.patch p.major p.minor p.patch
          → compare_versions versions v w ≡ ok (some (pos 1)))
unfolding compare_versions compare_parsed
by_numbers versions v w p q hp hq tp tq =
    let lex = compare_main_versions_lex p.major p.minor p.patch q.major q.minor q.patch in
    (λ h. ground (arith, eq_iff v w, lex.0.1 h), λ h. ground (arith, eq_iff v w, lex.1.1 h))

-- Of two releases `major.minor.patch` of the old system, if the first has the smaller numbers, major
-- first, then minor, then patch, then it is compared as -1 to the second, and the second as 1 to the
-- first, whatever the catalogue of versions holds.
pub compare_releases :
    (versions : Result (List MinecraftVersion)) (a b c d e f : Text)
    → IsShort a
    → IsShort b
    → IsShort c
    → IsShort d
    → IsShort e
    → IsShort f
    → IsBefore (int a) (int b) (int c) (int d) (int e) (int f)
    → (compare_versions versions (three_part a b c []) (three_part d e f []) ≡ ok (some (negsuc 0)))
      × (compare_versions versions (three_part d e f []) (three_part a b c []) ≡ ok (some (pos 1)))
compare_releases versions a b c d e f sa sb sc sd se sf before =
    let v = three_part a b c [] in
    let w = three_part d e f [] in
    let p = release_old v (int a) (int b) (int c) in
    let q = release_old w (int d) (int e) (int f) in
    let hp = (parse-release a b c sa sb sc).0 in
    let hq = (parse-release d e f sd se sf).0 in
    (
      (by_numbers versions v w p q hp hq refl refl).0 before,
      (by_numbers versions w v q p hq hp refl refl).1 before,
    )
