-- ===== src/Semver/Laws/RoundTrip.antt =====
-- Parsing what `to_string` prints.
use native.Mathlib.Nat.{zero-add}
use linglong_box.Prelude.{
  ℕ, suc, ◌+◌, ◌-◌, ◌^◌, ◌<◌, ◌≡◌, refl, ◌∙◌, true, ◌||◌, some, [], ◌∷◌, ◌++◌, Bytes, length, Lacks,
  drop, take, is_empty, arith, ◌==◌, append-nil, if◌then◌else◌,
}
use linglong_box.Prelude.Decimal.{to_digits}
use linglong_box.Result.{ok}
use linglong_box.Semver.{Semver, substr, parse_suffix, is_plus, parse_patch, parse, to_text}
use linglong_box.Semver.Laws.Positions.{
  find_from_at, find_from-none, drop_at, drop_behind, take-append,
}
use linglong_box.Semver.Laws.Steps.{
  is_mark, Lacks-Fails, parse_patch_end, parse_patch_mark, parse_minor_lem, parse_lem,
}

module _ (s : Bytes) (major minor patch at : ℕ) where
  suffix_build :
      (build : Bytes)
      → drop at s ≡ b'+' ∷ build
      → drop (at + 1) s ≡ build
      → parse_suffix s major minor patch (some at)
        ≡ ok
            (record { major = major; minor = minor; patch = patch; prerelease = []; build = build })
  unfolding parse_suffix is_plus
  suffix_build build e e' = rw (e, parse_suffix, e')

  suffix_prerelease :
      (pre : Bytes)
      → drop at s ≡ b'-' ∷ pre
      → drop (at + 1) s ≡ pre
      → Lacks b'+' pre
      → parse_suffix s major minor patch (some at)
        ≡ ok (record { major = major; minor = minor; patch = patch; prerelease = pre; build = [] })
  unfolding parse_suffix is_plus
  suffix_prerelease pre e e' lacks =
      rw (e, find_from-none (λ c. c == b'+') s (at + 1) pre e' (Lacks-Fails pre lacks), e')

  suffix_both :
      (pre build : Bytes)
      → drop at s ≡ b'-' ∷ (pre ++ b'+' ∷ build)
      → drop (at + 1) s ≡ pre ++ b'+' ∷ build
      → Lacks b'+' pre
      → parse_suffix s major minor patch (some at)
        ≡ ok (record {
          major = major;
          minor = minor;
          patch = patch;
          prerelease = pre ++ b'+' ∷ take at build;
          build = build;
        })
  unfolding parse_suffix is_plus substr
  suffix_both pre build e e' lacks =
      let cut : at + 1 + length pre - length pre ≡ suc at = omega arith in
      rw (
        e,
        find_from_at (λ c. c == b'+') s (at + 1) pre b'+' build e' (Lacks-Fails pre lacks) refl,
        e',
        take-append (at + 1 + length pre) pre (b'+' ∷ build) (omega arith),
        cut,
        drop_behind s (at + 1) pre b'+' build e',
      )

-- Both dots are found, and the patch number begins at `patch_at`.
abbrev patch_at : ℕ → ℕ → ℕ
patch_at major minor = length (to_digits major) + 1 + length (to_digits minor) + 1

abbrev core_text : ℕ → ℕ → ℕ → Bytes → Bytes
core_text major minor patch tail =
    to_digits major ++ (b'.' ∷ (to_digits minor ++ (b'.' ∷ (to_digits patch ++ tail))))

module _ (major minor patch : ℕ) (small_major : major < 2 ^ 31) (small_minor : minor < 2 ^ 31)
    (small_patch : patch < 2 ^ 31) where
  drop_major :
      (tail : Bytes)
      → drop (length (to_digits major) + 1) (core_text major minor patch tail)
        ≡ to_digits minor ++ (b'.' ∷ (to_digits patch ++ tail))
  drop_major tail =
      rw zero-add at
        (drop_behind (core_text major minor patch tail) 0 (to_digits major) b'.' _ refl)

  drop_core :
      (tail : Bytes)
      → drop (patch_at major minor) (core_text major minor patch tail) ≡ to_digits patch ++ tail
  drop_core tail =
      drop_behind (core_text major minor patch tail) (length (to_digits major) + 1)
        (to_digits minor) b'.' (to_digits patch ++ tail) (drop_major tail)

  parse_core :
      (tail : Bytes)
      → parse (core_text major minor patch tail)
        ≡ parse_patch (core_text major minor patch tail) (patch_at major minor) major minor
  parse_core tail =
      parse_lem (core_text major minor patch tail) major _ small_major refl
      ∙ rw zero-add (
          parse_minor_lem (core_text major minor patch tail) (length (to_digits major) + 1) major
            minor (to_digits patch ++ tail) small_minor (drop_major tail))

  parse_mark :
      (c : ℕ) (rest : Bytes)
      → is_mark c ≡ true
      → parse (core_text major minor patch (c ∷ rest))
        ≡ parse_suffix
            (core_text major minor patch (c ∷ rest))
            major
            minor
            patch
            (some (patch_at major minor + length (to_digits patch)))
  parse_mark c rest mark =
      parse_core (c ∷ rest)
      ∙ parse_patch_mark (core_text major minor patch (c ∷ rest)) (patch_at major minor) major minor
          patch small_patch c rest (drop_core (c ∷ rest)) mark

  parse_end :
      parse (core_text major minor patch [])
      ≡ ok (record { major = major; minor = minor; patch = patch; prerelease = []; build = [] })
  parse_end =
      parse_core []
      ∙ parse_patch_end (core_text major minor patch []) (patch_at major minor) major minor patch
          small_patch (drop_core [] ∙ append-nil (to_digits patch))
      ∙ unfold parse_suffix in refl

  drop_mark :
      (c : ℕ) (rest : Bytes)
      → drop
          (patch_at major minor + length (to_digits patch))
          (core_text major minor patch (c ∷ rest))
        ≡ c ∷ rest
  drop_mark c rest =
      drop_at _ (patch_at major minor) (to_digits patch) (c ∷ rest) (drop_core (c ∷ rest))

  drop_marked :
      (c : ℕ) (rest : Bytes)
      → drop
          (patch_at major minor + length (to_digits patch) + 1)
          (core_text major minor patch (c ∷ rest))
        ≡ rest
  drop_marked c rest =
      drop_behind _ (patch_at major minor) (to_digits patch) c rest (drop_core (c ∷ rest))

-- The position of the `-` or `+` in the text of a version.
abbrev pub mark_at : Semver → ℕ
mark_at v = patch_at v.major v.minor + length (to_digits v.patch)

-- What the parser makes of the prerelease, when the version is printed with it.
pub reread_prerelease : Semver → Bytes
reread_prerelease v =
    if is_empty v.prerelease || is_empty v.build
    then v.prerelease
    else v.prerelease ++ b'+' ∷ take (mark_at v) v.build

abbrev pub FitsInt : Semver → Type 0
FitsInt v = (v.major < 2 ^ 31) × (v.minor < 2 ^ 31) × (v.patch < 2 ^ 31)

-- A version whose numbers fit `int` and whose prerelease holds no `+` is parsed from its print, with
-- the same numbers and the same build; the prerelease comes back as it was if it or the build is
-- empty, and otherwise with `+` and as many bytes of the build behind it as stand in front of the
-- `-` in the text.
pub parse-to_text :
    (v : Semver)
    → FitsInt v
    → Lacks b'+' v.prerelease
    → parse (to_text v) ≡ ok (record v { prerelease = reread_prerelease v })
unfolding to_text reread_prerelease
parse-to_text v (hM, hm, hp) lacks = go v.prerelease v.build lacks
  where
    go :
        (pre build : Bytes)
        → Lacks b'+' pre
        → parse (to_text (record v { prerelease = pre; build = build }))
          ≡ ok (record v {
            prerelease = reread_prerelease (record v { prerelease = pre; build = build });
            build = build;
          })
    go [] [] _ = parse_end v.major v.minor v.patch hM hm hp
    go [] (b ∷ bs) _ =
        parse_mark v.major v.minor v.patch hM hm hp b'+' (b ∷ bs) refl
        ∙ suffix_build _ v.major v.minor v.patch (mark_at v) (b ∷ bs)
            (drop_mark v.major v.minor v.patch hM hm hp b'+' (b ∷ bs))
            (drop_marked v.major v.minor v.patch hM hm hp b'+' (b ∷ bs))
    go (p ∷ ps) [] lacks = rw append-nil (
        parse_mark v.major v.minor v.patch hM hm hp b'-' (p ∷ ps) refl
        ∙ suffix_prerelease _ v.major v.minor v.patch (mark_at v) (p ∷ ps)
            (drop_mark v.major v.minor v.patch hM hm hp b'-' (p ∷ ps))
            (drop_marked v.major v.minor v.patch hM hm hp b'-' (p ∷ ps)) lacks)
    go (p ∷ ps) (b ∷ bs) lacks =
        parse_mark v.major v.minor v.patch hM hm hp b'-' (p ∷ (ps ++ b'+' ∷ b ∷ bs)) refl
        ∙ suffix_both _ v.major v.minor v.patch (mark_at v) (p ∷ ps) (b ∷ bs)
            (drop_mark v.major v.minor v.patch hM hm hp b'-' (p ∷ (ps ++ b'+' ∷ b ∷ bs)))
            (drop_marked v.major v.minor v.patch hM hm hp b'-' (p ∷ (ps ++ b'+' ∷ b ∷ bs))) lacks
