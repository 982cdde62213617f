-- ===== src/Semver/Tests.antt =====
-- Runs of the version parser.
use linglong_box.Prelude.{◌≡◌, refl, ◌↔◌, ◌⊎◌, ◌<◌, ◌≤◌, true, [], ◌∷◌, Bytes, codes, arith}
use linglong_box.Prelude.Decimal.{to_digits}
use linglong_box.Result.{Result, ok, err, invalid_argument, out_of_range}
use linglong_box.Semver.{
  Semver, find_if, find_from, substr, is_plus, skip_spaces, signed_value, stoi_sign, stoi, invalid,
  parse_suffix, parse_patch, parse_minor, parse, to_text, is_compatible_with,
}
use linglong_box.Semver.Laws.{is_compatible_with_iff}
use linglong_box.Semver.Laws.RoundTrip.{parse-to_text, reread_prerelease}

abbrev v_1_2 : Semver
v_1_2 = record { major = 1; minor = 2; patch = 0; prerelease = []; build = [] }

run : Bytes → Result Semver
unfolding find_if find_from substr is_plus skip_spaces signed_value stoi_sign stoi invalid
    parse_suffix parse_patch parse_minor parse
run = parse

parse_plain : run (codes "1.2.0") ≡ ok v_1_2
unfolding run
parse_plain = refl

parse_both :
    run (codes "1.2.0-rc+b") ≡ ok (record v_1_2 { prerelease = codes "rc+b"; build = codes "b" })
unfolding run
parse_both = refl

parse_errors :
    (run (codes "1.2") ≡ err (invalid_argument "invalid semver"))
    × (run (codes "1.x.0") ≡ err (invalid_argument "stoi"))
    × (run (codes "1.2.4294967296") ≡ err out_of_range)
unfolding run
parse_errors = (refl, refl, refl)

parse_negative : run (codes "-1.2.0") ≡ ok (record v_1_2 { major = 4294967295 })
unfolding run
parse_negative = refl

print_both : to_text (record v_1_2 { build = codes "x" }) ≡ codes "1.2.0+x"
unfolding to_text to_digits
print_both = refl

abbrev release_candidate : Semver
release_candidate = record {
  major = 1;
  minor = 12;
  patch = 3;
  prerelease = b'r' ∷ b'c' ∷ [];
  build = b'x' ∷ [];
}

parse-to_text_example :
    parse (to_text release_candidate)
    ≡ ok (record release_candidate { prerelease = reread_prerelease release_candidate })
parse-to_text_example =
    parse-to_text release_candidate (omega arith, omega arith, omega arith) (omega arith)

is_compatible_with_iff_example : (is_compatible_with release_candidate v_1_2 ≡ true) ↔ (
    (release_candidate.major ≡ v_1_2.major)
    × ((v_1_2.minor < release_candidate.minor)
        ⊎ ((v_1_2.minor ≡ release_candidate.minor) × (v_1_2.patch ≤ release_candidate.patch))))
is_compatible_with_iff_example = is_compatible_with_iff release_candidate v_1_2
