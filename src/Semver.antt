-- ===== src/Semver.antt =====
-- src/linyaps_box/utils/semver.h and semver.cpp: versions, as the bytes of their texts.
-- `std::string::find`, `find_first_of`, `substr` and `std::stoi` are written out as far as the
-- parser uses them. The positions given to `substr` are never past the end of the text.
pub mod Laws
mod Tests
use linglong_box.Prelude.{
  ℕ, suc, ◌+◌, ◌-◌, ◌*◌, ◌%◌, ◌^◌, ◌≡◌, refl, Bool, true, false, ◌||◌, ◌&&◌, not, Option, none,
  some, List, [], ◌∷◌, ◌++◌, Bytes, codes, drop, take, is_empty, ltb, leb, ◌==◌, if◌then◌else◌,
}
use linglong_box.Prelude.Decimal.{to_digits}
use linglong_box.Prelude.Decimal.Laws.{is_digit, leading_value}
use linglong_box.Result.{Result, ok, err, invalid_argument, out_of_range, ◌>>=◌}

-- The fields are `unsigned int`, `unsigned int`, `unsigned int`, `std::string`, `std::string`.
pub record Semver : Type 0 where
  pub major : ℕ
  pub minor : ℕ
  pub patch : ℕ
  pub prerelease : Bytes
  pub build : Bytes

-- The position of the first byte that passes the test.
unfoldable pub find_if : (ℕ → Bool) → Bytes → Option ℕ
find_if test [] = none
find_if test (c ∷ s) =
    let later : Option ℕ = elim (find_if test s) [ none ↦ none | some i ↦ some (suc i) ] in
    if test c then some 0 else later

unfoldable pub find_from : (ℕ → Bool) → Bytes → ℕ → Option ℕ
find_from test s begin = elim (find_if test (drop begin s)) [
  | none ↦ none
  | some i ↦ some (begin + i)
]

unfoldable pub substr : Bytes → ℕ → ℕ → Bytes
substr s begin count = take count (drop begin s)

abbrev is_space : ℕ → Bool
is_space c = c == b' ' || (leb 9 c && leb c 13)

unfoldable pub skip_spaces : Bytes → Bytes
skip_spaces [] = []
skip_spaces (c ∷ s) = let rest = skip_spaces s in if is_space c then rest else c ∷ s

-- The digits behind the sign; `negative` tells which. The `int` is converted to `unsigned int`.
unfoldable pub signed_value : Bool → Bytes → Result ℕ
signed_value negative [] = err (invalid_argument "stoi")
signed_value true (c ∷ s) =
    if is_digit c
    then (let v = leading_value (c ∷ s) 0 in
        if ltb (2 ^ 31) v then err out_of_range else ok ((2 ^ 32 - v) % 2 ^ 32))
    else err (invalid_argument "stoi")
signed_value false (c ∷ s) =
    if is_digit c
    then (let v = leading_value (c ∷ s) 0 in if ltb (2 ^ 31 - 1) v then err out_of_range else ok v)
    else err (invalid_argument "stoi")

unfoldable pub stoi_sign : Bytes → Result ℕ
stoi_sign [] = err (invalid_argument "stoi")
stoi_sign (c ∷ s) =
    if c == b'-'
    then signed_value true s
    else if c == b'+'
    then signed_value false s
    else signed_value false (c ∷ s)

-- `std::stoi`, assigned to an `unsigned int`.
unfoldable pub stoi : Bytes → Result ℕ
stoi s = stoi_sign (skip_spaces s)

-- `str[end] == '+'`
unfoldable pub is_plus : Bytes → Bool
is_plus [] = false
is_plus (c ∷ _) = c == b'+'

-- What follows the patch number; `at` is the position that `find_first_of("-+")` gave.
unfoldable pub parse_suffix : Bytes → ℕ → ℕ → ℕ → Option ℕ → Result Semver
parse_suffix s major minor patch none =
    ok (record { major = major; minor = minor; patch = patch; prerelease = []; build = [] })
parse_suffix s major minor patch (some at) =
    if is_plus (drop at s)
    then ok (record {
      major = major;
      minor = minor;
      patch = patch;
      prerelease = [];
      build = drop (at + 1) s;
    })
    else elim (find_from (λ c. c == b'+') s (at + 1)) [
      | none ↦ ok (record {
        major = major;
        minor = minor;
        patch = patch;
        prerelease = drop (at + 1) s;
        build = [];
      })
      | some plus ↦ ok (record {
        major = major;
        minor = minor;
        patch = patch;
        prerelease = substr s (at + 1) plus;
        build = drop (plus + 1) s;
      })
    ]

unfoldable pub invalid : Result Semver
invalid = err (invalid_argument "invalid semver")

unfoldable pub parse_patch : Bytes → ℕ → ℕ → ℕ → Result Semver
parse_patch s begin major minor = do
  let end = find_from (λ c. c == b'-' || c == b'+') s begin
  patch ← stoi (elim end [ none ↦ drop begin s | some e ↦ substr s begin e ])
  parse_suffix s major minor patch end

unfoldable pub parse_minor : Bytes → ℕ → ℕ → Result Semver
parse_minor s begin major = elim (find_from (λ c. c == b'.') s begin) [
  | none ↦ invalid
  | some end ↦ do minor ← stoi (substr s begin end); parse_patch s (end + 1) major minor
]

-- `semver(const std::string &)`
unfoldable pub parse : Bytes → Result Semver
parse s = elim (find_from (λ c. c == b'.') s 0) [
  | none ↦ invalid
  | some end ↦ do major ← stoi (substr s 0 end); parse_minor s (end + 1) major
]

-- `to_string`
pub to_text : Semver → Bytes
to_text v =
    to_digits v.major
    ++ (b'.'
        ∷ (to_digits v.minor
            ++ (b'.'
                ∷ (to_digits v.patch
                    ++ ((if is_empty v.prerelease then [] else b'-' ∷ [])
                        ++ (v.prerelease
                            ++ ((if is_empty v.build then [] else b'+' ∷ []) ++ v.build)))))))

-- The chain of early returns in `is_compatible_with`.
unfoldable pub is_compatible_with : Semver → Semver → Bool
is_compatible_with this other =
    if not (this.major == other.major)
    then false
    else if ltb this.minor other.minor
    then false
    else if ltb other.minor this.minor
    then true
    else if ltb this.patch other.patch
    then false
    else if ltb other.patch this.patch
    then true
    else true
