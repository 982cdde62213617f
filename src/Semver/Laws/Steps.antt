-- ===== src/Semver/Laws/Steps.antt =====
-- The steps of the parser on the parts of a printed version.
use linglong_box.Prelude.{
  ℕ, zero, suc, ◌+◌, ◌^◌, ◌≤◌, ◌<◌, ◌≡◌, refl, Bool, true, false, ◌||◌, none, some, [], ◌∷◌, ◌++◌,
  Bytes, length, All, Lacks, drop, take, arith, ◌==◌, append-nil,
}
use linglong_box.Prelude.Decimal.{to_digits}
use linglong_box.Prelude.Decimal.Laws.{is_digit, IsDigit, StopsDigits, to_digits-IsDigit}
use linglong_box.Result.{ok}
use linglong_box.Semver.{substr, stoi, parse_suffix, parse_patch, parse_minor, parse}
use linglong_box.Semver.Laws.Positions.{
  find_from_at, find_from-none, take-append, stoi-to_digits, Fails,
}

abbrev pub is_dot : ℕ → Bool
is_dot c = c == b'.'

abbrev pub is_mark : ℕ → Bool
is_mark c = c == b'-' || c == b'+'

pub digits_Fails_dot : (ds : Bytes) → All IsDigit ds → All (Fails is_dot) ds
digits_Fails_dot [] _ = tt
digits_Fails_dot (d ∷ ds) (h, hs) = (ground arith, digits_Fails_dot ds hs)

pub digits_Fails_mark : (ds : Bytes) → All IsDigit ds → All (Fails is_mark) ds
digits_Fails_mark [] _ = tt
digits_Fails_mark (d ∷ ds) (h, hs) = (ground arith, digits_Fails_mark ds hs)

pub Lacks-Fails : (s : Bytes) → Lacks b'+' s → All (Fails (λ c. c == b'+')) s
Lacks-Fails [] _ = tt
Lacks-Fails (c ∷ s) (h, hs) = (ground arith, Lacks-Fails s hs)

pub take-StopsDigits : (n c : ℕ) (s : Bytes) → is_digit c ≡ false → StopsDigits (take n (c ∷ s))
take-StopsDigits zero c s h = tt
take-StopsDigits (suc n) c s h = h

-- A number that is followed by a byte which is no digit is read through `substr`, if the count
-- reaches past it.
pub number_before :
    (s : Bytes) (begin count n c : ℕ) (rest : Bytes)
    → drop begin s ≡ to_digits n ++ c ∷ rest
    → is_digit c ≡ false
    → length (to_digits n) ≤ count
    → n < 2 ^ 31
    → stoi (substr s begin count) ≡ ok n
unfolding substr
number_before s begin count n c rest e stops reach small =
    rw (e, take-append count (to_digits n) (c ∷ rest) reach)
      (stoi-to_digits n _ small (take-StopsDigits _ c rest stops))

module _ (s : Bytes) (begin major minor patch : ℕ) (small : patch < 2 ^ 31) where
  pub parse_patch_end :
      drop begin s ≡ to_digits patch
      → parse_patch s begin major minor ≡ parse_suffix s major minor patch none
  unfolding parse_patch
  parse_patch_end e = rw (
    find_from-none is_mark s begin (to_digits patch) e
        (digits_Fails_mark _ (to_digits-IsDigit patch)),
    e,
    ← append-nil (to_digits patch),
    stoi-to_digits patch [] small tt,
  )

  pub parse_patch_mark :
      (c : ℕ) (rest : Bytes)
      → drop begin s ≡ to_digits patch ++ c ∷ rest
      → is_mark c ≡ true
      → parse_patch s begin major minor
        ≡ parse_suffix s major minor patch (some (begin + length (to_digits patch)))
  unfolding parse_patch
  parse_patch_mark c rest e mark = rw (
    find_from_at is_mark s begin (to_digits patch) c rest e
        (digits_Fails_mark _ (to_digits-IsDigit patch)) mark,
    number_before s begin (begin + length (to_digits patch)) patch c rest e (ground arith)
        (omega arith) small,
  )

pub parse_minor_lem :
    (s : Bytes) (begin major minor : ℕ) (rest : Bytes)
    → minor < 2 ^ 31
    → drop begin s ≡ to_digits minor ++ b'.' ∷ rest
    → parse_minor s begin major ≡ parse_patch s (begin + length (to_digits minor) + 1) major minor
unfolding parse_minor
parse_minor_lem s begin major minor rest small e = rw (
  find_from_at is_dot s begin (to_digits minor) b'.' rest e
      (digits_Fails_dot _ (to_digits-IsDigit minor)) refl,
  parse_minor,
  number_before s begin (begin + length (to_digits minor)) minor b'.' rest e refl (omega arith)
      small,
)

pub parse_lem :
    (s : Bytes) (major : ℕ) (rest : Bytes)
    → major < 2 ^ 31
    → s ≡ to_digits major ++ b'.' ∷ rest
    → parse s ≡ parse_minor s (0 + length (to_digits major) + 1) major
unfolding parse
parse_lem s major rest small e = rw (
  find_from_at is_dot s 0 (to_digits major) b'.' rest e
      (digits_Fails_dot _ (to_digits-IsDigit major)) refl,
  parse,
  number_before s 0 (0 + length (to_digits major)) major b'.' rest e refl (omega arith) small,
)
