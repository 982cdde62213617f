-- ===== src/Semver/Laws/Positions.antt =====
-- The positions that `find` gives and the texts that `substr` cuts there.
use native.Mathlib.Nat.{zero-add, suc-add}
use linglong_box.Prelude.{
  ℕ, zero, suc, ◌+◌, ◌-◌, ◌^◌, ◌≤◌, ◌<◌, ◌≡◌, ◌≢◌, refl, sym, ◌∙◌, ap, Bool, true, false, none,
  some, [], ◌∷◌, ◌++◌, Bytes, length, All, drop, take, drop-length, arith,
}
use linglong_box.Prelude.Decimal.{to_digits}
use linglong_box.Prelude.Decimal.Laws.{
  IsDigit, StopsDigits, leading_value, leading_value-to_digits, leading_value_stops,
  to_digits-IsDigit, to_digits-ne-nil,
}
use linglong_box.Result.{ok}
use linglong_box.Semver.{find_if, find_from, skip_spaces, signed_value, stoi_sign, stoi}

pub drop-nil : (n : ℕ) → drop {A = ℕ} n [] ≡ []
drop-nil zero = refl
drop-nil (suc n) = refl

pub drop-drop : (a b : ℕ) (s : Bytes) → drop b (drop a s) ≡ drop (a + b) s
drop-drop zero b s = rw zero-add
drop-drop (suc a) b [] = drop-nil b ∙ sym (drop-nil (suc a + b))
drop-drop (suc a) b (x ∷ s) = rw suc-add (drop-drop a b s)

pub take-append :
    (n : ℕ) (xs ys : Bytes) → length xs ≤ n → take n (xs ++ ys) ≡ xs ++ take (n - length xs) ys
take-append n [] ys h = ap (λ (k : ℕ). take k ys) (omega arith)
take-append zero (x ∷ xs) ys h = absurd (omega arith)
take-append (suc n) (x ∷ xs) ys h =
    ap (λ (t : Bytes). x ∷ t)
      (take-append n xs ys (omega arith) ∙ ap (λ (k : ℕ). xs ++ take k ys) (omega arith))

module _ (test : ℕ → Bool) where
  abbrev pub Fails : ℕ → Type 0
  Fails c = test c ≡ false

  find_if-append :
      (xs : Bytes) (c : ℕ) (ys : Bytes)
      → All Fails xs
      → test c ≡ true
      → find_if test (xs ++ c ∷ ys) ≡ some (length xs)
  unfolding find_if
  find_if-append [] c ys _ h = rw h
  find_if-append (x ∷ xs) c ys (hx, hs) h = ground (arith, find_if-append xs c ys hs h)

  find_if-none : (xs : Bytes) → All Fails xs → find_if test xs ≡ none
  unfolding find_if
  find_if-none [] _ = refl
  find_if-none (x ∷ xs) (hx, hs) = ground (arith, find_if-none xs hs)

  pub find_from_at :
      (s : Bytes) (begin : ℕ) (xs : Bytes) (c : ℕ) (ys : Bytes)
      → drop begin s ≡ xs ++ c ∷ ys
      → All Fails xs
      → test c ≡ true
      → find_from test s begin ≡ some (begin + length xs)
  unfolding find_from
  find_from_at s begin xs c ys e h t =
      rw (ap (find_if test) e ∙ find_if-append xs c ys h t, find_from)

  pub find_from-none :
      (s : Bytes) (begin : ℕ) (xs : Bytes)
      → drop begin s ≡ xs
      → All Fails xs
      → find_from test s begin ≡ none
  unfolding find_from
  find_from-none s begin xs e h = rw (ap (find_if test) e ∙ find_if-none xs h, find_from)

pub drop_at :
    (s : Bytes) (begin : ℕ) (xs ys : Bytes)
    → drop begin s ≡ xs ++ ys
    → drop (begin + length xs) s ≡ ys
drop_at s begin xs ys e = sym (drop-drop begin (length xs) s) ∙ rw e (drop-length xs ys)

pub drop_behind :
    (s : Bytes) (begin : ℕ) (xs : Bytes) (c : ℕ) (ys : Bytes)
    → drop begin s ≡ xs ++ c ∷ ys
    → drop (begin + length xs + 1) s ≡ ys
drop_behind s begin xs c ys e =
    sym (drop-drop (begin + length xs) 1 s) ∙ rw (drop_at s begin xs (c ∷ ys) e)

stoi_digit :
    (c : ℕ) (s : Bytes) (n : ℕ)
    → n < 2 ^ 31
    → IsDigit c
    → leading_value (c ∷ s) 0 ≡ n
    → stoi (c ∷ s) ≡ ok n
unfolding stoi stoi_sign skip_spaces signed_value
stoi_digit c s n small h v = ground arith

pub stoi-to_digits :
    (n : ℕ) (rest : Bytes) → n < 2 ^ 31 → StopsDigits rest → stoi (to_digits n ++ rest) ≡ ok n
stoi-to_digits n rest small stops =
    go (to_digits n) (to_digits-IsDigit n) (to_digits-ne-nil n)
      (leading_value-to_digits n rest ∙ leading_value_stops n rest stops)
  where
    go :
        (ds : Bytes)
        → All IsDigit ds
        → ds ≢ []
        → leading_value (ds ++ rest) 0 ≡ n
        → stoi (ds ++ rest) ≡ ok n
    go [] _ h _ = absurd (h refl)
    go (c ∷ ds) (hc, _) _ v = stoi_digit c (ds ++ rest) n small hc v
