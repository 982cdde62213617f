-- ===== src/Prelude/Decimal/Laws.antt =====
-- The digits of a number: reading them back, and what stands behind them.
use Prim.Native.Nat.{ℕ, zero, suc, ◌≤◌, ◌+◌, ◌-◌, ◌*◌, ◌/◌, ◌%◌}
use mathlib.Core.Path.{◌≡◌, refl, ◌∙◌, ap}
use mathlib.Core.Logic.{◌≢◌}
use mathlib.Core.Bool.{Bool, true, false, ◌&&◌}
use mathlib.Core.List.{[], ◌∷◌, ◌++◌, cons-ne-nil}
use native.Mathlib.Omega.{arith}
use linglong_box.Prelude.Tests.{leb, if◌then◌else◌}
use linglong_box.Prelude.Lists.{Bytes, All}
use linglong_box.Prelude.Decimal.{emit, to_digits}

abbrev pub is_digit : ℕ → Bool
is_digit c = leb b'0' c && leb c b'9'

-- The number that the leading digits spell behind `acc`, as `strtol` reads it.
abbrev pub leading_value : Bytes → ℕ → ℕ
leading_value [] acc = acc
leading_value (c ∷ s) acc =
    let rest = leading_value s (acc * 10 + (c - b'0')) in if is_digit c then rest else acc

abbrev pub StartsDigit : Bytes → Type 0
StartsDigit [] = ⊥
StartsDigit (c ∷ s) = is_digit c ≡ true

abbrev pub StopsDigits : Bytes → Type 0
StopsDigits [] = Unit
StopsDigits (c ∷ s) = is_digit c ≡ false

emit-append : (k n : ℕ) (xs ys : Bytes) → emit k n (xs ++ ys) ≡ emit k n xs ++ ys
unfolding emit
emit-append zero n xs ys = refl
emit-append (suc k) zero xs ys = refl
emit-append (suc k) (suc n) xs ys = emit-append k (suc n / 10) ((b'0' + suc n % 10) ∷ xs) ys

value-emit : (k n : ℕ) (out : Bytes) → n ≤ k → leading_value (emit k n out) 0 ≡ leading_value out n
unfolding emit
value-emit zero n out h = ap (leading_value out) (omega arith)
value-emit (suc k) zero out h = refl
value-emit (suc k) (suc n) out h =
    value-emit k (suc n / 10) ((b'0' + suc n % 10) ∷ out) (omega arith) ∙ last_digit
  where
    last_digit : leading_value ((b'0' + suc n % 10) ∷ out) (suc n / 10) ≡ leading_value out (suc n)
    last_digit = ground arith

abbrev pub IsDigit : ℕ → Type 0
IsDigit c = is_digit c ≡ true

IsDigit-IsDigit : (n : ℕ) → IsDigit (b'0' + n % 10)
IsDigit-IsDigit n = ground arith

emit-IsDigit : (k n : ℕ) (out : Bytes) → All IsDigit out → All IsDigit (emit k n out)
unfolding emit
emit-IsDigit zero n out h = h
emit-IsDigit (suc k) zero out h = h
emit-IsDigit (suc k) (suc n) out h =
    emit-IsDigit k (suc n / 10) ((b'0' + suc n % 10) ∷ out) (IsDigit-IsDigit (suc n), h)

emit-ne-nil : (k n d : ℕ) (out : Bytes) → emit k n (d ∷ out) ≢ []
unfolding emit
emit-ne-nil zero n d out = cons-ne-nil d out
emit-ne-nil (suc k) zero d out = cons-ne-nil d out
emit-ne-nil (suc k) (suc n) d out = emit-ne-nil k (suc n / 10) (b'0' + suc n % 10) (d ∷ out)

pub to_digits-IsDigit : (n : ℕ) → All IsDigit (to_digits n)
unfolding to_digits
to_digits-IsDigit zero = (refl, tt)
to_digits-IsDigit (suc n) = emit-IsDigit (suc n) (suc n) [] tt

pub to_digits-ne-nil : (n : ℕ) → to_digits n ≢ []
unfolding to_digits emit
to_digits-ne-nil zero = cons-ne-nil b'0' []
to_digits-ne-nil (suc n) = emit-ne-nil n (suc n / 10) (b'0' + suc n % 10) []

-- Reading the print of a number, followed by anything, goes on behind it with its value.
pub leading_value-to_digits :
    (n : ℕ) (rest : Bytes) → leading_value (to_digits n ++ rest) 0 ≡ leading_value rest n
unfolding to_digits
leading_value-to_digits zero rest = refl
leading_value-to_digits (suc n) rest =
    rw (← emit-append (suc n) (suc n) [] rest) (value-emit (suc n) (suc n) rest (omega arith))

pub leading_value_stops : (n : ℕ) (rest : Bytes) → StopsDigits rest → leading_value rest n ≡ n
leading_value_stops n [] h = refl
leading_value_stops n (c ∷ rest) h = rw h
