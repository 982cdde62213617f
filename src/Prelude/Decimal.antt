-- ===== src/Prelude/Decimal.antt =====
-- `std::to_string` of an unsigned number: its decimal digits.
pub mod Laws
use Prim.Native.Char.{Char}
use mathlib.Core.Bool.{true, false}
use Prim.Native.Nat.{ℕ, zero, suc, ◌+◌, ◌-◌, ◌*◌, ◌/◌, ◌%◌, ◌≤◌, ◌<◌}
use Prim.Native.String.{String}
use mathlib.Core.Path.{◌≡◌, refl}
use mathlib.Core.Logic.{◌≢◌}
use mathlib.Core.List.{List, [], ◌∷◌, ◌++◌, cons-ne-nil}
use native.Mathlib.Omega.{arith}
use linglong_box.Prelude.Tests.{◌==◌, if◌then◌else◌}
use linglong_box.Prelude.Lists.{Bytes, All}
use linglong_box.Prelude.Order.{lt_wf}

-- The loop that divides by ten and puts each digit in front; it goes round at most `rounds` times,
-- and a number needs no more rounds than it counts.
emit : ℕ → ℕ → Bytes → Bytes
emit zero n out = out
emit (suc rounds) zero out = out
emit (suc rounds) (suc n) out = emit rounds (suc n / 10) ((b'0' + suc n % 10) ∷ out)

unfoldable pub to_digits : ℕ → Bytes
unfolding emit
to_digits zero = b'0' ∷ []
to_digits (suc n) = emit (suc n) (suc n) []

digit_char : ℕ → Char
digit_char zero = "0"
digit_char (suc zero) = "1"
digit_char (suc (suc zero)) = "2"
digit_char (suc (suc (suc zero))) = "3"
digit_char (suc (suc (suc (suc zero)))) = "4"
digit_char (suc (suc (suc (suc (suc zero))))) = "5"
digit_char (suc (suc (suc (suc (suc (suc zero)))))) = "6"
digit_char (suc (suc (suc (suc (suc (suc (suc zero))))))) = "7"
digit_char (suc (suc (suc (suc (suc (suc (suc (suc zero)))))))) = "8"
digit_char _ = "9"

text_of : Bytes → String
text_of [] = ""
text_of (c ∷ s) = String.◌∷◌ (digit_char (c - b'0')) (text_of s)

unfoldable pub to_string : ℕ → String
unfolding to_digits digit_char text_of
to_string n = text_of (to_digits n)

to_string_test : to_string 1205 ≡ "1205"
unfolding to_string
to_string_test = refl
