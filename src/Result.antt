-- ===== src/Result.antt =====
-- What a C++ function gives back: a value, or the exception that it throws.
use linglong_box.Prelude.{ℕ, String, List, [], ◌∷◌}

-- `system_error` holds the `errno` and the text given with it. `undefined` marks an execution whose
-- result is not modelled: a loop bound that is used up, a number that does not fit `atoi`, and what
-- `std::abort` ends.
-- `process_replaced` is no exception: it is how a run ends whose process executes another program.
pub data Error : Type 0 where
  invalid_argument : String → Error
  out_of_range : Error
  runtime_error : String → Error
  logic_error : String → Error
  system_error : ℕ → String → Error
  file_descriptor_closed : Error
  unexpected_sync_message : ℕ → ℕ → Error
  json_error : Error
  undefined : String → Error
  process_replaced : Error

pub data Result {ℓ} (A : Type ℓ) : Type ℓ where
  ok : A → Result A
  err : Error → Result A

infixl 5 ◌>>=◌
abbrev pub ◌>>=◌ {ℓ κ} : {A : Type ℓ} {B : Type κ} → Result A → (A → Result B) → Result B
ok a >>= f = f a
err e >>= f = err e

-- A loop that computes one value for each element, and stops at the first exception.
abbrev pub traverse {ℓ κ} : {A : Type ℓ} {B : Type κ} → (A → Result B) → List A → Result (List B)
traverse f [] = ok []
traverse f (x ∷ xs) = do y ← f x; ys ← traverse f xs; ok (y ∷ ys)
