-- ===== src/Prelude/Bits/Step.antt =====
-- `|` and `&` by halves: the lowest digit of each, and what stands above it.
use Prim.Native.Nat.{min, max, digits, bitwise, bit_and-bitwise, bit_or-bitwise}
use Prim.Native.Nat.{ℕ, zero, suc, ◌+◌, ◌-◌, ◌*◌, ◌/◌, ◌%◌, ◌≤◌, bit_and, bit_or}
use mathlib.Core.Path.{◌≡◌, refl, ◌∙◌, ap}
use native.Mathlib.Omega.{arith}

module _ (z : ℕ → ℕ) (f : ℕ → ℕ → ℕ) where
  -- The recursion on digits does not depend on its fuel, if that is at least the number.
  one_more : (k a b : ℕ) → a ≤ k → digits z f (suc k) a b ≡ digits z f k a b
  one_more zero zero b h = refl
  one_more (suc k) zero b h = refl
  one_more zero (suc a) b h = absurd (omega arith)
  one_more (suc k) (suc a) b h =
      ap (λ (n : ℕ). n * 2 + f (suc a % 2) (b % 2)) (one_more k (suc a / 2) (b / 2) (omega arith))

  surplus : (j k a b : ℕ) → a ≤ k → digits z f (j + k) a b ≡ digits z f k a b
  surplus zero k a b h = ap (λ (n : ℕ). digits z f n a b) (omega arith)
  surplus (suc j) k a b h =
      let moved : suc j + k ≡ suc (j + k) = omega arith in
      ap (λ (n : ℕ). digits z f n a b) moved
      ∙ one_more (j + k) a b (omega arith)
      ∙ surplus j k a b h

  -- A positive number by halves.
  by_halves :
      (a b half : ℕ)
      → half ≡ suc a / 2
      → bitwise z f (suc a) b ≡ f (suc a % 2) (b % 2) + 2 * bitwise z f half (b / 2)
  by_halves a b half e =
      let enough : digits z f a half (b / 2) ≡ bitwise z f half (b / 2) =
        ap (λ (k : ℕ). digits z f k half (b / 2)) (omega arith)
        ∙ surplus (a - half) half half (b / 2) (omega arith) in
      omega (arith, enough, e, ap (λ (h : ℕ). digits z f a h (b / 2)) e)

pub or_by_halves : (a b : ℕ) → bit_or a b ≡ max (a % 2) (b % 2) + 2 * bit_or (a / 2) (b / 2)
or_by_halves zero b = simp bit_or-bitwise (omega arith)
or_by_halves (suc a) b = simp bit_or-bitwise (by_halves (λ d. d) max a b (suc a / 2) refl)

pub and_by_halves : (a b : ℕ) → bit_and a b ≡ min (a % 2) (b % 2) + 2 * bit_and (a / 2) (b / 2)
and_by_halves zero b = simp bit_and-bitwise (omega arith)
and_by_halves (suc a) b = simp bit_and-bitwise (by_halves (λ d. 0) min a b (suc a / 2) refl)
