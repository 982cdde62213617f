-- ===== src/Prelude/Bits.antt =====
-- Flag words: `|`, `&`, `~` and tests of bits, on unsigned words of a given width.
mod Step
use Prim.Native.Nat.{min, max}
use mathlib.Core.Path.{◌≡◌, refl, ◌∙◌, ap}
use mathlib.Core.Bool.{Bool, not}
use Prim.Native.Nat.{ℕ, zero, suc, ◌+◌, ◌-◌, ◌*◌, ◌/◌, ◌%◌, ◌^◌, ◌≤◌, ◌<◌, bit_and, bit_or}
use mathlib.Core.WellFounded
use linglong_box.Prelude.Order.{lt_wf}
use native.Mathlib.Nat.{pow-suc, one-le-pow}
use native.Mathlib.Omega.{arith}
use linglong_box.Prelude.Tests.{◌==◌, if◌then◌else◌}
use Step.{or_by_halves, and_by_halves}

-- The `k`-th binary digit, counted from the lowest.
abbrev pub bit : ℕ → ℕ → ℕ
bit zero n = n % 2
bit (suc k) n = bit k (n / 2)

-- `(flags & mask) != 0`
abbrev pub has_any : ℕ → ℕ → Bool
has_any flags mask = not (bit_and flags mask == 0)

-- `~mask` in a word of `width` bits.
unfoldable pub complement : ℕ → ℕ → ℕ
complement width mask = 2 ^ width - 1 - mask

pub bit-le : (k n : ℕ) → bit k n ≤ 1
bit-le zero n = omega arith
bit-le (suc k) n = bit-le k (n / 2)

pub bit-zero : (k : ℕ) → bit k 0 ≡ 0
bit-zero zero = refl
bit-zero (suc k) = bit-zero k

-- Each digit of `|` and of `&` comes from the digits at its place.
pub bit-bit_or : (k a b : ℕ) → bit k (bit_or a b) ≡ max (bit k a) (bit k b)
bit-bit_or zero a b = omega (arith, or_by_halves a b)
bit-bit_or (suc k) a b =
    let upper : bit_or a b / 2 ≡ bit_or (a / 2) (b / 2) = omega (arith, or_by_halves a b) in
    ap (bit k) upper ∙ bit-bit_or k (a / 2) (b / 2)

pub bit-bit_and : (k a b : ℕ) → bit k (bit_and a b) ≡ min (bit k a) (bit k b)
bit-bit_and zero a b = omega (arith, and_by_halves a b)
bit-bit_and (suc k) a b =
    let upper : bit_and a b / 2 ≡ bit_and (a / 2) (b / 2) = omega (arith, and_by_halves a b) in
    ap (bit k) upper ∙ bit-bit_and k (a / 2) (b / 2)

halves_complement : (w m : ℕ) → m < 2 ^ suc w → complement (suc w) m / 2 ≡ complement w (m / 2)
unfolding complement
halves_complement w m h = omega (arith, pow-suc 2 w)

pub bit-complement : (k w m : ℕ) → k < w → m < 2 ^ w → bit k (complement w m) ≡ 1 - bit k m
bit-complement k zero m h _ = elim h [ ]
bit-complement zero (suc w) m _ h = unfold complement in omega (arith, pow-suc 2 w)
bit-complement (suc k) (suc w) m h fits =
    ap (bit k) (halves_complement w m fits)
    ∙ bit-complement k w (m / 2) (omega arith) (omega (arith, pow-suc 2 w))

-- What `&` and `|` make of the word 0.
abbrev WithZero : ℕ → Type 0
WithZero w = (bit_and w 0 ≡ 0) × (bit_or w 0 ≡ w)

with_zero : (w : ℕ) → WithZero w
with_zero w = WellFounded.induction lt_wf {C = WithZero} w λ v below. halve v (below (v / 2))
  where
    halve : (v : ℕ) → (v / 2 < v → WithZero (v / 2)) → WithZero v
    halve zero rest = (refl, refl)
    halve (suc v) rest =
        let (conj, disj) = rest (omega arith) in
        (omega (arith, and_by_halves (suc v) 0, conj), omega (arith, or_by_halves (suc v) 0, disj))

-- A mask bounds what `&` leaves.
pub bit_and-le : (w mask : ℕ) → bit_and w mask ≤ mask
bit_and-le w mask =
    WellFounded.induction lt_wf {C = λ v. (u : ℕ) → bit_and u v ≤ v} mask
      (λ v below u. halves v u (λ lt. below (v / 2) lt (u / 2))) w
  where
    halves : (v u : ℕ) → (v / 2 < v → bit_and (u / 2) (v / 2) ≤ v / 2) → bit_and u v ≤ v
    halves zero u rest = omega (arith, (with_zero u).0)
    halves (suc v) u rest = omega (arith, and_by_halves u (suc v), rest (omega arith))

-- `&` and `|` with a word of one bit.
pub bit_and-pow : (k n : ℕ) → bit_and n (2 ^ k) ≡ bit k n * 2 ^ k
bit_and-pow zero n = omega (arith, and_by_halves n 1, (with_zero (n / 2)).0)
bit_and-pow (suc k) n = omega (
  arith,
  and_by_halves n (2 ^ suc k),
  pow-suc 2 k,
  half_pow k,
  bit_and-pow k (n / 2),
  ap_half n k,
  scale (bit k (n / 2)) k,
)
  where
    half_pow : (k : ℕ) → 2 ^ suc k / 2 ≡ 2 ^ k
    half_pow k = omega (arith, pow-suc 2 k)

    ap_half : (n k : ℕ) → bit_and (n / 2) (2 ^ suc k / 2) ≡ bit_and (n / 2) (2 ^ k)
    ap_half n k = λ i. bit_and (n / 2) (half_pow k i)

    scale : (b k : ℕ) → b * 2 ^ suc k ≡ 2 * (b * 2 ^ k)
    scale b k = omega (arith, ap (λ (t : ℕ). b * t) (pow-suc 2 k))

pub bit_or-pow : (k n : ℕ) → bit k n ≡ 0 → bit_or n (2 ^ k) ≡ n + 2 ^ k
bit_or-pow zero n h = omega (arith, or_by_halves n 1, (with_zero (n / 2)).1)
bit_or-pow (suc k) n h =
    omega (arith, or_by_halves n (2 ^ suc k), pow-suc 2 k, bit_or-pow k (n / 2) h, ap_half n k)
  where
    half_pow : (k : ℕ) → 2 ^ suc k / 2 ≡ 2 ^ k
    half_pow k = omega (arith, pow-suc 2 k)

    ap_half : (n k : ℕ) → bit_or (n / 2) (2 ^ suc k / 2) ≡ bit_or (n / 2) (2 ^ k)
    ap_half n k = λ i. bit_or (n / 2) (half_pow k i)

pub bit-pow : (k j : ℕ) → bit k (2 ^ j) ≡ (if k == j then 1 else 0)
bit-pow zero zero = refl
bit-pow zero (suc j) = ground (arith, pow-suc 2 j)
bit-pow (suc k) zero = ground (arith, bit-zero k)
bit-pow (suc k) (suc j) = ap (bit k) (half_pow j) ∙ bit-pow k j ∙ ground arith
  where
    half_pow : (k : ℕ) → 2 ^ suc k / 2 ≡ 2 ^ k
    half_pow k = omega (arith, pow-suc 2 k)
