-- ===== src/Prelude/Bits.antt =====
-- Laws of the bit operations at variables, from the digit recursion that the native operations
-- stand for: one equation for the lowest digit, `|` of disjoint fields as a sum, and
-- `^` as its own inverse.
use Prim.Native.Nat.{ℕ, zero, suc, ◌+◌, ◌*◌, ◌/◌, ◌%◌, ◌^◌, ◌≤◌, ◌<◌, min, max}
use Prim.Native.Nat.{digits, bitwise, differ, bit_and-bitwise, bit_or-bitwise, bit_xor-bitwise}
pub use Prim.Native.Nat.{bit_and, bit_or, bit_xor}
use mathlib.Core.Path.{◌≡◌, refl, ap}
use native.Mathlib.Nat.{pow-suc}
use native.Mathlib.Omega.{arith}

-- The count of digits does not matter once it covers the first number.
module _ (rest : ℕ → ℕ) (op : ℕ → ℕ → ℕ) where
  digits-covered : (m n x y : ℕ) → x ≤ m → x ≤ n → digits rest op m x y ≡ digits rest op n x y
  digits-covered zero zero x y _ _ = refl
  digits-covered zero (suc n) zero y _ _ = refl
  digits-covered zero (suc n) (suc x) y h _ = absurd (omega arith)
  digits-covered (suc m) zero zero y _ _ = refl
  digits-covered (suc m) zero (suc x) y _ h = absurd (omega arith)
  digits-covered (suc m) (suc n) zero y _ _ = refl
  digits-covered (suc m) (suc n) (suc x) y h k =
      ap (λ t. t * 2 + op (suc x % 2) (y % 2))
        (digits-covered m n (suc x / 2) (y / 2) (omega arith) (omega arith))

  bitwise-lowest :
      (x y : ℕ)
      → bitwise rest op (suc x) y ≡ bitwise rest op (suc x / 2) (y / 2) * 2 + op (suc x % 2) (y % 2)
  bitwise-lowest x y =
      ap (λ t. t * 2 + op (suc x % 2) (y % 2))
        (digits-covered x (suc x / 2) (suc x / 2) (y / 2) (omega arith) (omega arith))

pub bit_or-lowest : (x y : ℕ) → bit_or x y ≡ bit_or (x / 2) (y / 2) * 2 + max (x % 2) (y % 2)
bit_or-lowest zero y = omega (arith, bit_or-bitwise 0 y, bit_or-bitwise 0 (y / 2))
bit_or-lowest (suc x) y = omega (
  arith,
  bit_or-bitwise (suc x) y,
  bit_or-bitwise (suc x / 2) (y / 2),
  bitwise-lowest (λ t. t) max x y,
)

pub bit_and-lowest : (x y : ℕ) → bit_and x y ≡ bit_and (x / 2) (y / 2) * 2 + min (x % 2) (y % 2)
bit_and-lowest zero y = omega (arith, bit_and-bitwise 0 y, bit_and-bitwise 0 (y / 2))
bit_and-lowest (suc x) y = omega (
  arith,
  bit_and-bitwise (suc x) y,
  bit_and-bitwise (suc x / 2) (y / 2),
  bitwise-lowest (λ t. 0) min x y,
)

pub bit_xor-lowest : (x y : ℕ) → bit_xor x y ≡ bit_xor (x / 2) (y / 2) * 2 + differ (x % 2) (y % 2)
bit_xor-lowest zero y = omega (arith, bit_xor-bitwise 0 y, bit_xor-bitwise 0 (y / 2))
bit_xor-lowest (suc x) y = omega (
  arith,
  bit_xor-bitwise (suc x) y,
  bit_xor-bitwise (suc x / 2) (y / 2),
  bitwise-lowest (λ t. t) differ x y,
)

differ-lt : (x y : ℕ) → x < 2 → y < 2 → differ x y < 2
differ-lt zero y h k = k
differ-lt (suc x) zero h k = h
differ-lt (suc x) (suc y) h k = differ-lt x y (omega arith) (omega arith)

differ_twice : (x y : ℕ) → x < 2 → y < 2 → differ (differ x y) y ≡ x
differ_twice zero zero _ _ = refl
differ_twice zero (suc zero) _ _ = refl
differ_twice (suc zero) zero _ _ = refl
differ_twice (suc zero) (suc zero) _ _ = refl
differ_twice zero (suc (suc y)) _ h = absurd (omega arith)
differ_twice (suc zero) (suc (suc y)) _ h = absurd (omega arith)
differ_twice (suc (suc x)) y h _ = absurd (omega arith)

-- `^` with the same mask twice gives the number back; `n` bounds the two numbers.
xor_twice_below : (n x m : ℕ) → x ≤ n → m ≤ n → bit_xor (bit_xor x m) m ≡ x
xor_twice_below zero zero zero _ _ = refl
xor_twice_below zero (suc x) m h _ = absurd (omega arith)
xor_twice_below zero zero (suc m) _ h = absurd (omega arith)
xor_twice_below (suc n) x m hx hm =
    rw (bit_xor-lowest (bit_xor x m) m, low, high)
      (rw
        (
          differ_twice (x % 2) (m % 2) (omega arith) (omega arith),
          xor_twice_below n (x / 2) (m / 2) (omega arith) (omega arith),
        )
        (omega arith))
  where
    digit : differ (x % 2) (m % 2) < 2
    digit = differ-lt (x % 2) (m % 2) (omega arith) (omega arith)

    low : bit_xor x m % 2 ≡ differ (x % 2) (m % 2)
    low = omega (arith, bit_xor-lowest x m, digit)

    high : bit_xor x m / 2 ≡ bit_xor (x / 2) (m / 2)
    high = omega (arith, bit_xor-lowest x m, digit)

pub bit_xor_twice : (x m : ℕ) → bit_xor (bit_xor x m) m ≡ x
bit_xor_twice x m = xor_twice_below (max x m) x m (omega arith) (omega arith)

mul-pow-suc : (q k : ℕ) → q * 2 ^ suc k ≡ 2 * (q * 2 ^ k)
mul-pow-suc q k = omega (arith, ap (λ (t : ℕ). q * t) (pow-suc 2 k))

or_zero_below : (n x : ℕ) → x ≤ n → bit_or x 0 ≡ x
or_zero_below zero zero h = refl
or_zero_below zero (suc x) h = absurd (omega arith)
or_zero_below (suc n) x h = omega (arith, bit_or-lowest x 0, or_zero_below n (x / 2) (omega arith))

-- `(q << k) | r` is a sum where `r` fits the `k` low bits.
pub bit_or_fields : (k q r : ℕ) → r < 2 ^ k → bit_or (q * 2 ^ k) r ≡ q * 2 ^ k + r
bit_or_fields zero q r h = ground (arith, or_zero_below q q)
bit_or_fields (suc k) q r h = ground (
  arith,
  pow-suc 2 k,
  mul-pow-suc q k,
  bit_or-lowest (q * 2 ^ suc k) r,
  bit_or_fields k q (r / 2) (omega (arith, pow-suc 2 k)),
)
