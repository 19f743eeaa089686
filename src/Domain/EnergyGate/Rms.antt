-- ===== src/Domain/EnergyGate/Rms.antt =====
-- The root mean square of a frame.
use pipecat_voice_assistant.Prelude.{
  ℕ, zero, suc, ◌+◌, ◌-◌, ◌*◌, ◌/◌, ◌^◌, ◌≤◌, ◌<◌, ◌≡◌, refl, ap, inl, inr, List, [], ◌∷◌,
  Bool-cases, ltb, leb, arith, All, if◌then◌else◌, length,
}
use native.Mathlib.Nat.{
  zero-add, mul_comm, mul-le-mul_left, lt-div-mul-add, div-le_self, mul-le-mul_right,
  div-le_of_le-mul,
}
use pipecat_voice_assistant.Prelude.Int.{ℤ, magnitude}
use pipecat_voice_assistant.Prelude.Word.{u32, u64}
use pipecat_voice_assistant.Domain.EnergyGate.{IsInt16, sumsq_from, newton, root_of_mean, rms_i16}

-- The sum of the squares, as a number of any size.
unfoldable pub sum_of_squares : List ℤ → ℕ
sum_of_squares [] = 0
sum_of_squares (s ∷ r) = magnitude s * magnitude s + sum_of_squares r

square_bound : (m : ℕ) → m ≤ 32768 → m * m ≤ 2 ^ 30
square_bound m h = grind arith

sum_of_squares_bound :
    (frame : List ℤ) → All IsInt16 frame → sum_of_squares frame ≤ length frame * 2 ^ 30
unfolding sum_of_squares
sum_of_squares_bound [] h = omega arith
sum_of_squares_bound (s ∷ r) h =
    omega (arith, square_bound (magnitude s) h.0, sum_of_squares_bound r h.1)

sumsq_from-eq :
    (acc : ℕ) (frame : List ℤ)
    → acc + sum_of_squares frame < 2 ^ 64
    → sumsq_from acc frame ≡ acc + sum_of_squares frame
unfolding sumsq_from sum_of_squares
sumsq_from-eq acc [] h = omega arith
sumsq_from-eq acc (s ∷ r) h =
    ground (arith, sumsq_from-eq (u64 (acc + magnitude s * magnitude s)) r)

product_apart : (a d b : ℕ) → b ≤ a + 2 * d → a * b ≤ (a + d) * (a + d)
product_apart a d b h = omega (arith, mul-le-mul_left a h)

-- Numbers that add up to at most 2 r have a product of at most r * r.
product_bound : (r a b : ℕ) → a + b ≤ 2 * r → a * b ≤ r * r
product_bound r a b h = elim (Bool-cases (leb a r)) [
  | inl small ↦
      let e : a + (r - a) ≡ r = ground arith in rw e at (product_apart a (r - a) b (ground arith))
  | inr big ↦
      let e : b + (r - b) ≡ r = ground arith in
      rw (mul_comm a b) (rw e at (product_apart b (r - b) a (ground arith)))
]

-- One Newton step from a positive guess does not fall below any root.
newton_step_root : (m g r : ℕ) → 0 < g → r * r ≤ m → r ≤ (g + m / g) / 2
newton_step_root m g r p h = elim (Bool-cases (leb r ((g + m / g) / 2))) [
  | inl fine ↦ ground arith
  | inr low ↦
      let fits : m / g + 1 + g ≤ 2 * r = ground arith in
      absurd (omega (arith, product_bound r (m / g + 1) g fits, lt-div-mul-add {a = m} {b = g} p))
]

-- From a guess at or above the root a step halves the excess, up to rounding.
newton_step_closer :
    (m g r : ℕ) → 0 < g → r ≤ g → m < (r + 1) * (r + 1) → 2 * ((g + m / g) / 2) ≤ g + r + 2
newton_step_closer m g r p above h =
    let wide : r * (r + 2) ≤ g * (r + 2) = mul-le-mul_right (r + 2) above in
    omega (arith, div-le_of_le-mul g {m = m} {n = r + 2} (omega arith))

-- The value that a 32-bit step computes, while nothing wraps.
abbrev IsGuess : ℕ → Type 0
IsGuess g = (0 < g) × (g ≤ 2 ^ 30)

newton-suc :
    (k m g : ℕ) → IsGuess g → m ≤ 2 ^ 30 → newton (suc k) m g ≡ newton k m ((g + m / g) / 2)
unfolding newton
newton-suc k m g v b = ap (newton k m) (omega (arith, div-le_self m g))

newton_step-IsGuess : (m g : ℕ) → IsGuess g → 0 < m → m ≤ 2 ^ 30 → IsGuess ((g + m / g) / 2)
newton_step-IsGuess m g v p b =
    (newton_step_root m g 1 v.0 (omega arith), omega (arith, div-le_self m g, v.1))

abbrev halve : ℕ → ℕ → ℕ
halve zero x = x
halve (suc k) x = halve k (x / 2)

halve_mono : (k x y : ℕ) → x ≤ y → halve k x ≤ halve k y
halve_mono zero x y h = h
halve_mono (suc k) x y h = halve_mono k (x / 2) (y / 2) (omega arith)

-- From a guess at or above the root, the excess over the root plus 2 is halved in every step.
newton_near :
    (k m g r : ℕ)
    → IsGuess g
    → 0 < m
    → m ≤ 2 ^ 30
    → r ≤ g
    → r * r ≤ m
    → m < (r + 1) * (r + 1)
    → (r ≤ newton k m g) × (newton k m g ≤ r + 2 + halve k (g - (r + 2)))
newton_near zero m g r v p b above lo hi = unfold newton in (above, omega arith)
newton_near (suc k) m g r v p b above lo hi =
    let next = (g + m / g) / 2 in
    let rest =
      newton_near k m next r (newton_step-IsGuess m g v p b) p b (newton_step_root m g r v.0 lo) lo
        hi in
    let closer : next - (r + 2) ≤ (g - (r + 2)) / 2 =
      omega (arith, newton_step_closer m g r v.0 above hi) in
    rw (newton-suc k m g v b) (rest.0, omega (arith, rest.1, halve_mono k _ _ closer))

abbrev pub mean_square : List ℤ → ℕ
mean_square frame = sum_of_squares frame / length frame

-- What the integer square root may exceed the true root by.
abbrev pub slack : ℕ → ℕ
slack m = if ltb 65536 m then 3 + m / 65536 else 3 + m / 4096

newton_eight :
    (m g r : ℕ)
    → IsGuess g
    → 0 < m
    → m ≤ 2 ^ 30
    → r * r ≤ m
    → m < (r + 1) * (r + 1)
    → (r ≤ newton 8 m g) × (newton 8 m g ≤ r + 2 + (g + m / g) / 2 / 128)
newton_eight m g r v p b lo hi =
    let next = (g + m / g) / 2 in
    let near =
      newton_near 7 m next r (newton_step-IsGuess m g v p b) p b (newton_step_root m g r v.0 lo) lo
        hi in
    rw (newton-suc 7 m g v b) (near.0, omega (arith, near.1))

mean_square_bound :
    (s : ℤ) (rest : List ℤ) → All IsInt16 (s ∷ rest) → mean_square (s ∷ rest) ≤ 2 ^ 30
mean_square_bound s rest h =
    div-le_of_le-mul (length (s ∷ rest)) (sum_of_squares_bound (s ∷ rest) h)

rms_of_mean :
    (s : ℤ) (rest : List ℤ)
    → All IsInt16 (s ∷ rest)
    → length (s ∷ rest) ≤ 2 ^ 33
    → u32 (sumsq_from 0 (s ∷ rest) / length (s ∷ rest)) ≡ mean_square (s ∷ rest)
rms_of_mean s rest h n =
    rw (sumsq_from-eq 0 (s ∷ rest) (omega (arith, sum_of_squares_bound (s ∷ rest) h)), zero-add)
      (omega (arith, mean_square_bound s rest h))

root_of_zero : (r : ℕ) → r * r ≤ 0 → r ≡ 0
root_of_zero zero h = refl
root_of_zero (suc r) h = absurd (omega arith)

root_of_mean_near :
    (m r : ℕ)
    → m ≤ 2 ^ 30
    → r * r ≤ m
    → m < (r + 1) * (r + 1)
    → (r ≤ root_of_mean m) × (root_of_mean m ≤ r + slack m)
unfolding root_of_mean
root_of_mean_near zero r b lo hi = ground (arith, root_of_zero r)
root_of_mean_near (suc m) r b lo hi = elim (Bool-cases (ltb 65536 (suc m))) [
  | inl large ↦ ground (arith, newton_eight (suc m) 256 r)
  | inr small ↦ ground (arith, newton_eight (suc m) 16 r)
]

-- For a non-empty frame of int16 samples, of at most 2 ^ 33 samples, nothing wraps, no step divides
-- by 0, and the result is at least the integer square root of the mean square and exceeds it by at
-- most `slack`.
pub rms_near_root :
    (s : ℤ) (rest : List ℤ) (r : ℕ)
    → All IsInt16 (s ∷ rest)
    → length (s ∷ rest) ≤ 2 ^ 33
    → r * r ≤ mean_square (s ∷ rest)
    → mean_square (s ∷ rest) < (r + 1) * (r + 1)
    → (r ≤ rms_i16 (s ∷ rest)) × (rms_i16 (s ∷ rest) ≤ r + slack (mean_square (s ∷ rest)))
unfolding rms_i16
rms_near_root s rest r h n lo hi =
    rw (rms_of_mean s rest h n) (root_of_mean_near _ r (mean_square_bound s rest h) lo hi)
