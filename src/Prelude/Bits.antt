-- ===== src/Prelude/Bits.antt =====
-- Machine-word `&`, `|` and `^` read one binary digit at a time, at every width.
use Prim.Native.Nat.{
  ℕ, zero, suc, ◌+◌, ◌*◌, ◌/◌, ◌%◌, ◌^◌, ◌≤◌, ◌<◌, min, max, bit_and, bit_or, bit_xor, digits,
  differ, bit_and-bitwise, bit_or-bitwise, bit_xor-bitwise,
}
use mathlib.Core.Path.{◌≡◌, refl, ap, subst, ◌∙◌}
use mathlib.Core.Logic.{◌≢◌}
use native.Mathlib.Nat.{pow-suc, div-div-eq-div-mul}
use native.Mathlib.Decide.{ℕ_discrete}
use native.Mathlib.Omega.{arith}

-- The digit of weight `2 ^ k`.
unfoldable pub bit : ℕ → ℕ → ℕ
bit m zero = m % 2
bit m (suc k) = bit (m / 2) k

pub bit-zero : (k : ℕ) → bit 0 k ≡ 0
unfolding bit
bit-zero zero = refl
bit-zero (suc k) = bit-zero k

pub bit-lt_two : (m k : ℕ) → bit m k < 2
unfolding bit
bit-lt_two m zero = omega arith
bit-lt_two m (suc k) = bit-lt_two (m / 2) k

pub bit-eq-div : (m k : ℕ) → bit m k ≡ m / 2 ^ k % 2
unfolding bit
bit-eq-div m zero = omega arith
bit-eq-div m (suc k) =
    let doubled : 2 * 2 ^ k ≡ 2 ^ suc k = omega (arith, pow-suc 2 k) in
    rw (bit-eq-div (m / 2) k, div-div-eq-div-mul m 2 (2 ^ k)) (ap (λ (t : ℕ). m / t % 2) doubled)

-- A word whose digits are all zero is zero; `n` bounds the word.
eq_zero_of_digits : (n m : ℕ) → m ≤ n → ((k : ℕ) → bit m k ≡ 0) → m ≡ 0
unfolding bit
eq_zero_of_digits zero m h e = omega arith
eq_zero_of_digits (suc n) zero h e = refl
eq_zero_of_digits (suc n) (suc m) h e =
    let low : suc m % 2 ≡ 0 = e 0 in
    omega (arith, eq_zero_of_digits n (suc m / 2) (omega arith) (λ k. e (suc k)))

pub eq_zero_of_bits : (m : ℕ) → ((k : ℕ) → bit m k ≡ 0) → m ≡ 0
eq_zero_of_bits m e = eq_zero_of_digits m m (omega arith) e

module _ (z : ℕ → ℕ) (f : ℕ → ℕ → ℕ) (ends : (b k : ℕ) → bit (z b) k ≡ f 0 (bit b k))
    (small : (a b : ℕ) → f (a % 2) (b % 2) < 2) where
  -- A digit of the result is the operation on the two digits of that weight.
  bit-digits : (n a b k : ℕ) → a ≤ n → bit (digits z f n a b) k ≡ f (bit a k) (bit b k)
  unfolding bit
  bit-digits zero zero b k h = rw bit-zero (ends b k)
  bit-digits zero (suc a) b k h = absurd (omega arith)
  bit-digits (suc n) zero b k h = rw bit-zero (ends b k)
  bit-digits (suc n) (suc a) b zero h = omega (arith, small (suc a) b)
  bit-digits (suc n) (suc a) b (suc k) h =
      let rest = digits z f n (suc a / 2) (b / 2) in
      let halved : (rest * 2 + f (suc a % 2) (b % 2)) / 2 ≡ rest = omega (arith, small (suc a) b) in
      rw halved (bit-digits n (suc a / 2) (b / 2) k (omega arith))

  -- The operation stays within the width of its operands.
  digits-lt :
      (n a b k : ℕ)
      → ((j c : ℕ) → c < 2 ^ j → z c < 2 ^ j)
      → a < 2 ^ k
      → b < 2 ^ k
      → digits z f n a b < 2 ^ k
  digits-lt zero a b k h ha hb = h k b hb
  digits-lt (suc n) zero b k h ha hb = h k b hb
  digits-lt (suc n) (suc a) b zero h ha hb = absurd (omega arith)
  digits-lt (suc n) (suc a) b (suc k) h ha hb = omega (
    arith,
    pow-suc 2 k,
    small (suc a) b,
    digits-lt n (suc a / 2) (b / 2) k h (omega (arith, pow-suc 2 k)) (omega (arith, pow-suc 2 k)),
  )

differ_digits : (x y : ℕ) → x < 2 → y < 2 → differ x y < 2
differ_digits zero y hx hy = hy
differ_digits (suc zero) zero hx hy = hx
differ_digits (suc zero) (suc y) hx hy = omega arith
differ_digits (suc (suc x)) y hx hy = absurd (omega arith)

pub bit-bit_and : (a b k : ℕ) → bit (bit_and a b) k ≡ min (bit a k) (bit b k)
bit-bit_and a b k = rw bit_and-bitwise (
    bit-digits (λ c. 0) min (λ c j. rw bit-zero (omega arith)) (λ x y. omega arith) a a b k
      (omega arith))

pub bit-bit_or : (a b k : ℕ) → bit (bit_or a b) k ≡ max (bit a k) (bit b k)
bit-bit_or a b k =
    rw bit_or-bitwise
      (bit-digits (λ c. c) max (λ c j. omega arith) (λ x y. omega arith) a a b k (omega arith))

pub bit_and-lt : (a b k : ℕ) → a < 2 ^ k → b < 2 ^ k → bit_and a b < 2 ^ k
bit_and-lt a b k ha hb = rw bit_and-bitwise (
    digits-lt (λ c. 0) min (λ c j. rw bit-zero (omega arith)) (λ x y. omega arith) a a b k
      (λ j c h. omega arith) ha hb)

pub bit_or-lt : (a b k : ℕ) → a < 2 ^ k → b < 2 ^ k → bit_or a b < 2 ^ k
bit_or-lt a b k ha hb =
    rw bit_or-bitwise
      (digits-lt (λ c. c) max (λ c j. omega arith) (λ x y. omega arith) a a b k (λ j c h. h) ha hb)

pub bit_xor-lt : (a b k : ℕ) → a < 2 ^ k → b < 2 ^ k → bit_xor a b < 2 ^ k
bit_xor-lt a b k ha hb = rw bit_xor-bitwise (
    digits-lt (λ c. c) differ (λ c j. refl)
      (λ x y. differ_digits (x % 2) (y % 2) (omega arith) (omega arith)) a a b k (λ j c h. h) ha hb)

-- `1 << k` has the one digit of weight `2 ^ k`.
pub bit-two_pow_self : (k : ℕ) → bit (2 ^ k) k ≡ 1
unfolding bit
bit-two_pow_self zero = refl
bit-two_pow_self (suc k) =
    let half : 2 ^ suc k / 2 ≡ 2 ^ k = omega (arith, pow-suc 2 k) in rw half (bit-two_pow_self k)

pub bit-two_pow_ne : (k j : ℕ) → k ≢ j → bit (2 ^ k) j ≡ 0
unfolding bit
bit-two_pow_ne zero zero h = absurd (h refl)
bit-two_pow_ne zero (suc j) h = bit-zero j
bit-two_pow_ne (suc k) zero h = omega (arith, pow-suc 2 k)
bit-two_pow_ne (suc k) (suc j) h =
    let half : 2 ^ suc k / 2 ≡ 2 ^ k = omega (arith, pow-suc 2 k) in
    rw half (bit-two_pow_ne k j (λ e. h (ap suc e)))

-- `word & (1 << k)` is zero exactly when the digit is.
pub bit_and-two_pow_zero : (m k : ℕ) → bit m k ≡ 0 → bit_and m (2 ^ k) ≡ 0
bit_and-two_pow_zero m k h = eq_zero_of_bits (bit_and m (2 ^ k)) digit
  where
    digit : (j : ℕ) → bit (bit_and m (2 ^ k)) j ≡ 0
    digit j = elim (ℕ_discrete k j) [
      | yes e ↦ omega (arith, bit-bit_and m (2 ^ k) j, subst (λ (t : ℕ). bit m t ≡ 0) e h)
      | no ne ↦ omega (arith, bit-bit_and m (2 ^ k) j, bit-two_pow_ne k j ne)
    ]

pub bit_zero-bit_and : (m k : ℕ) → bit_and m (2 ^ k) ≡ 0 → bit m k ≡ 0
bit_zero-bit_and m k h =
    let none_left : bit (bit_and m (2 ^ k)) k ≡ 0 = rw h (bit-zero k) in
    omega (arith, bit-bit_and m (2 ^ k) k, bit-two_pow_self k, bit-lt_two m k)

mul-two_pow_suc : (n high : ℕ) → high * 2 ^ suc n ≡ 2 * (high * 2 ^ n)
mul-two_pow_suc n high = rw (pow-suc 2 n) (grind arith)

-- The digits of `high * 2 ^ n + low`.
pub bit-below : (n k high low : ℕ) → k < n → bit (high * 2 ^ n + low) k ≡ bit low k
unfolding bit
bit-below zero k high low h = absurd (omega arith)
bit-below (suc n) zero high low h = omega (arith, mul-two_pow_suc n high)
bit-below (suc n) (suc k) high low h =
    let halved : (high * 2 ^ suc n + low) / 2 ≡ high * 2 ^ n + low / 2 =
      omega (arith, mul-two_pow_suc n high) in
    rw halved (bit-below n k high (low / 2) (omega arith))

pub bit-at : (n high low : ℕ) → low < 2 ^ n → bit (high * 2 ^ n + low) n ≡ high % 2
unfolding bit
bit-at zero high low h = omega arith
bit-at (suc n) high low h =
    let halved : (high * 2 ^ suc n + low) / 2 ≡ high * 2 ^ n + low / 2 =
      omega (arith, mul-two_pow_suc n high) in
    rw halved (bit-at n high (low / 2) (omega (arith, pow-suc 2 n)))

pub bit-above : (n k high low : ℕ) → low < 2 ^ n → bit (high * 2 ^ n + low) (n + k) ≡ bit high k
unfolding bit
bit-above zero k high low h =
    let same : high * 2 ^ 0 + low ≡ high = omega arith in
    let index : 0 + k ≡ k = omega arith in rw (same, index) refl
bit-above (suc n) k high low h =
    let halved : (high * 2 ^ suc n + low) / 2 ≡ high * 2 ^ n + low / 2 =
      omega (arith, mul-two_pow_suc n high) in
    let index : suc n + k ≡ suc (n + k) = omega arith in
    rw index (
      ap (λ (t : ℕ). bit t (n + k)) halved
      ∙ bit-above n k high (low / 2) (omega (arith, pow-suc 2 n)))
