-- ===== src/Prelude/Xor.antt =====
-- `word ^ (1 << n)` of a word with the digits up to `n`: the top digit is turned over.
use Prim.Native.Nat.{
  ℕ, zero, suc, ◌+◌, ◌-◌, ◌*◌, ◌/◌, ◌%◌, ◌^◌, ◌≤◌, ◌<◌, bit_xor, digits, differ, bit_xor-bitwise,
}
use mathlib.Core.Path.{◌≡◌, refl}
use native.Mathlib.Nat.{pow-suc, one-le-pow}
use native.Mathlib.Omega.{arith}
use thekernel_ax.Prelude.Tests.{ltb, if◌then◌else◌}

abbrev flipped : ℕ → ℕ → ℕ
flipped n x = if ltb x (2 ^ n) then x + 2 ^ n else x - 2 ^ n

digits-zero : (fuel b : ℕ) → digits (λ c. c) differ fuel 0 b ≡ b
digits-zero zero b = refl
digits-zero (suc fuel) b = refl

differ-even : (x : ℕ) → x < 2 → differ x 0 ≡ x
differ-even zero h = refl
differ-even (suc zero) h = refl
differ-even (suc (suc x)) h = absurd (omega arith)

digits-top :
    (fuel n x : ℕ) → x ≤ fuel → x < 2 * 2 ^ n → digits (λ c. c) differ fuel x (2 ^ n) ≡ flipped n x
digits-top zero n zero hf h = ground (arith, one-le-pow n 2)
digits-top zero n (suc x) hf h = absurd (omega arith)
digits-top (suc fuel) n zero hf h = ground (arith, one-le-pow n 2)
digits-top (suc fuel) zero (suc zero) hf h = omega (arith, digits-zero fuel 0)
digits-top (suc fuel) zero (suc (suc x)) hf h = absurd (omega arith)
digits-top (suc fuel) (suc n) (suc x) hf h =
    let half : 2 ^ suc n / 2 ≡ 2 ^ n = omega (arith, pow-suc 2 n) in
    let even : 2 ^ suc n % 2 ≡ 0 = omega (arith, pow-suc 2 n) in
    let rest = digits-top fuel n (suc x / 2) (omega arith) (omega (arith, pow-suc 2 n)) in
    rw (half, even, rest, differ-even (suc x % 2) (omega arith)) (ground (arith, pow-suc 2 n))

pub bit_xor-two_pow : (n x : ℕ) → x < 2 * 2 ^ n → bit_xor x (2 ^ n) ≡ flipped n x
bit_xor-two_pow n x h = rw bit_xor-bitwise (digits-top x n x (omega arith) h)
