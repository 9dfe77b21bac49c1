-- ===== src/Sched/Eevdf/Ratio/Gcd.antt =====
-- crates/thekernel-axsched/src/eevdf_model.rs: `gcd_u128` is the greatest common divisor.
use thekernel_ax.Prelude.{
  ℕ, zero, suc, ◌*◌, ◌/◌, ◌%◌, ◌<◌, ◌≡◌, ◌↔◌, false, ◌==◌, arith, inl, inr, Bool-cases, subst, sym,
}
use thekernel_ax.Sched.Eevdf.Ratio.{gcd_loop, gcd_u128}
use Prim.Native.Nat.{◌∣◌}
use native.Mathlib.Nat.{dvd-mod_iff, mod-lt, dvd-zero, dvd_refl, pos_of_dvd_of_pos, div-mul_cancel}

mod_falls : (a b fuel : ℕ) → b < suc fuel → (b == 0) ≡ false → a % b < fuel
mod_falls a b fuel h e = ground (arith, mod-lt a {m = b})

-- With more rounds than the right operand, the divisors of the result are the common divisors.
gcd_loop-dvd : (fuel a b k : ℕ) → b < fuel → (k ∣ gcd_loop fuel a b) ↔ ((k ∣ a) × (k ∣ b))
unfolding gcd_loop
gcd_loop-dvd zero a b k h = absurd (omega arith)
gcd_loop-dvd (suc fuel) a b k h = elim (Bool-cases (b == 0)) [
  | inl e ↦
      let nothing : b ≡ 0 = ground arith in
      rw e (λ d. (d, subst (λ (t : ℕ). k ∣ t) (sym nothing) (dvd-zero k)), λ both. both.0)
  | inr e ↦ rw e (go (gcd_loop-dvd fuel b (a % b) k (mod_falls a b fuel h e)))
]
  where
    go :
        ((k ∣ gcd_loop fuel b (a % b)) ↔ ((k ∣ b) × (k ∣ a % b)))
        → (k ∣ gcd_loop fuel b (a % b)) ↔ ((k ∣ a) × (k ∣ b))
    go ih = (
      λ d. ((dvd-mod_iff k (ih.0 d).0).0 (ih.0 d).1, (ih.0 d).0),
      λ both. ih.1 (both.1, (dvd-mod_iff k both.1).1 both.0),
    )

-- A number divides `gcd_u128 a b` exactly when it divides both.
pub gcd_u128-dvd : (a b k : ℕ) → (k ∣ gcd_u128 a b) ↔ ((k ∣ a) × (k ∣ b))
unfolding gcd_u128
gcd_u128-dvd a b k = gcd_loop-dvd (suc b) a b k (omega arith)

-- The greatest common divisor of numbers that are not both zero divides both exactly, and is no
-- zero.
pub gcd_u128-divides :
    (a b : ℕ)
    → 0 < b
    → (0 < gcd_u128 a b)
      × (a / gcd_u128 a b * gcd_u128 a b ≡ a)
      × (b / gcd_u128 a b * gcd_u128 a b ≡ b)
gcd_u128-divides a b h =
    let both = (gcd_u128-dvd a b (gcd_u128 a b)).0 (dvd_refl (gcd_u128 a b)) in
    (
      pos_of_dvd_of_pos both.1 h,
      div-mul_cancel (gcd_u128 a b) both.0,
      div-mul_cancel (gcd_u128 a b) both.1,
    )
