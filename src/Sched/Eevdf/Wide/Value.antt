-- ===== src/Sched/Eevdf/Wide/Value.antt =====
-- crates/thekernel-axsched/src/eevdf_model.rs: the number that a `Wide` stands for, and what the
-- operations on its limbs do to that number.
use thekernel_ax.Prelude.{ℕ, ◌+◌, ◌*◌, ◌/◌, ◌%◌, ◌^◌, ◌<◌, ◌≡◌, Bool, true, false, leb, arith}
use thekernel_ax.Prelude.Bits.{bit-eq-div}
use thekernel_ax.Sched.Eevdf.Divide.{from_bit}
use thekernel_ax.Sched.Eevdf.Divide.Exact.{from_bit-bit_set}
use thekernel_ax.Sched.Eevdf.Wide.{
  Wide, u64_mod, wide_cmp, wide_ge, shl1, shl_carry, wide_wrapping_sub, sub_limb, sub_borrow,
}

abbrev pub value : Wide → ℕ
value w = w.limb_0 + w.limb_1 * 2 ^ 64 + w.limb_2 * 2 ^ 128 + w.limb_3 * 2 ^ 192

pub record IsWide (w : Wide) : Type 0 where
  pub limb_0_fits : w.limb_0 < u64_mod
  pub limb_1_fits : w.limb_1 < u64_mod
  pub limb_2_fits : w.limb_2 < u64_mod
  pub limb_3_fits : w.limb_3 < u64_mod

carry_value : (v : ℕ) → v < u64_mod → from_bit (shl_carry v) ≡ v / 2 ^ 63
carry_value v h = omega (arith, from_bit-bit_set v 63, bit-eq-div v 63)

pub shl1_lem :
    (w : Wide)
    → IsWide w
    → IsWide (shl1 w).1 × (from_bit (shl1 w).0 * 2 ^ 256 + value (shl1 w).1 ≡ 2 * value w)
unfolding shl1
shl1_lem w h =
    let c0 = carry_value w.limb_0 h.limb_0_fits in
    let c1 = carry_value w.limb_1 h.limb_1_fits in
    let c2 = carry_value w.limb_2 h.limb_2_fits in
    let c3 = carry_value w.limb_3 h.limb_3_fits in omega arith

sub_limb_lem :
    (a b : ℕ) (borrow : Bool)
    → a < u64_mod
    → b < u64_mod
    → (sub_limb a b borrow < u64_mod)
      × (sub_limb a b borrow + b + from_bit borrow ≡ a + from_bit (sub_borrow a b borrow) * u64_mod)
sub_limb_lem a b true ha hb = ground arith
sub_limb_lem a b false ha hb = ground arith

-- The borrow out of the highest limb.
abbrev pub borrow_out : Wide → Wide → Bool
borrow_out a b = sub_borrow a.limb_3 b.limb_3 (
    sub_borrow a.limb_2 b.limb_2
      (sub_borrow a.limb_1 b.limb_1 (sub_borrow a.limb_0 b.limb_0 false)))

pub wide_wrapping_sub_lem :
    (a b : Wide)
    → IsWide a
    → IsWide b
    → IsWide (wide_wrapping_sub a b)
      × (value (wide_wrapping_sub a b) + value b ≡ value a + from_bit (borrow_out a b) * 2 ^ 256)
unfolding wide_wrapping_sub
wide_wrapping_sub_lem a b ha hb =
    let borrow_1 = sub_borrow a.limb_0 b.limb_0 false in
    let borrow_2 = sub_borrow a.limb_1 b.limb_1 borrow_1 in
    let borrow_3 = sub_borrow a.limb_2 b.limb_2 borrow_2 in
    let low = sub_limb_lem a.limb_0 b.limb_0 false ha.limb_0_fits hb.limb_0_fits in
    let second = sub_limb_lem a.limb_1 b.limb_1 borrow_1 ha.limb_1_fits hb.limb_1_fits in
    let third = sub_limb_lem a.limb_2 b.limb_2 borrow_2 ha.limb_2_fits hb.limb_2_fits in
    let high = sub_limb_lem a.limb_3 b.limb_3 borrow_3 ha.limb_3_fits hb.limb_3_fits in omega arith

pub wide_ge_lem : (a b : Wide) → IsWide a → IsWide b → wide_ge a b ≡ leb (value b) (value a)
unfolding wide_ge wide_cmp
wide_ge_lem a b ha hb = ground arith

pub shl1_low : (w : Wide) → (shl1 w).1.limb_0 ≡ w.limb_0 * 2 % u64_mod
unfolding shl1
shl1_low w = omega arith
