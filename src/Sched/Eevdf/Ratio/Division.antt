-- ===== src/Sched/Eevdf/Ratio/Division.antt =====
-- crates/thekernel-axsched/src/eevdf_model.rs: the long division of `Wide` words in
-- `checked_ratio_ceil`.
use thekernel_ax.Prelude.{
  ℕ, zero, suc, ◌+◌, ◌*◌, ◌/◌, ◌%◌, ◌^◌, ◌<◌, ◌≤◌, ◌≡◌, ap, sym, ◌∙◌, Bool, true, false, ◌||◌, leb,
  if◌then◌else◌, arith, inl, inr, Bool-cases, leb→le,
}
use thekernel_ax.Prelude.Bits.{bit, bit-below, bit-above, bit-eq-div}
use thekernel_ax.Sched.Eevdf.Divide.{from_bit}
use thekernel_ax.Sched.Eevdf.Divide.Exact.{from_bit-bit_set, from_bit-lt_two, div_unique}
use thekernel_ax.Sched.Eevdf.Wide.{
  Wide, limb, wide_bit, shl1, wide_ge, wide_wrapping_sub, set_low_bit,
}
use thekernel_ax.Sched.Eevdf.Wide.Value.{
  shl1_low, value, IsWide, shl1_lem, wide_ge_lem, wide_wrapping_sub_lem, borrow_out,
}
use thekernel_ax.Sched.Eevdf.Ratio.{ratio_loop}
use native.Mathlib.Nat.{pow-suc, div-le_self, div-div-eq-div-mul}

-- The number of the limbs from the first, the second and the third on.
abbrev above_2 : Wide → ℕ
above_2 w = w.limb_3 * 2 ^ 64 + w.limb_2

abbrev above_1 : Wide → ℕ
above_1 w = above_2 w * 2 ^ 64 + w.limb_1

bit-limb :
    (w : Wide) (i j : ℕ) → IsWide w → i < 4 → j < 64 → bit (limb w i) j ≡ bit (value w) (64 * i + j)
bit-limb w i j h hi hj =
    let nested : value w ≡ above_1 w * 2 ^ 64 + w.limb_0 = omega arith in rw nested (go i hi)
  where
    go : (i : ℕ) → i < 4 → bit (limb w i) j ≡ bit (above_1 w * 2 ^ 64 + w.limb_0) (64 * i + j)
    go zero hi = sym (
        ap (bit (above_1 w * 2 ^ 64 + w.limb_0)) (omega arith)
        ∙ bit-below 64 j (above_1 w) w.limb_0 hj)
    go (suc zero) hi =
        sym (
          bit-above 64 j (above_1 w) w.limb_0 h.limb_0_fits
          ∙ bit-below 64 j (above_2 w) w.limb_1 hj)
    go (suc (suc zero)) hi = sym (
        ap (bit (above_1 w * 2 ^ 64 + w.limb_0)) (omega arith)
        ∙ bit-above 64 (64 + j) (above_1 w) w.limb_0 h.limb_0_fits
        ∙ bit-above 64 j (above_2 w) w.limb_1 h.limb_1_fits
        ∙ bit-below 64 j w.limb_3 w.limb_2 hj)
    go (suc (suc (suc zero))) hi = sym (
        ap (bit (above_1 w * 2 ^ 64 + w.limb_0)) (omega arith)
        ∙ bit-above 64 (64 + (64 + j)) (above_1 w) w.limb_0 h.limb_0_fits
        ∙ bit-above 64 (64 + j) (above_2 w) w.limb_1 h.limb_1_fits
        ∙ bit-above 64 j w.limb_3 w.limb_2 h.limb_2_fits)
    go (suc (suc (suc (suc i)))) hi = absurd (omega arith)

-- A digit of the number.
wide_bit-value :
    (w : Wide) (k : ℕ) → IsWide w → k < 256 → from_bit (wide_bit w k) ≡ value w / 2 ^ k % 2
wide_bit-value w k h hk =
    let index : 64 * (k / 64) + k % 64 ≡ k = omega arith in
    let same = bit-limb w (k / 64) (k % 64) h (omega arith) (omega arith) in
    from_bit-bit_set (limb w (k / 64)) (k % 64)
    ∙ same
    ∙ ap (bit (value w)) index
    ∙ bit-eq-div (value w) k

-- Subtracting the denominator once, where the dropped bit or the comparison asks for it.
chosen : Wide → Wide → Bool → Wide
chosen s d taken = if taken then wide_wrapping_sub s d else s

chosen_lem :
    (s d : Wide) (carry : Bool) (total : ℕ)
    → IsWide s
    → IsWide d
    → from_bit carry * 2 ^ 256 + value s ≡ total
    → total < 2 * value d
    → IsWide (chosen s d (carry || wide_ge s d))
      × (value (chosen s d (carry || wide_ge s d)) < value d)
      × (from_bit (carry || wide_ge s d) * value d + value (chosen s d (carry || wide_ge s d))
          ≡ total)
unfolding chosen
chosen_lem s d true total hs hd e h =
    omega (arith, wide_wrapping_sub_lem s d hs hd, from_bit-lt_two (borrow_out s d))
chosen_lem s d false total hs hd e h = elim (Bool-cases (leb (value d) (value s))) [
  | inl ge ↦
      rw (wide_ge_lem s d hs hd, ge)
        (omega (
          arith,
          leb→le (value d) (value s) ge,
          wide_wrapping_sub_lem s d hs hd,
          from_bit-lt_two (borrow_out s d),
        ))
  | inr less ↦ rw (wide_ge_lem s d hs hd, less) (hs, ground arith, omega arith)
]

-- The doubled remainder with the next digit.
abbrev shifted : Wide → Bool → Wide
shifted r digit = record (shl1 r).1 { limb_0 = (shl1 r).1.limb_0 + from_bit digit }

shifted_lem :
    (r : Wide) (digit : Bool)
    → IsWide r
    → IsWide (shifted r digit)
      × (from_bit (shl1 r).0 * 2 ^ 256 + value (shifted r digit) ≡ 2 * value r + from_bit digit)
shifted_lem r digit h = omega (arith, shl1_lem r h, shl1_low r, from_bit-lt_two digit)

-- The quotient with its next digit.
quotient_digit :
    (q : Wide) (digit : Bool)
    → IsWide q
    → 2 * value q + from_bit digit < 2 ^ 256
    → IsWide (set_low_bit (shl1 q).1 digit)
      × (value (set_low_bit (shl1 q).1 digit) ≡ 2 * value q + from_bit digit)
quotient_digit q digit h fits = omega (arith, shl1_lem q h, shl1_low q, from_bit-lt_two digit)

round_numbers :
    (q t d next r b x : ℕ)
    → q * d + r ≡ x / 2
    → b ≡ x % 2
    → t * d + next ≡ 2 * r + b
    → (2 * q + t) * d + next ≡ x
round_numbers q t d next r b x e e' e'' =
    let spread : (2 * q + t) * d ≡ 2 * (q * d) + t * d = grind arith in omega arith

pub le-mul_pos : (q d : ℕ) → 0 < d → q ≤ q * d
le-mul_pos q d h = grind arith

abbrev digit_taken : Wide → Wide → Wide → ℕ → Bool
digit_taken n d r k = (shl1 r).0 || wide_ge (shifted r (wide_bit n k)) d

round_lem :
    (k : ℕ) (n d q r : Wide)
    → k < 256
    → IsWide n
    → IsWide d
    → IsWide q
    → IsWide r
    → value r < value d
    → value q * value d + value r ≡ value n / 2 ^ suc k
    → let next = chosen (shifted r (wide_bit n k)) d (digit_taken n d r k) in
      let quotient = set_low_bit (shl1 q).1 (digit_taken n d r k) in
      IsWide quotient
      × IsWide next
      × (value next < value d)
      × (value quotient * value d + value next ≡ value n / 2 ^ k)
round_lem k n d q r hk hn hd hq hr below e =
    let halves : value n / 2 ^ suc k ≡ value n / 2 ^ k / 2 =
      rw (pow-suc 2 k) (sym (div-div-eq-div-mul (value n) (2 ^ k) 2)) in
    let digit = wide_bit n k in
    let digit_value = wide_bit-value n k hn hk in
    let shift = shifted_lem r digit hr in
    let choice =
      chosen_lem (shifted r digit) d (shl1 r).0 (2 * value r + from_bit digit) shift.0 hd shift.1
        (omega (arith, from_bit-lt_two digit)) in
    let taken = from_bit (digit_taken n d r k) in
    let total =
      round_numbers (value q) taken (value d) _ (value r) (from_bit digit) (value n / 2 ^ k)
        (e ∙ halves) digit_value choice.2 in
    let grows = le-mul_pos (2 * value q + taken) (value d) (omega arith) in
    let kept =
      quotient_digit q (digit_taken n d r k) hq (omega (arith, div-le_self (value n) (2 ^ k))) in
    (kept.0, choice.0, choice.1, rw kept.1 total)

pub ratio_loop_lem :
    (k : ℕ) (n d q r : Wide)
    → k ≤ 256
    → IsWide n
    → IsWide d
    → IsWide q
    → IsWide r
    → value r < value d
    → value q * value d + value r ≡ value n / 2 ^ k
    → IsWide (ratio_loop k n d q r).0
      × IsWide (ratio_loop k n d q r).1
      × (value (ratio_loop k n d q r).0 ≡ value n / value d)
      × (value (ratio_loop k n d q r).1 ≡ value n % value d)
unfolding ratio_loop chosen
ratio_loop_lem zero n d q r hk hn hd hq hr below e =
    let parts = div_unique (value n) (value d) (value q) (value r) below (omega arith) in
    (hq, hr, sym parts.0, sym parts.1)
ratio_loop_lem (suc k) n d q r hk hn hd hq hr below e =
    let next = round_lem k n d q r (omega arith) hn hd hq hr below e in
    ratio_loop_lem k n d _ _ (omega arith) hn hd next.0 next.1 next.2 next.3
