-- ===== src/Sched/Eevdf/Wide.antt =====
-- crates/thekernel-axsched/src/eevdf_model.rs: `Wide`, a 256-bit word of four 64-bit limbs. `None`
-- of its checked operations is the `ArithmeticExhausted` that every caller makes of it.
pub mod Value
pub mod Product
pub mod Factor
use Prim.Native.Nat.{compare, Ordering, lt, eq, gt}
use thekernel_ax.Prelude.{
  ℕ, zero, suc, ◌+◌, ◌-◌, ◌*◌, ◌/◌, ◌%◌, ◌^◌, Bool, true, false, not, ◌||◌, ltb, leb, ◌==◌,
  if◌then◌else◌,
}
use thekernel_ax.Prelude.Result.{Result, err, ok, ◌>>=◌}
use thekernel_ax.Sched.Eevdf.Word.{
  ModelError, arithmetic_exhausted, invalid_weight, invalid_state, add_u128, mul_u128, u128_mod,
}
use thekernel_ax.Sched.Eevdf.Divide.{from_bit, bit_set, checked_div_129}

abbrev pub u64_mod : ℕ
u64_mod = 2 ^ 64

pub record Wide : Type 0 where
  pub limb_0 : ℕ
  pub limb_1 : ℕ
  pub limb_2 : ℕ
  pub limb_3 : ℕ

abbrev pub wide_zero : Wide
wide_zero = record { limb_0 = 0; limb_1 = 0; limb_2 = 0; limb_3 = 0 }

-- `limbs[index]`, and a write to it.
abbrev pub limb : Wide → ℕ → ℕ
limb w zero = w.limb_0
limb w (suc zero) = w.limb_1
limb w (suc (suc zero)) = w.limb_2
limb w (suc (suc (suc index))) = w.limb_3

abbrev pub set_limb : Wide → ℕ → ℕ → Wide
set_limb w zero v = record w { limb_0 = v }
set_limb w (suc zero) v = record w { limb_1 = v }
set_limb w (suc (suc zero)) v = record w { limb_2 = v }
set_limb w (suc (suc (suc index))) v = record w { limb_3 = v }

-- A lower limb decides where the higher ones are equal.
abbrev pub then_compare : Ordering → Ordering → Ordering
then_compare lt lower = lt
then_compare eq lower = lower
then_compare gt lower = gt

unfoldable pub wide_cmp : Wide → Wide → Ordering
wide_cmp a b = then_compare (compare a.limb_3 b.limb_3) (
    then_compare (compare a.limb_2 b.limb_2)
      (then_compare (compare a.limb_1 b.limb_1) (compare a.limb_0 b.limb_0)))

unfoldable pub wide_ge : Wide → Wide → Bool
unfolding wide_cmp
wide_ge a b = elim (wide_cmp a b) [ lt ↦ false | _ ↦ true ]

abbrev pub wide_bit : Wide → ℕ → Bool
wide_bit w position = bit_set (limb w (position / 64)) (position % 64)

-- `(value << 1) | carry` of one limb, and the carry out of it.
abbrev pub shl_limb : ℕ → Bool → ℕ
shl_limb value carry = value * 2 % u64_mod + from_bit carry

abbrev pub shl_carry : ℕ → Bool
shl_carry value = bit_set value 63

unfoldable pub shl1 : Wide → Bool × Wide
shl1 w = (
  shl_carry w.limb_3,
  record {
    limb_0 = shl_limb w.limb_0 false;
    limb_1 = shl_limb w.limb_1 (shl_carry w.limb_0);
    limb_2 = shl_limb w.limb_2 (shl_carry w.limb_1);
    limb_3 = shl_limb w.limb_3 (shl_carry w.limb_2);
  },
)

-- The two `overflowing_sub` of one limb: the difference, and the borrow.
abbrev pub sub_limb : ℕ → ℕ → Bool → ℕ
sub_limb a b borrow = ((a + u64_mod - b) % u64_mod + u64_mod - from_bit borrow) % u64_mod

abbrev pub sub_borrow : ℕ → ℕ → Bool → Bool
sub_borrow a b borrow = ltb a b || ltb ((a + u64_mod - b) % u64_mod) (from_bit borrow)

unfoldable pub wide_wrapping_sub : Wide → Wide → Wide
wide_wrapping_sub a b =
    let borrow_1 = sub_borrow a.limb_0 b.limb_0 false in
    let borrow_2 = sub_borrow a.limb_1 b.limb_1 borrow_1 in
    let borrow_3 = sub_borrow a.limb_2 b.limb_2 borrow_2 in
    record {
      limb_0 = sub_limb a.limb_0 b.limb_0 false;
      limb_1 = sub_limb a.limb_1 b.limb_1 borrow_1;
      limb_2 = sub_limb a.limb_2 b.limb_2 borrow_2;
      limb_3 = sub_limb a.limb_3 b.limb_3 borrow_3;
    }

-- The limbs from `index` on, of which `rounds` are left.
unfoldable pub add_one_from : ℕ → ℕ → Wide → Result ModelError Wide
add_one_from zero index w = err arithmetic_exhausted
add_one_from (suc rounds) index w =
    let next = set_limb w index ((limb w index + 1) % u64_mod) in
    let rest = add_one_from rounds (suc index) next in
    if ltb (limb w index + 1) u64_mod then ok next else rest

abbrev pub wide_checked_add_one : Wide → Result ModelError Wide
wide_checked_add_one w = add_one_from 4 0 w

-- `(limbs[0] & !1) | bit`.
abbrev pub set_low_bit : Wide → Bool → Wide
set_low_bit w digit = record w { limb_0 = w.limb_0 / 2 * 2 + from_bit digit }

-- `while carry != 0`: five rounds suffice, since the fourth index is refused.
unfoldable pub spread_carry : ℕ → ℕ → ℕ → Wide → Result ModelError Wide
spread_carry zero index carry w = err arithmetic_exhausted
spread_carry (suc fuel) index carry w =
    let sum = limb w index + carry % u64_mod in
    let rest =
      spread_carry fuel (suc index) (carry / u64_mod + sum / u64_mod)
        (set_limb w index (sum % u64_mod)) in
    if carry == 0 then ok w else if index == 4 then err arithmetic_exhausted else rest

-- The inner loop's body: the new limbs, and the carry.
abbrev pub mul_limb : ℕ → ℕ → ℕ → Wide × ℕ → Result ModelError (Wide × ℕ)
mul_limb left_limb right_limb index (w, carry) = mul_u128 left_limb right_limb >>= λ product.
    add_u128 product (limb w index) >>= λ summed.
    add_u128 summed carry >>= λ value. ok (set_limb w index (value % u64_mod), value / u64_mod)

abbrev pub mul_row : ℕ → ℕ → ℕ → Wide → Result ModelError Wide
mul_row left_index left_limb right w =
    mul_limb left_limb (right % u64_mod) left_index (w, 0) >>= λ first.
    mul_limb left_limb (right / u64_mod) (left_index + 1) first >>= λ second.
    spread_carry 5 (left_index + 2) second.1 second.0

unfoldable pub wide_mul_u128 : ℕ → ℕ → Result ModelError Wide
wide_mul_u128 left right =
    mul_row 0 (left % u64_mod) right wide_zero >>= λ first. mul_row 1 (left / u64_mod) right first

-- The upper half of the factor at the limb above.
abbrev pub mul_high : ℕ → ℕ → ℕ → Wide → Result ModelError Wide
mul_high index high_product carry result =
    if leb 4 (index + 1)
    then if not (high_product == 0) || not (carry == 0) then err arithmetic_exhausted else ok result
    else add_u128 high_product (limb result (index + 1)) >>= λ summed.
        add_u128 summed carry >>= λ next.
        spread_carry 5 (index + 2) (next / u64_mod) (set_limb result (index + 1) (next % u64_mod))

-- The body of the loop of `mul`.
abbrev pub mul_index : Wide → ℕ → ℕ → Wide → Result ModelError Wide
mul_index w right index result = mul_u128 (limb w index) (right % u64_mod) >>= λ low_product.
    add_u128 low_product (limb result index) >>= λ product.
    mul_u128 (limb w index) (right / u64_mod) >>= λ high_product.
    mul_high index high_product (product / u64_mod) (set_limb result index (product % u64_mod))

unfoldable pub wide_mul : Wide → ℕ → Result ModelError Wide
wide_mul w right = mul_index w right 0 wide_zero >>= λ first.
    mul_index w right 1 first >>= λ second.
    mul_index w right 2 second >>= λ third. mul_index w right 3 third

-- `checked_div_129(remainder >> 127 != 0, (remainder << 1) | digit, divisor)`.
abbrev pub div_digit : ℕ → Bool → ℕ → Result ModelError (ℕ × ℕ)
div_digit remainder digit divisor =
    checked_div_129 (bit_set remainder 127) (remainder * 2 % u128_mod + from_bit digit) divisor

unfoldable pub div_exact_loop : ℕ → Wide → ℕ → Wide → ℕ → Result ModelError Wide
div_exact_loop zero w divisor quotient remainder =
    if remainder == 0 then ok quotient else err invalid_state
div_exact_loop (suc position) w divisor quotient remainder =
    div_digit remainder (wide_bit w position) divisor >>= λ next.
    if ltb 1 next.0
    then err invalid_state
    else div_exact_loop position w divisor (set_low_bit (shl1 quotient).1 (not (next.0 == 0)))
        next.1

unfoldable pub div_exact_u128 : Wide → ℕ → Result ModelError Wide
div_exact_u128 w divisor =
    if divisor == 0 then err invalid_weight else div_exact_loop 256 w divisor wide_zero 0

unfoldable pub rem_loop : ℕ → Wide → ℕ → ℕ → Result ModelError ℕ
rem_loop zero w divisor remainder = ok remainder
rem_loop (suc position) w divisor remainder =
    div_digit remainder (wide_bit w position) divisor >>= λ next. rem_loop position w divisor next.1

unfoldable pub rem_u128 : Wide → ℕ → Result ModelError ℕ
rem_u128 w divisor = if divisor == 0 then err invalid_weight else rem_loop 256 w divisor 0

unfoldable pub low_u128 : Wide → Result ModelError ℕ
low_u128 w =
    if not (w.limb_2 == 0) || not (w.limb_3 == 0)
    then err arithmetic_exhausted
    else ok (w.limb_1 * u64_mod + w.limb_0)
