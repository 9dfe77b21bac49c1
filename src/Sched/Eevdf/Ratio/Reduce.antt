-- ===== src/Sched/Eevdf/Ratio/Reduce.antt =====
-- crates/thekernel-axsched/src/eevdf_model.rs: the reduction of the factors in
-- `checked_ratio_ceil`.
use thekernel_ax.Prelude.{
  ℕ, zero, suc, ◌+◌, ◌*◌, ◌/◌, ◌<◌, ◌≤◌, ◌≡◌, refl, ap, sym, ◌∙◌, false, ltb, leb, ◌==◌, arith, inl,
  inr, Bool-cases, leb→le, ltb→lt,
}
use thekernel_ax.Prelude.Result.{ok, >>=-ok}
use thekernel_ax.Sched.Eevdf.MulDiv.Round.{ceil_div, ceil_div_bounds}
use thekernel_ax.Sched.Eevdf.Ratio.{gcd_u128, reduce, reduce_both, reduce_all, Factors}
use thekernel_ax.Sched.Eevdf.Ratio.Gcd.{gcd_u128-divides}
use native.Mathlib.Nat.{div-le_self, mul-zero, mul_comm, mul_assoc, mul-mul-mul_comm}

-- Both numbers are the same multiple of the reduced ones, which are no larger; the second stays
-- above zero.
abbrev Reduces : ℕ → ℕ → ℕ → ℕ → Type 0
Reduces n d n' d' = (g : ℕ) × (0 < g) × (n ≡ g * n') × (d ≡ g * d') × (0 < d') × (n' ≤ n) × (d' ≤ d)

pos_of_factor : (g d d' : ℕ) → 0 < d → d ≡ g * d' → 0 < d'
pos_of_factor g d zero h e = absurd (omega (arith, e ∙ mul-zero g))
pos_of_factor g d (suc d') h e = omega arith

reduce_lem :
    (n d : ℕ)
    → 0 < d
    → (reduce n d ≡ ok (n / gcd_u128 n d, d / gcd_u128 n d))
      × Reduces n d (n / gcd_u128 n d) (d / gcd_u128 n d)
reduce_lem n d h =
    let g = gcd_u128 n d in
    let (positive, left, right) = gcd_u128-divides n d h in
    let nonzero : (g == 0) ≡ false = ground arith in
    let right' : d ≡ g * (d / g) = sym right ∙ mul_comm (d / g) g in
    (
      rw nonzero refl,
      (
        g,
        positive,
        sym left ∙ mul_comm (n / g) g,
        right',
        pos_of_factor g d (d / g) h right',
        div-le_self n g,
        div-le_self d g,
      ),
    )

-- The same for one numerator and the product of the denominators.
abbrev ReducesBoth : ℕ → ℕ → ℕ → ℕ × ℕ × ℕ → Type 0
ReducesBoth n d e (n', d', e') =
    (g : ℕ) × (0 < g)
    × (n ≡ g * n')
    × (d * e ≡ g * (d' * e'))
    × (0 < d')
    × (0 < e')
    × (n' ≤ n)
    × (d' ≤ d)
    × (e' ≤ e)

two_factors :
    (n n1 n' d d' e e' g1 g2 : ℕ)
    → n ≡ g1 * n1
    → d ≡ g1 * d'
    → n1 ≡ g2 * n'
    → e ≡ g2 * e'
    → (n ≡ g1 * g2 * n') × (d * e ≡ g1 * g2 * (d' * e'))
two_factors n n1 n' d d' e e' g1 g2 p q r s = (
  p ∙ ap (λ (t : ℕ). g1 * t) r ∙ sym (mul_assoc g1 g2 n'),
  ap (λ (t : ℕ). t * e) q ∙ ap (λ (t : ℕ). g1 * d' * t) s ∙ mul-mul-mul_comm g1 d' g2 e',
)

pub mul-pos : (a b : ℕ) → 0 < a → 0 < b → 0 < a * b
mul-pos a b ha hb = grind arith

reduce_both_lem :
    (n d e : ℕ)
    → 0 < d
    → 0 < e
    → (out : ℕ × ℕ × ℕ) × (reduce_both n d e ≡ ok out) × ReducesBoth n d e out
reduce_both_lem n d e hd he =
    let (first, (g1, p1, n1, d1, pos1, le1, le1')) = reduce_lem n d hd in
    let m = n / gcd_u128 n d in
    let (second, (g2, p2, n2, d2, pos2, le2, le2')) = reduce_lem m e he in
    let both =
      two_factors n m (m / gcd_u128 m e) d (d / gcd_u128 n d) e (e / gcd_u128 m e) g1 g2 n1 d1 n2
        d2 in
    (
      (m / gcd_u128 m e, d / gcd_u128 n d, e / gcd_u128 m e),
      >>=-ok first _ (>>=-ok second _ refl),
      (g1 * g2, mul-pos g1 g2 p1 p2, both.0, both.1, pos1, pos2, omega arith, le1', le2'),
    )

abbrev pub numerator : Factors → ℕ
numerator f = f.numerator_0 * f.numerator_1 * f.numerator_2

abbrev pub denominator : Factors → ℕ
denominator f = f.denominator_0 * f.denominator_1

-- What the reduction keeps: the quotient of the products, nonzero denominators, and the bounds.
abbrev pub IsReduced : Factors → Factors → Type 0
IsReduced f r =
    (g : ℕ) × (0 < g)
    × (numerator f ≡ g * numerator r)
    × (denominator f ≡ g * denominator r)
    × (0 < r.denominator_0)
    × (0 < r.denominator_1)
    × (r.numerator_0 ≤ f.numerator_0)
    × (r.numerator_1 ≤ f.numerator_1)
    × (r.numerator_2 ≤ f.numerator_2)
    × (r.denominator_0 ≤ f.denominator_0)
    × (r.denominator_1 ≤ f.denominator_1)

three_factors :
    (a a' b b' c c' g1 g2 g3 d0 d1 d2 d3 : ℕ)
    → a ≡ g1 * a'
    → b ≡ g2 * b'
    → c ≡ g3 * c'
    → d0 ≡ g1 * d1
    → d1 ≡ g2 * d2
    → d2 ≡ g3 * d3
    → (a * b * c ≡ g1 * g2 * g3 * (a' * b' * c')) × (d0 ≡ g1 * g2 * g3 * d3)
three_factors a a' b b' c c' g1 g2 g3 d0 d1 d2 d3 p q r s t u = (
  rw (p, q, r, mul-mul-mul_comm g1 a' g2 b', mul-mul-mul_comm (g1 * g2) (a' * b') g3 c') refl,
  rw (s, t, u) (rw (mul_assoc (g1 * g2) g3 d3, mul_assoc g1 g2 (g3 * d3)) refl),
)

pub reduce_all_lem :
    (f : Factors)
    → 0 < f.denominator_0
    → 0 < f.denominator_1
    → (r : Factors) × (reduce_all f ≡ ok r) × IsReduced f r
unfolding reduce_all
reduce_all_lem f hd he =
    first_step (reduce_both_lem f.numerator_0 f.denominator_0 f.denominator_1 hd he)
  where
    Goal : Type 0
    Goal = (r : Factors) × (reduce_all f ≡ ok r) × IsReduced f r

    first_step :
        (out : ℕ × ℕ × ℕ) × (reduce_both f.numerator_0 f.denominator_0 f.denominator_1 ≡ ok out)
          × ReducesBoth f.numerator_0 f.denominator_0 f.denominator_1 out
        → Goal
    first_step ((a, d, e), r1, (g1, p1, n1, m1, pos1, pos1', le1, le1', le1'')) =
        second_step (reduce_both_lem f.numerator_1 d e pos1 pos1')
      where
        second_step :
            (out : ℕ × ℕ × ℕ) × (reduce_both f.numerator_1 d e ≡ ok out)
              × ReducesBoth f.numerator_1 d e out
            → Goal
        second_step ((b, d', e'), r2, (g2, p2, n2, m2, pos2, pos2', le2, le2', le2'')) =
            third_step (reduce_both_lem f.numerator_2 d' e' pos2 pos2')
          where
            third_step :
                (out : ℕ × ℕ × ℕ) × (reduce_both f.numerator_2 d' e' ≡ ok out)
                  × ReducesBoth f.numerator_2 d' e' out
                → Goal
            third_step ((c, d'', e''), r3, (g3, p3, n3, m3, pos3, pos3', le3, le3', le3'')) =
                let products =
                  three_factors f.numerator_0 a f.numerator_1 b f.numerator_2 c g1 g2 g3
                    (f.denominator_0 * f.denominator_1) (d * e) (d' * e') (d'' * e'') n1 n2 n3 m1 m2
                    m3 in
                (
                  record {
                    numerator_0 = a;
                    numerator_1 = b;
                    numerator_2 = c;
                    denominator_0 = d'';
                    denominator_1 = e'';
                  },
                  >>=-ok r1 _ (>>=-ok r2 _ (>>=-ok r3 _ refl)),
                  (
                    g1 * g2 * g3,
                    mul-pos (g1 * g2) g3 (mul-pos g1 g2 p1 p2) p3,
                    products.0,
                    products.1,
                    pos3,
                    pos3',
                    le1,
                    le2,
                    le3,
                    omega arith,
                    omega arith,
                  ),
                )

mul-le : (g a b : ℕ) → a ≤ b → g * a ≤ g * b
mul-le g a b h = grind arith

cancel_le : (g x y : ℕ) → 0 < g → g * x ≤ g * y → x ≤ y
cancel_le g x y hg h = elim (Bool-cases (leb x y)) [
  | inl le ↦ leb→le x y le
  | inr more ↦
      let over : g * (y + 1) ≤ g * x = mul-le g (y + 1) x (ground arith) in
      let spread : g * (y + 1) ≡ g * y + g = grind arith in absurd (omega arith)
]

below_of_scaled : (g x y : ℕ) → 0 < g → g * x < g * y → x < y
below_of_scaled g x y hg h = elim (Bool-cases (ltb x y)) [
  | inl less ↦ ltb→lt x y less
  | inr more ↦ let over : g * y ≤ g * x = mul-le g y x (ground arith) in absurd (omega arith)
]

ceil_unique : (n d q q' : ℕ) → n ≤ q * d → q * d < n + d → n ≤ q' * d → q' * d < n + d → q ≤ q'
ceil_unique n d q q' h h' k k' = elim (Bool-cases (leb q q')) [
  | inl le ↦ leb→le q q' le
  | inr more ↦
      let over : d * (q' + 1) ≤ d * q = mul-le d (q' + 1) q (ground arith) in
      let spread : d * (q' + 1) ≡ q' * d + d = grind arith in
      let turned : d * q ≡ q * d = mul_comm d q in absurd (omega arith)
]

-- A common factor does not change the rounded quotient.
pub ceil_div-common : (g n d : ℕ) → 0 < g → 0 < d → ceil_div (g * n) (g * d) ≡ ceil_div n d
ceil_div-common g n d hg hd =
    let small = ceil_div_bounds n d hd in
    let large = ceil_div_bounds (g * n) (g * d) (mul-pos g d hg hd) in
    let q = ceil_div (g * n) (g * d) in
    let turned : q * (g * d) ≡ g * (q * d) = grind arith in
    let low : n ≤ q * d = cancel_le g n (q * d) hg (omega arith) in
    let sum : g * (n + d) ≡ g * n + g * d = grind arith in
    let next : g * (q * d + 1) ≡ g * (q * d) + g = grind arith in
    let high : q * d < n + d = below_of_scaled g (q * d) (n + d) hg (omega arith) in
    let le = ceil_unique n d q (ceil_div n d) low high small.0 small.1 in
    let ge = ceil_unique n d (ceil_div n d) q small.0 small.1 low high in omega arith
