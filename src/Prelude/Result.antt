-- ===== src/Prelude/Result.antt =====
-- The outcome of a fallible Rust function: a value, an `Err`, or a panic (an index out of range, a
-- division by zero, `unreachable!`).
use mathlib.Core.Path.{◌≡◌, refl}
use mathlib.Core.Logic.{◌⊎◌, inl, inr}

pub data Result {ℓ κ} (E : Type ℓ) (A : Type κ) : Type (ℓ ⊔ κ) where
  panic : Result E A
  err : E → Result E A
  ok : A → Result E A

-- The `?` operator: an error and a panic leave the function.
infixl 5 ◌>>◌ ◌>>=◌
abbrev pub ◌>>=◌ {ℓ κ μ} :
    {Error : Type ℓ} {Value : Type κ} {Out : Type μ}
    → Result Error Value
    → (Value → Result Error Out)
    → Result Error Out
panic >>= rest = panic
err error >>= rest = err error
ok value >>= rest = rest value

abbrev pub ◌>>◌ {ℓ μ} :
    {Error : Type ℓ} {Out : Type μ} → Result Error (Unit {0}) → Result Error Out → Result Error Out
first >> second = first >>= λ nothing. second

-- A bind succeeds only through both of its parts.
pub >>=-eq-ok {ℓ κ μ} :
    {Error : Type ℓ} {Value : Type κ} {Out : Type μ} (start : Result Error Value)
    (rest : Value → Result Error Out) {out : Out}
    → (start >>= rest) ≡ ok out
    → (value : Value) × (start ≡ ok value) × (rest value ≡ ok out)
>>=-eq-ok panic rest h = cc
>>=-eq-ok (err error) rest h = cc
>>=-eq-ok (ok value) rest h = (value, refl, h)

pub Result-cases {ℓ κ} :
    {Error : Type ℓ} {Value : Type κ} (r : Result Error Value)
    → ((value : Value) × (r ≡ ok value)) ⊎ ((error : Error) × (r ≡ err error)) ⊎ (r ≡ panic)
Result-cases (ok value) = inl (value, refl)
Result-cases (err error) = inr (inl (error, refl))
Result-cases panic = inr (inr refl)

-- A bind whose first part succeeds is its rest.
pub >>=-ok {ℓ κ μ} :
    {Error : Type ℓ} {Value : Type κ} {Out : Type μ} {start : Result Error Value} {value : Value}
    {out : Result Error Out}
    → start ≡ ok value
    → (rest : Value → Result Error Out) → rest value ≡ out
    → (start >>= rest) ≡ out
>>=-ok e rest f = rw e f

-- The same, as a rule that names the intermediate value.
pub >>=-cases {ℓ κ μ ν} :
    {Error : Type ℓ} {Value : Type κ} {Out : Type μ} {Goal : Type ν} (start : Result Error Value)
    (rest : Value → Result Error Out) {out : Out}
    → (start >>= rest) ≡ ok out
    → ((value : Value) → start ≡ ok value → rest value ≡ ok out → Goal)
    → Goal
>>=-cases start rest e next =
    let (value, first, second) = >>=-eq-ok start rest e in next value first second
