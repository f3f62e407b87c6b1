-- ===== src/Prelude/Doubles.antt =====
-- The division of the language's numbers, which are doubles: the quotient is rounded to 53 binary digits,
-- and `Math.round` then rounds it to a whole number.
use Prim.Native.Nat.{ℕ, zero, suc, ◌+◌, ◌*◌, ◌/◌, ◌%◌, ◌^◌, ◌≤◌, ◌<◌}
use mathlib.Core.Path.{◌≡◌, refl, ap, ◌∙◌}
use mathlib.Core.Logic.{inl, inr}
use native.Mathlib.Omega.{arith, pow_step}
use native.Mathlib.Nat.{div-add-mod, div-lt_iff_lt-mul, mul-le-mul_right, mul_comm}
use bachelor_thesis.Prelude.Tests.{ltb, leb, ◌==◌, if◌then◌else◌, ltb→lt, lt→ltb, Bool-cases}

-- The number `mantissa / 2 ^ scale`.
pub record Double : Type 0 where
  pub mantissa : ℕ
  pub scale : ℕ

-- The whole number that is nearest to `a / b`; where two are, the even one.
unfoldable pub round_even : ℕ → ℕ → ℕ
round_even a b =
    let q = a / b in
    let r = a % b in
    if ltb (2 * r) b then q else if ltb b (2 * r) then q + 1 else if q % 2 == 0 then q else q + 1

-- The least scale from `e` on that gives `a / b` 53 binary digits.
unfoldable pub scale_from : ℕ → ℕ → ℕ → ℕ → ℕ
scale_from zero e a b = e
scale_from (suc n) e a b =
    let rest = scale_from n (e + 1) a b in if leb (2 ^ 52 * b) (a * 2 ^ e) then e else rest

abbrev at_scale : ℕ → ℕ → ℕ → Double
at_scale e a b = record { mantissa = round_even (a * 2 ^ e) b; scale = e }

-- `a / b` as a double, for whole numbers of at most 53 binary digits. A quotient that is not zero is above
-- `1 / 2 ^ 76` here, so that the scales up to 128 are enough.
unfoldable pub divide : ℕ → ℕ → Double
divide a b = at_scale (scale_from 128 0 a b) a b

-- The product with a whole number.
unfoldable pub times : Double → ℕ → Double
times x k = divide (x.mantissa * k) (2 ^ x.scale)

-- `Math.round`: a half is rounded up.
unfoldable pub math_round : Double → ℕ
math_round x = (2 * x.mantissa + 2 ^ x.scale) / (2 * 2 ^ x.scale)

-- `Math.round((a / b) * 100)`.
unfoldable pub percent : ℕ → ℕ → ℕ
percent a b = math_round (times (divide a b) 100)

-- Rounding to a whole number does not pass a whole number.
round_even_le : (a b k : ℕ) → 0 < b → a ≤ k * b → round_even a b ≤ k
unfolding round_even
round_even_le a b k p h = elim (Bool-cases (ltb (a / b) k)) [
  | inl l ↦ ground (arith, ltb→lt (a / b) k l)
  | inr l ↦
      let whole : a / b ≡ k = ground (arith, at_most) in
      let rest : a % b ≡ 0 =
        omega (arith, div-add-mod a b, ap (λ q. b * q) whole ∙ mul_comm b k, h) in
      exact_case rest whole
]
  where
    at_most : a / b < k + 1
    at_most = (div-lt_iff_lt-mul {k = b} {x = a} {y = k + 1} p).1 (grind (arith, p, h))

    exact_case :
        a % b ≡ 0
        → a / b ≡ k
        → (if ltb (2 * (a % b)) b
            then a / b
            else if ltb b (2 * (a % b))
            then a / b + 1
            else if (a / b) % 2 == 0
            then a / b
            else a / b + 1)
          ≤ k
    exact_case r w = rw (r, w, lt→ltb 0 b p) (omega arith)

pow_pos : (e : ℕ) → 0 < 2 ^ e
pow_pos zero = omega arith
pow_pos (suc e) = omega (arith, pow_step 2 e, pow_pos e)

at_scale_le : (e a b k : ℕ) → 0 < b → a ≤ k * b → (at_scale e a b).mantissa ≤ k * 2 ^ e
at_scale_le e a b k p h =
    round_even_le (a * 2 ^ e) b (k * 2 ^ e) p (grind (arith, mul-le-mul_right (2 ^ e) h))

divide_le : (a b k : ℕ) → 0 < b → a ≤ k * b → (divide a b).mantissa ≤ k * 2 ^ (divide a b).scale
unfolding divide
divide_le a b k p h = at_scale_le (scale_from 128 0 a b) a b k p h

math_round_le : (x : Double) (k : ℕ) → x.mantissa ≤ k * 2 ^ x.scale → math_round x ≤ k
unfolding math_round
math_round_le x k h = below (2 ^ x.scale) (pow_pos x.scale) h
  where
    below : (w : ℕ) → 0 < w → x.mantissa ≤ k * w → (2 * x.mantissa + w) / (2 * w) ≤ k
    below w p l = omega (
      arith,
      (div-lt_iff_lt-mul {k = 2 * w} {x = 2 * x.mantissa + w} {y = k + 1} (omega arith)).1
          (grind (arith, p, l)),
    )

-- The percentage of a part is at most a hundred.
pub percent_le : (a b : ℕ) → 0 < b → a ≤ b → percent a b ≤ 100
unfolding percent times
percent_le a b p h =
    let x = divide a b in
    let small : x.mantissa ≤ 1 * 2 ^ x.scale = divide_le a b 1 p (omega arith) in
    math_round_le (divide (x.mantissa * 100) (2 ^ x.scale)) 100
      (divide_le (x.mantissa * 100) (2 ^ x.scale) 100 (pow_pos x.scale) (omega (arith, small)))

-- The product with a hundred falls below a half here, which exact arithmetic would round up.
rounds_down : percent 29 200 ≡ 14
unfolding percent times divide math_round scale_from round_even
rounds_down = refl
