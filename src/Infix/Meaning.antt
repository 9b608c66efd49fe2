-- ===== src/Infix/Meaning.antt =====
-- What the expressions of src/utils/infixcalc.c mean: integers in the range of `int`, or nothing.
use dlite.Base.{
  ℕ, zero, suc, ◌/◌, ◌%◌, ◌≡◌, refl, sym, ◌∙◌, ap, Bool, true, false, ◌||◌, ◌&&◌, not, Option, none,
  some, ltb, if◌then◌else◌, ℤ, ◌+ℤ◌, ◌*ℤ◌, neg_pos, is_negative, eqℤ, ltℤ, arith,
}
use dlite.Infix.Operators.{
  Operator, Calc, value, undefined, ◌>>=◌, int_result, power_loop, binary_eval, truth_int, quotient,
  remainder, negate,
}
use dlite.Infix.Tree.{Expr, num, bin, paren, evaluate, bind_assoc, bind_congr, bind-value}

-- From -2 ^ 31 to 2 ^ 31 - 1.
abbrev in_range : ℤ → Option ℤ
in_range (ℤ.pos n) = if ltb n 2147483648 then some (ℤ.pos n) else none
in_range (ℤ.negsuc n) = if ltb n 2147483648 then some (ℤ.negsuc n) else none

abbrev magnitude : ℤ → ℕ
magnitude (ℤ.pos n) = n
magnitude (ℤ.negsuc n) = suc n

abbrev opposite : ℤ → ℤ
opposite (ℤ.pos n) = neg_pos n
opposite (ℤ.negsuc n) = ℤ.pos (suc n)

abbrev same_sign : ℤ → ℤ → Bool
same_sign a b = (is_negative a && is_negative b) || (not (is_negative a) && not (is_negative b))

abbrev one_if : Bool → Option ℤ
one_if b = some (if b then ℤ.pos 1 else ℤ.pos 0)

-- The power with all smaller ones in range.
abbrev power : ℤ → ℕ → Option ℤ
power a zero = some (ℤ.pos 1)
power a (suc n) = elim (power a n) as (λ _. Option ℤ) [ none ↦ none | some v ↦ in_range (v *ℤ a) ]

-- The exponent; a negative one counts as zero.
abbrev exponent_of : ℤ → ℕ
exponent_of (ℤ.pos n) = n
exponent_of (ℤ.negsuc n) = 0

-- Division towards zero.
abbrev divided : ℤ → ℤ → ℤ
divided a b =
    if same_sign a b then ℤ.pos (magnitude a / magnitude b) else neg_pos (magnitude a / magnitude b)

-- The remainder, with the sign of the dividend.
abbrev left_over : ℤ → ℤ → ℤ
left_over a b =
    if is_negative a then neg_pos (magnitude a % magnitude b) else ℤ.pos (magnitude a % magnitude b)

-- The value of an operator, none where it is out of range or a divisor is zero; a remainder has a
-- value where the quotient has.
abbrev pub operate : Operator → ℤ → ℤ → Option ℤ
operate Operator.plus a b = in_range (a +ℤ b)
operate Operator.minus a b = in_range (a +ℤ opposite b)
operate Operator.times a b = in_range (a *ℤ b)
operate Operator.divide a b = if eqℤ b (ℤ.pos 0) then none else in_range (divided a b)
operate Operator.modulus a b =
    if eqℤ b (ℤ.pos 0) then none else elim (in_range (divided a b)) as (λ _. Option ℤ) [
      | none ↦ none
      | some q ↦ some (left_over a b)
    ]
operate Operator.exponent a b = power a (exponent_of b)
operate Operator.l_or a b = one_if (not (eqℤ a (ℤ.pos 0) && eqℤ b (ℤ.pos 0)))
operate Operator.l_and a b = one_if (not (eqℤ a (ℤ.pos 0) || eqℤ b (ℤ.pos 0)))
operate Operator.eq a b = one_if (eqℤ a b)
operate Operator.neq a b = one_if (not (eqℤ a b))
operate Operator.greater a b = one_if (ltℤ b a)
operate Operator.smaller a b = one_if (ltℤ a b)
operate Operator.parent_open a b = some (ℤ.pos 0)
operate Operator.parent_close a b = some (ℤ.pos 0)

-- The value of an expression, none where one of its operators has none.
abbrev pub meaning : Expr → Option ℤ
meaning (num n) = some n
meaning (bin o l r) = elim (meaning l) as (λ _. Option ℤ) [
  | none ↦ none
  | some a ↦ elim (meaning r) as (λ _. Option ℤ) [ none ↦ none | some b ↦ operate o a b ]
]
meaning (paren e) = meaning e

-- What the calculator does for a value, or for none.
abbrev pub outcome : Option ℤ → Calc ℤ
outcome none = undefined
outcome (some v) = value v

int_result-outcome : (z : ℤ) → int_result z ≡ outcome (in_range z)
unfolding int_result
int_result-outcome (ℤ.pos n) = ground arith
int_result-outcome (ℤ.negsuc n) = ground arith

-- One round more, at the end.
power_loop_last :
    (n : ℕ) (a v : ℤ) → power_loop (suc n) a v ≡ (power_loop n a v >>= λ w. int_result (w *ℤ a))
unfolding power_loop
power_loop_last zero a v = bind-value (int_result (v *ℤ a))
power_loop_last (suc n) a v =
    bind_congr (int_result (v *ℤ a)) (power_loop_last n a)
    ∙ sym (bind_assoc (int_result (v *ℤ a)) (power_loop n a) (λ w. int_result (w *ℤ a)))

power_loop-power : (a : ℤ) (n : ℕ) → power_loop n a (ℤ.pos 1) ≡ outcome (power a n)
unfolding power_loop
power_loop-power a zero = refl
power_loop-power a (suc n) =
    power_loop_last n a (ℤ.pos 1)
    ∙ ap (λ m. m >>= λ w. int_result (w *ℤ a)) (power_loop-power a n)
    ∙ next (power a n)
  where
    next :
        (o : Option ℤ)
        → (outcome o >>= λ w. int_result (w *ℤ a))
          ≡ outcome (elim o as (λ _. Option ℤ) [ none ↦ none | some v ↦ in_range (v *ℤ a) ])
    next none = refl
    next (some v) = int_result-outcome (v *ℤ a)

truth-one_if : (b : Bool) → value (truth_int b) ≡ outcome (one_if b)
truth-one_if true = refl
truth-one_if false = refl

or-one_if : (p q : Bool) → value (truth_int (not p || not q)) ≡ outcome (one_if (not (p && q)))
or-one_if true q = truth-one_if (not q)
or-one_if false q = refl

and-one_if : (p q : Bool) → value (truth_int (not p && not q)) ≡ outcome (one_if (not (p || q)))
and-one_if true q = refl
and-one_if false q = truth-one_if (not q)

negate-opposite : (b : ℤ) → negate b ≡ opposite b
negate-opposite (ℤ.pos n) = refl
negate-opposite (ℤ.negsuc n) = refl

quotient-divided : (a b : ℤ) → quotient a b ≡ divided a b
quotient-divided (ℤ.pos m) (ℤ.pos n) = refl
quotient-divided (ℤ.pos m) (ℤ.negsuc n) = refl
quotient-divided (ℤ.negsuc m) (ℤ.pos n) = refl
quotient-divided (ℤ.negsuc m) (ℤ.negsuc n) = refl

remainder-left_over : (a b : ℤ) → remainder a b ≡ left_over a b
remainder-left_over (ℤ.pos m) (ℤ.pos n) = refl
remainder-left_over (ℤ.pos m) (ℤ.negsuc n) = refl
remainder-left_over (ℤ.negsuc m) (ℤ.pos n) = refl
remainder-left_over (ℤ.negsuc m) (ℤ.negsuc n) = refl

quotient-outcome : (a b : ℤ) → int_result (quotient a b) ≡ outcome (in_range (divided a b))
quotient-outcome a b = ap int_result (quotient-divided a b) ∙ int_result-outcome (divided a b)

divide-outcome :
    (zero_divisor : Bool) (a b : ℤ)
    → (if not zero_divisor then int_result (quotient a b) else undefined)
      ≡ outcome (if zero_divisor then none else in_range (divided a b))
divide-outcome true a b = refl
divide-outcome false a b = quotient-outcome a b

modulus-outcome :
    (zero_divisor : Bool) (a b : ℤ)
    → (if not zero_divisor
        then int_result (quotient a b) >>= (λ q. value (remainder a b))
        else undefined)
      ≡ outcome (
          if zero_divisor then none else elim (in_range (divided a b)) as (λ _. Option ℤ) [
            | none ↦ none
            | some q ↦ some (left_over a b)
          ])
modulus-outcome true a b = refl
modulus-outcome false a b =
    ap (λ m. m >>= λ q. value (remainder a b)) (quotient-outcome a b)
    ∙ next (in_range (divided a b))
  where
    next :
        (o : Option ℤ)
        → (outcome o >>= λ q. value (remainder a b))
          ≡ outcome (elim o as (λ _. Option ℤ) [ none ↦ none | some q ↦ some (left_over a b) ])
    next none = refl
    next (some q) = ap value (remainder-left_over a b)

binary_eval-operate : (o : Operator) (a b : ℤ) → binary_eval o a b ≡ outcome (operate o a b)
unfolding binary_eval
binary_eval-operate Operator.plus a b = int_result-outcome (a +ℤ b)
binary_eval-operate Operator.minus a b =
    ap (λ c. int_result (a +ℤ c)) (negate-opposite b) ∙ int_result-outcome (a +ℤ opposite b)
binary_eval-operate Operator.times a b = int_result-outcome (a *ℤ b)
binary_eval-operate Operator.divide a b = divide-outcome (eqℤ b (ℤ.pos 0)) a b
binary_eval-operate Operator.modulus a b = modulus-outcome (eqℤ b (ℤ.pos 0)) a b
binary_eval-operate Operator.exponent a (ℤ.pos n) = power_loop-power a n
binary_eval-operate Operator.exponent a (ℤ.negsuc n) = power_loop-power a 0
binary_eval-operate Operator.l_or a b = or-one_if (eqℤ a (ℤ.pos 0)) (eqℤ b (ℤ.pos 0))
binary_eval-operate Operator.l_and a b = and-one_if (eqℤ a (ℤ.pos 0)) (eqℤ b (ℤ.pos 0))
binary_eval-operate Operator.eq a b = truth-one_if (eqℤ a b)
binary_eval-operate Operator.neq a b = truth-one_if (not (eqℤ a b))
binary_eval-operate Operator.greater a b = truth-one_if (ltℤ b a)
binary_eval-operate Operator.smaller a b = truth-one_if (ltℤ a b)
binary_eval-operate Operator.parent_open a b = refl
binary_eval-operate Operator.parent_close a b = refl

bin-outcome :
    (o : Operator) (x y : Option ℤ)
    → (outcome x >>= λ a. outcome y >>= λ b. binary_eval o a b)
      ≡ outcome (elim x as (λ _. Option ℤ) [
        | none ↦ none
        | some a ↦ elim y as (λ _. Option ℤ) [ none ↦ none | some b ↦ operate o a b ]
      ])
bin-outcome o none y = refl
bin-outcome o (some a) none = refl
bin-outcome o (some a) (some b) = binary_eval-operate o a b

pub evaluate-meaning : (e : Expr) → evaluate e ≡ outcome (meaning e)
evaluate-meaning (num n) = refl
evaluate-meaning (paren e) = evaluate-meaning e
evaluate-meaning (bin o l r) =
    ap (λ m. m >>= λ a. evaluate r >>= λ b. binary_eval o a b) (evaluate-meaning l)
    ∙ bind_congr (outcome (meaning l))
        (λ a. ap (λ m. m >>= λ b. binary_eval o a b) (evaluate-meaning r))
    ∙ bin-outcome o (meaning l) (meaning r)
