-- ===== src/Infix/Operators.antt =====
-- The operators of src/utils/infixcalc.c and their evaluation. An `int` is an integer of 32 bits.
use dlite.Base.{
  ℕ, zero, suc, ◌/◌, ◌%◌, Bool, true, false, not, ◌&&◌, ◌||◌, Option, none, some, List, [], ◌∷◌,
  ltb, ◌==◌, if◌then◌else◌, ℤ, ◌+ℤ◌, ◌*ℤ◌, neg_pos, eqℤ, ltℤ,
}

pub data Operator : Type 0 where
  parent_open : Operator
  parent_close : Operator
  l_or : Operator
  l_and : Operator
  eq : Operator
  neq : Operator
  greater : Operator
  smaller : Operator
  plus : Operator
  minus : Operator
  times : Operator
  divide : Operator
  modulus : Operator
  exponent : Operator

-- The messages of `infixcalc`; an invalid token comes with its position.
pub data CalcError : Type 0 where
  too_few_arguments : Operator → CalcError
  not_implemented : ℕ → CalcError
  invalid_token : ℕ → CalcError
  missing_start_parenthesis : CalcError
  missing_operator : CalcError
  missing_operands : CalcError

-- A call returns a value or an error message, or the process stops at an assertion, or it computes
-- what C leaves undefined: an overflow of `int` or a division by zero.
pub data Calc {ℓ} (A : Type ℓ) : Type ℓ where
  value : A → Calc A
  error : CalcError → Calc A
  stop : Calc A
  undefined : Calc A

infixl 5 ◌>>=◌
abbrev pub ◌>>=◌ {ℓ κ} : {A : Type ℓ} {B : Type κ} → Calc A → (A → Calc B) → Calc B
value a >>= f = f a
error e >>= f = error e
stop >>= f = stop
undefined >>= f = undefined

pub record OpInfo : Type 0 where
  pub op : Operator
  pub code : ℕ
  pub precedence : ℕ
  pub nargs : ℕ

abbrev info : Operator → ℕ → ℕ → ℕ → OpInfo
info op code precedence nargs = record {
  op = op;
  code = code;
  precedence = precedence;
  nargs = nargs;
}

-- The line of an operator in the table.
unfoldable pub opinfo : Operator → OpInfo
opinfo Operator.parent_open = info Operator.parent_open b'(' 0 0
opinfo Operator.parent_close = info Operator.parent_close b')' 0 0
opinfo Operator.l_or = info Operator.l_or b'|' 1 2
opinfo Operator.l_and = info Operator.l_and b'&' 2 2
opinfo Operator.eq = info Operator.eq b'=' 3 2
opinfo Operator.neq = info Operator.neq b'!' 4 2
opinfo Operator.greater = info Operator.greater b'>' 5 2
opinfo Operator.smaller = info Operator.smaller b'<' 5 2
opinfo Operator.plus = info Operator.plus b'+' 6 2
opinfo Operator.minus = info Operator.minus b'-' 6 2
opinfo Operator.times = info Operator.times b'*' 7 2
opinfo Operator.divide = info Operator.divide b'/' 7 2
opinfo Operator.modulus = info Operator.modulus b'%' 7 2
opinfo Operator.exponent = info Operator.exponent b'^' 8 2

abbrev operators : List Operator
operators =
    Operator.parent_open ∷ Operator.parent_close ∷ Operator.l_or ∷ Operator.l_and ∷ Operator.eq
    ∷ Operator.neq ∷ Operator.greater ∷ Operator.smaller ∷ Operator.plus ∷ Operator.minus
    ∷ Operator.times ∷ Operator.divide ∷ Operator.modulus ∷ Operator.exponent ∷ []

-- The loop of `get_opinfo`.
abbrev opinfo_loop : ℕ → List Operator → Option OpInfo
unfolding opinfo
opinfo_loop c [] = none
opinfo_loop c (op ∷ ops) = if c == (opinfo op).code then some (opinfo op) else opinfo_loop c ops

unfoldable pub get_opinfo : ℕ → Option OpInfo
unfolding opinfo
get_opinfo c = opinfo_loop c operators

abbrev fits_int : ℤ → Bool
fits_int (ℤ.pos n) = ltb n 2147483648
fits_int (ℤ.negsuc n) = ltb n 2147483648

-- The result of a computation on `int`.
unfoldable pub int_result : ℤ → Calc ℤ
int_result z = if fits_int z then value z else undefined

abbrev pub negate : ℤ → ℤ
negate (ℤ.pos n) = neg_pos n
negate (ℤ.negsuc n) = ℤ.pos (suc n)

abbrev size : ℤ → ℕ
size (ℤ.pos n) = n
size (ℤ.negsuc n) = suc n

-- Division towards zero.
abbrev pub quotient : ℤ → ℤ → ℤ
quotient (ℤ.pos m) (ℤ.pos n) = ℤ.pos (m / n)
quotient (ℤ.pos m) (ℤ.negsuc n) = neg_pos (m / suc n)
quotient (ℤ.negsuc m) (ℤ.pos n) = neg_pos (suc m / n)
quotient (ℤ.negsuc m) (ℤ.negsuc n) = ℤ.pos (suc m / suc n)

-- The remainder, with the sign of the dividend.
abbrev pub remainder : ℤ → ℤ → ℤ
remainder (ℤ.pos m) b = ℤ.pos (m % size b)
remainder (ℤ.negsuc m) b = neg_pos (suc m % size b)

abbrev pub truth_int : Bool → ℤ
truth_int true = ℤ.pos 1
truth_int false = ℤ.pos 0

abbrev is_true : ℤ → Bool
is_true z = not (eqℤ z (ℤ.pos 0))

-- The loop for powers, with the rounds that are left.
unfoldable pub power_loop : ℕ → ℤ → ℤ → Calc ℤ
unfolding int_result
power_loop zero arg1 v = value v
power_loop (suc rounds) arg1 v = int_result (v *ℤ arg1) >>= power_loop rounds arg1

abbrev rounds_of : ℤ → ℕ
rounds_of (ℤ.pos n) = n
rounds_of (ℤ.negsuc n) = 0

unfoldable pub binary_eval : Operator → ℤ → ℤ → Calc ℤ
unfolding int_result power_loop
binary_eval Operator.l_or a b = value (truth_int (is_true a || is_true b))
binary_eval Operator.l_and a b = value (truth_int (is_true a && is_true b))
binary_eval Operator.eq a b = value (truth_int (eqℤ a b))
binary_eval Operator.neq a b = value (truth_int (not (eqℤ a b)))
binary_eval Operator.greater a b = value (truth_int (ltℤ b a))
binary_eval Operator.smaller a b = value (truth_int (ltℤ a b))
binary_eval Operator.plus a b = int_result (a +ℤ b)
binary_eval Operator.minus a b = int_result (a +ℤ negate b)
binary_eval Operator.times a b = int_result (a *ℤ b)
binary_eval Operator.divide a b = if is_true b then int_result (quotient a b) else undefined
binary_eval Operator.modulus a b =
    if is_true b then int_result (quotient a b) >>= (λ q. value (remainder a b)) else undefined
binary_eval Operator.exponent a b = power_loop (rounds_of b) a (ℤ.pos 1)
binary_eval Operator.parent_open a b = value (ℤ.pos 0)
binary_eval Operator.parent_close a b = value (ℤ.pos 0)
