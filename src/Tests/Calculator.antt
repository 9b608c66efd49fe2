-- ===== src/Tests/Calculator.antt =====
-- Runs of the calculator of src/utils/infixcalc.c, and the theorems at concrete texts.
use dlite.Base.{◌≡◌, ◌↔◌, refl, true, false, List, [], ◌∷◌, codes, arith, ℤ}
use dlite.Infix.Operators.{Operator, value, error, stop, undefined, CalcError, opinfo, binary_eval}
use dlite.Infix.Parse.{InfixCalcVariable, parse_token}
use dlite.Infix.Calc.{infixcalc, infixcalc_depend}
use dlite.Infix.Tree.{Expr, num, bin, paren, IsWellFormed}
use dlite.Infix.Meaning.{meaning, outcome}
use dlite.Infix.Brackets.{scan_tokens, infixcalc-evaluate, infixcalc-unended}
use dlite.Infix.Depend.{StandsIn, infixcalc_depend_lem}

abbrev variables : List InfixCalcVariable
variables =
    record { name = codes "N"; int_value = ℤ.pos 3 }
    ∷ record { name = codes "m"; int_value = ℤ.negsuc 0 }
    ∷ []

abbrev nine_and_four : Expr
nine_and_four =
    bin Operator.plus (bin Operator.exponent (num (ℤ.pos 3)) (num (ℤ.pos 2))) (num (ℤ.pos 4))

-- 2 * ((3^2 + 4) - N)
abbrev product : Expr
product =
    bin Operator.times (num (ℤ.pos 2))
      (paren (bin Operator.minus (paren nine_and_four) (num (ℤ.pos 3))))

nine_and_four-IsWellFormed : IsWellFormed nine_and_four
unfolding opinfo
nine_and_four-IsWellFormed =
    (refl, (omega arith, (omega arith, ((refl, (omega arith, (omega arith, (tt, tt)))), tt))))

product-IsWellFormed : IsWellFormed product
unfolding opinfo
product-IsWellFormed = (
  refl,
  (
    omega arith,
    (omega arith, (tt, (refl, (omega arith, (omega arith, (nine_and_four-IsWellFormed, tt)))))),
  ),
)

calculated : infixcalc (codes " 0x10 - 010*N %2") variables ≡ value (ℤ.pos 16)
unfolding infixcalc
calculated = refl

negative : infixcalc (codes "2 < 1 | m - 7 / 2") variables ≡ value (ℤ.pos 1)
unfolding infixcalc
negative = refl

left_associative : infixcalc (codes "10-4-3") [] ≡ value (ℤ.pos 3)
unfolding infixcalc
left_associative = refl

unary : infixcalc (codes "1--1") [] ≡ error (CalcError.too_few_arguments Operator.minus)
unfolding infixcalc
unary = refl

unknown : infixcalc (codes "5 / pi") variables ≡ error (CalcError.invalid_token 4)
unfolding infixcalc
unknown = refl

blank : infixcalc (codes " ") [] ≡ error CalcError.missing_operands
unfolding infixcalc
blank = refl

no_operator : infixcalc (codes "1 1") [] ≡ error CalcError.missing_operator
unfolding infixcalc
no_operator = refl

by_zero : infixcalc (codes "1/0") [] ≡ undefined
unfolding infixcalc
by_zero = refl

too_large : infixcalc (codes "2^31") [] ≡ undefined
unfolding infixcalc
too_large = refl

-- The outermost operator is not computed.
not_divided : infixcalc (codes "1/0)") [] ≡ error CalcError.missing_start_parenthesis
unfolding infixcalc
not_divided = refl

infixcalc-evaluate_example :
    infixcalc (codes "2 * ((3^2 + 4) - N)") variables ≡ outcome (meaning product)
unfolding scan_tokens parse_token
infixcalc-evaluate_example =
    infixcalc-evaluate (codes "2 * ((3^2 + 4) - N)") variables product product-IsWellFormed refl

one_too_many : infixcalc (codes "(1))") [] ≡ stop
unfolding infixcalc
one_too_many = refl

infixcalc-unended_example : infixcalc (codes "(3^2 + 4") [] ≡ error (CalcError.not_implemented 0)
unfolding scan_tokens parse_token binary_eval
infixcalc-unended_example =
    infixcalc-unended (codes "(3^2 + 4") [] nine_and_four nine_and_four-IsWellFormed refl

infixcalc_depend_lem_example :
    (infixcalc_depend (codes "N1*(N+2)") (codes "N") ≡ true)
    ↔ StandsIn (codes "N") false (codes "N1*(N+2)")
infixcalc_depend_lem_example = infixcalc_depend_lem b'N' [] (codes "N1*(N+2)") (refl, tt)

depends : infixcalc_depend (codes "N1*(N+2)") (codes "N") ≡ true
unfolding infixcalc_depend
depends = refl

independent : infixcalc_depend (codes "N1*(NN+2)") (codes "N") ≡ false
unfolding infixcalc_depend
independent = refl
