-- ===== src/Infix/Parse.antt =====
-- The tokens of src/utils/infixcalc.c. `strtol` and the classes of characters are those of the C
-- library, for a `long` of 64 bits.
use dlite.Base.{
  ℕ, suc, ◌+◌, ◌-◌, ◌%◌, Bool, true, false, ◌&&◌, ◌||◌, Option, none, some, Text, List, [], ◌∷◌,
  ltb, ◌==◌, if◌then◌else◌, ℤ, text_eq, length, take, drop, is_digit, is_alpha, is_word, digit_in,
  read_digits, saturate,
}
use dlite.Infix.Operators.{Operator, opinfo, get_opinfo}

pub data TokenValue : Type 0 where
  val : ℤ → TokenValue
  op : Operator → TokenValue

pub record InfixCalcVariable : Type 0 where
  pub name : Text
  pub int_value : ℤ

abbrev is_hex : Text → Bool
is_hex (z ∷ x ∷ d ∷ cs) =
    z == b'0' && (x == b'x' || x == b'X') && elim (digit_in 16 d) [ none ↦ false | some n ↦ true ]
is_hex _ = false

abbrev is_octal : Text → Bool
is_octal (c ∷ cs) = c == b'0'
is_octal [] = false

-- `strtol(str, &endptr, 0)` on a text that starts with a digit: the result and `endptr - str`.
unfoldable pub strtol : Text → ℕ × ℕ
strtol str =
    if is_hex str
    then (let r = read_digits 16 0 (drop 2 str) in (saturate (r.0), r.1 + 2))
    else if is_octal str
    then (let r = read_digits 8 0 str in (saturate (r.0), r.1))
    else (let r = read_digits 10 0 str in (saturate (r.0), r.1))

-- The conversion of a `long` that is not negative to `int`.
abbrev pub to_int : ℕ → ℤ
to_int n =
    if ltb (n % 4294967296) 2147483648
    then ℤ.pos (n % 4294967296)
    else ℤ.negsuc (4294967295 - n % 4294967296)

-- The loop that determines the length of a name.
abbrev word_length : Text → ℕ
word_length [] = 0
word_length (c ∷ cs) = elim (is_word c) [ true ↦ suc (word_length cs) | false ↦ 0 ]

-- The loop over the variables.
unfoldable pub variable_loop : List InfixCalcVariable → ℕ → Text → Option InfixCalcVariable
unfolding text_eq
variable_loop [] n str = none
variable_loop (v ∷ vars) n str = elim (length v.name == n && text_eq v.name (take n str)) [
  | true ↦ some v
  | false ↦ variable_loop vars n str
]

-- `vars` is empty where it is NULL.
unfoldable pub get_variable : Text → List InfixCalcVariable → Option InfixCalcVariable
unfolding variable_loop
get_variable [] vars = none
get_variable (c ∷ cs) vars =
    if is_alpha c || c == b'_' then variable_loop vars (suc (word_length cs)) (c ∷ cs) else none

-- The token and the number of characters consumed, none for -1.
unfoldable pub parse_token : Text → List InfixCalcVariable → Option (TokenValue × ℕ)
unfolding get_opinfo opinfo get_variable strtol
parse_token [] vars = none
parse_token (c ∷ cs) vars =
    if is_digit c
    then (let r = strtol (c ∷ cs) in some (TokenValue.val (to_int (r.0)), r.1))
    else elim (get_opinfo c) [
      | some o ↦ some (TokenValue.op o.op, 1)
      | none ↦ elim (get_variable (c ∷ cs) vars) [
        | some v ↦ some (TokenValue.val v.int_value, length v.name)
        | none ↦ none
      ]
    ]
