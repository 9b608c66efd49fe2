-- ===== src/Infix/Calc.antt =====
-- The stacks of src/utils/infixcalc.c, with the top first, and the calculator. A failed assertion
-- of `pop` or `poll` stops the process.
use dlite.Base.{
  is_word, ℕ, zero, suc, ◌-◌, Bool, true, false, Option, none, some, Text, List, [], ◌∷◌, ltb, ◌==◌,
  if◌then◌else◌, ℤ, length,
}
use dlite.Strutils.Quote.{is_space}
use dlite.Infix.Operators.{
  Operator, Calc, value, error, stop, ◌>>=◌, CalcError, opinfo, binary_eval,
}
use dlite.Infix.Parse.{TokenValue, InfixCalcVariable, parse_token}

-- The value stack and the operator stack.
abbrev pub Stacks : Type 0
Stacks = List ℤ × List Operator

-- The two pops and the push of `eval`.
unfoldable pub apply : Operator → List ℤ → Calc (List ℤ)
unfolding binary_eval
apply o (arg2 ∷ arg1 ∷ vstack) = binary_eval o arg1 arg2 >>= λ v. value (v ∷ vstack)
apply o _ = stop

unfoldable pub eval : Operator → List ℤ → Calc (List ℤ)
unfolding apply opinfo
eval o vstack =
    if ltb (length vstack) (opinfo o).nargs
    then error (CalcError.too_few_arguments o)
    else if (opinfo o).nargs == 2
    then apply o vstack
    else error (CalcError.not_implemented (opinfo o).nargs)

-- The loop for a right parenthesis.
unfoldable pub close_loop : List ℤ → List Operator → Calc Stacks
unfolding eval opinfo
close_loop vstack [] = stop
close_loop vstack (o ∷ ostack) = elim ((opinfo o).code == b'(') [
  | true ↦ value (vstack, ostack)
  | false ↦ elim ostack [
    | [] ↦ error CalcError.missing_start_parenthesis
    | _ ∷ _ ↦ eval o vstack >>= λ vs. close_loop vs ostack
  ]
]

-- The loop for an operator of the given precedence.
unfoldable pub reduce_loop : ℕ → List ℤ → List Operator → Calc Stacks
unfolding eval opinfo
reduce_loop p vstack [] = value (vstack, [])
reduce_loop p vstack (o ∷ ostack) = elim (ltb (opinfo o).precedence p) [
  | true ↦ value (vstack, o ∷ ostack)
  | false ↦ eval o vstack >>= λ vs. reduce_loop p vs ostack
]

abbrev pub push_operator : Operator → Stacks → Calc Stacks
push_operator o s = value (s.0, o ∷ s.1)

-- The `switch` over the operator of a token; the default for the binary operators.
unfoldable pub switch : Operator → Stacks → Calc Stacks
unfolding close_loop reduce_loop opinfo
switch Operator.parent_open s = push_operator Operator.parent_open s
switch Operator.parent_close s = close_loop (s.0) (s.1)
switch o s = reduce_loop (opinfo o).precedence (s.0) (s.1) >>= push_operator o

unfoldable pub take_token : TokenValue → Stacks → Calc Stacks
unfolding switch
take_token (TokenValue.val n) s = value (n ∷ s.0, s.1)
take_token (TokenValue.op o) s = switch o s

-- The first loop of `infixcalc`, at the part of the text that is left, whose first `skip`
-- characters belong to the last token. A token has one character at least.
unfoldable pub token_loop : ℕ → List InfixCalcVariable → ℕ → Text → Stacks → Calc Stacks
unfolding parse_token take_token
token_loop total vars skip [] s = value s
token_loop total vars (suc skip) (c ∷ p) s = token_loop total vars skip p s
token_loop total vars zero (c ∷ p) s = elim (is_space c) [
  | true ↦ token_loop total vars zero p s
  | false ↦ elim (parse_token (c ∷ p) vars) [
    | none ↦ error (CalcError.invalid_token (total - length (c ∷ p)))
    | some t ↦ take_token (t.0) s >>= λ s'. token_loop total vars (t.1 - 1) p s'
  ]
]

-- The second loop.
unfoldable pub drain_loop : List ℤ → List Operator → Calc (List ℤ)
unfolding eval
drain_loop vstack [] = value vstack
drain_loop vstack (o ∷ ostack) = eval o vstack >>= λ vs. drain_loop vs ostack

unfoldable pub last_value : List ℤ → Calc ℤ
last_value [] = error CalcError.missing_operands
last_value (v ∷ []) = value v
last_value (v ∷ w ∷ vs) = error CalcError.missing_operator

-- On an error the source returns INT_MIN, with the message in `err`.
unfoldable pub infixcalc : Text → List InfixCalcVariable → Calc ℤ
unfolding token_loop drain_loop last_value
infixcalc expr vars =
    token_loop (length expr) vars 0 expr ([], []) >>= (λ s. drain_loop (s.0) (s.1) >>= last_value)

-- `strncmp(p, varname, strlen(varname)) == 0`, with what follows `varname` in `p`.
abbrev pub after_prefix : Text → Text → Option Text
after_prefix [] p = some p
after_prefix (x ∷ varname) [] = none
after_prefix (x ∷ varname) (c ∷ p) = elim (x == c) [ true ↦ after_prefix varname p | false ↦ none ]

abbrev pub starts_with_word : Text → Bool
starts_with_word [] = false
starts_with_word (c ∷ p) = is_word c

-- The loop of `infixcalc_depend`, with what precedes `p`; the first `skip` characters of `p` belong
-- to the last occurrence. `varname` is not empty.
unfoldable pub depend_loop : Text → Bool → ℕ → Text → Bool
depend_loop varname after_word skip [] = false
depend_loop varname after_word (suc skip) (c ∷ p) = depend_loop varname (is_word c) skip p
depend_loop varname after_word zero (c ∷ p) = elim (after_prefix varname (c ∷ p)) [
  | none ↦ depend_loop varname (is_word c) zero p
  | some q ↦ elim after_word [
    | true ↦ depend_loop varname (is_word c) (length varname - 1) p
    | false ↦ elim (starts_with_word q) [
      | true ↦ depend_loop varname (is_word c) (length varname - 1) p
      | false ↦ true
    ]
  ]
]

unfoldable pub infixcalc_depend : Text → Text → Bool
unfolding depend_loop
infixcalc_depend expr varname = depend_loop varname false 0 expr
