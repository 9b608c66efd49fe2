-- ===== src/Infix/Brackets.antt =====
-- What `infixcalc` returns for the text of an expression, and for one with a parenthesis too many.
use mathlib.Core.Path.{subst}
use dlite.Base.{
  ℕ, zero, suc, ◌-◌, ◌≡◌, refl, ◌∙◌, ap, true, false, Option, none, some, Text, List, [], ◌∷◌,
  arith, length, ℤ, Option-cases, Bool-cases, inl, inr,
}
use dlite.Strutils.Quote.{is_space}
use dlite.Infix.Operators.{Operator, Calc, error, stop, undefined, ◌>>=◌, CalcError, opinfo}
use dlite.Infix.Parse.{TokenValue, InfixCalcVariable, parse_token}
use dlite.Infix.Calc.{
  Stacks, eval, switch, take_token, token_loop, drain_loop, last_value, infixcalc,
}
use dlite.Infix.Tree.{
  Expr, num, bin, paren, IsWellFormed, tokens, evaluate, run, bind_assoc, bind_congr, bind-value,
}
use dlite.Infix.Meaning.{meaning, outcome, evaluate-meaning}
use dlite.Infix.Precedence.{Reduces, strength-positive, run-tokens}

-- The tokens of a text between blanks, none where there is something else. The first `skip`
-- characters belong to the token before.
unfoldable pub scan_tokens : List InfixCalcVariable → ℕ → Text → Option (List TokenValue)
scan_tokens vars skip [] = some []
scan_tokens vars (suc skip) (c ∷ p) = scan_tokens vars skip p
scan_tokens vars zero (c ∷ p) = elim (is_space c) [
  | true ↦ scan_tokens vars zero p
  | false ↦ elim (parse_token (c ∷ p) vars) [
    | none ↦ none
    | some t ↦ elim (scan_tokens vars (t.1 - 1) p) [ none ↦ none | some ts ↦ some (t.0 ∷ ts) ]
  ]
]

-- `x` is what the tokens make of `s`, where there are tokens.
abbrev Agrees : Option (List TokenValue) → Stacks → Calc Stacks → Type 0
Agrees none s x = Unit {0}
Agrees (some ts) s x = x ≡ run ts s

Agrees-step :
    (t : TokenValue) (rest : Option (List TokenValue)) (s : Stacks) (k : Stacks → Calc Stacks)
    → ((s' : Stacks) → Agrees rest s' (k s'))
    → Agrees
        (elim rest as (λ _. Option (List TokenValue)) [ none ↦ none | some ts ↦ some (t ∷ ts) ])
        s
        (take_token t s >>= k)
Agrees-step t none s k h = tt
Agrees-step t (some ts) s k h = bind_congr (take_token t s) h

token_loop-scan_tokens :
    (total : ℕ) (vars : List InfixCalcVariable) (skip : ℕ) (p : Text) (s : Stacks)
    → Agrees (scan_tokens vars skip p) s (token_loop total vars skip p s)
unfolding scan_tokens token_loop
token_loop-scan_tokens total vars skip [] s = refl
token_loop-scan_tokens total vars (suc skip) (c ∷ p) s = token_loop-scan_tokens total vars skip p s
token_loop-scan_tokens total vars zero (c ∷ p) s = elim (Bool-cases (is_space c)) [
  | inl blank ↦ rw (blank, scan_tokens, token_loop) (token_loop-scan_tokens total vars zero p s)
  | inr h ↦ elim (Option-cases (parse_token (c ∷ p) vars)) [
    | inl e ↦ rw (h, scan_tokens, token_loop) (rw (e, scan_tokens, token_loop) tt)
    | inr (t, e) ↦
        rw (h, scan_tokens, token_loop)
          (rw (e, scan_tokens, token_loop)
            (Agrees-step (t.0) (scan_tokens vars (t.1 - 1) p) s _
              (λ s'. token_loop-scan_tokens total vars (t.1 - 1) p s')))
  ]
]

-- The second loop and the rest of `infixcalc`.
abbrev finish : Stacks → Calc ℤ
finish s = drain_loop (s.0) (s.1) >>= last_value

infixcalc-run :
    (expr : Text) (vars : List InfixCalcVariable) (ts : List TokenValue)
    → scan_tokens vars 0 expr ≡ some ts
    → infixcalc expr vars ≡ (run ts ([], []) >>= finish)
unfolding infixcalc
infixcalc-run expr vars ts h =
    ap (λ c. c >>= finish)
      (subst (λ o. Agrees o ([], []) (token_loop (length expr) vars 0 expr ([], []))) h
        (token_loop-scan_tokens (length expr) vars 0 expr ([], [])))

finish-Reduces : (k : ℕ) → Reduces k (λ os. Unit {0}) finish
unfolding drain_loop
finish-Reduces k o vs os q b stronger = bind_assoc (eval o vs) (λ vs'. drain_loop vs' os) last_value

-- For a text whose tokens are those of an expression in which operators of one precedence associate
-- to the left, and weaker operands are in parentheses, `infixcalc` returns the value of the
-- expression in the integers; where a value in it leaves the range of `int`, or a divisor is zero,
-- what it does is undefined.
pub infixcalc-evaluate :
    (expr : Text) (vars : List InfixCalcVariable) (e : Expr)
    → IsWellFormed e
    → scan_tokens vars 0 expr ≡ some (tokens e)
    → infixcalc expr vars ≡ outcome (meaning e)
unfolding drain_loop last_value
infixcalc-evaluate expr vars e h scanned =
    infixcalc-run expr vars (tokens e) scanned
    ∙ run-tokens e 0 (λ os. Unit {0}) finish [] [] h (omega arith) (λ o os u. tt) (finish-Reduces 0)
        tt tt
    ∙ bind-value (evaluate e)
    ∙ evaluate-meaning e

-- What comes of an expression before a parenthesis without start: a message where an operator is
-- left on the stack, and otherwise a failed assertion.
abbrev left_behind : Expr → Calc ℤ
left_behind (num n) = stop
left_behind (bin o l r) =
    evaluate l >>= λ a. evaluate r >>= λ b. error CalcError.missing_start_parenthesis
left_behind (paren e) = evaluate e >>= λ v. stop

-- What is computed of the expression before: all but the operator that is outside parentheses.
abbrev pub unstarted : Expr → Calc ℤ
unstarted (num n) = stop
unstarted (bin o l r) = elim (meaning l) as (λ _. Calc ℤ) [
  | none ↦ undefined
  | some a ↦ elim (meaning r) as (λ _. Calc ℤ) [
    | none ↦ undefined
    | some b ↦ error CalcError.missing_start_parenthesis
  ]
]
unstarted (paren e) = elim (meaning e) as (λ _. Calc ℤ) [ none ↦ undefined | some v ↦ stop ]

finish-open :
    (v : ℤ) → finish (v ∷ [], Operator.parent_open ∷ []) ≡ error (CalcError.not_implemented 0)
unfolding drain_loop eval opinfo
finish-open v = refl

-- For a left parenthesis and the text of an expression, `infixcalc` reports that operators without
-- operands are not implemented, unless an operator of the expression is undefined.
pub infixcalc-unended :
    (expr : Text) (vars : List InfixCalcVariable) (e : Expr)
    → IsWellFormed e
    → scan_tokens vars 0 expr ≡ some (TokenValue.op Operator.parent_open ∷ tokens e)
    → infixcalc expr vars ≡ (evaluate e >>= λ v. error (CalcError.not_implemented 0))
unfolding take_token switch opinfo
infixcalc-unended expr vars e h scanned =
    infixcalc-run expr vars (TokenValue.op Operator.parent_open ∷ tokens e) scanned
    ∙ run-tokens e 0 (λ os. Unit {0}) finish [] (Operator.parent_open ∷ []) h (omega arith)
        (λ o os u. tt) (finish-Reduces 0) tt (strength-positive e h)
    ∙ bind_congr (evaluate e) finish-open
