-- ===== src/Infix/Tree.antt =====
-- Expressions with the precedence of their operators, and what `infixcalc` makes of their tokens.
use dlite.Base.{ℕ, ◌≤◌, ◌<◌, ◌≡◌, refl, sym, ◌∙◌, List, [], ◌∷◌, ◌++◌, ℤ}
use dlite.Infix.Operators.{
  Operator, Calc, value, error, stop, undefined, ◌>>=◌, opinfo, binary_eval,
}
use dlite.Infix.Parse.{TokenValue}
use dlite.Infix.Calc.{Stacks, take_token}

pub data Expr : Type 0 where
  num : ℤ → Expr
  bin : Operator → Expr → Expr → Expr
  paren : Expr → Expr

abbrev pub precedence : Operator → ℕ
unfolding opinfo
precedence o = (opinfo o).precedence

abbrev pub IsBinary : Operator → Type 0
unfolding opinfo
IsBinary o = (opinfo o).nargs ≡ 2

-- The precedence of the outermost operator.
abbrev pub strength : Expr → ℕ
strength (num n) = 9
strength (bin o l r) = precedence o
strength (paren e) = 9

-- Operators of one precedence associate to the left, and weaker ones stand in parentheses.
abbrev pub IsWellFormed : Expr → Type 0
IsWellFormed (num n) = Unit {0}
IsWellFormed (bin o l r) =
    IsBinary o
    × ((precedence o ≤ strength l)
        × ((precedence o < strength r) × (IsWellFormed l × IsWellFormed r)))
IsWellFormed (paren e) = IsWellFormed e

abbrev pub tokens : Expr → List TokenValue
tokens (num n) = TokenValue.val n ∷ []
tokens (bin o l r) = tokens l ++ TokenValue.op o ∷ tokens r
tokens (paren e) =
    TokenValue.op Operator.parent_open ∷ (tokens e ++ TokenValue.op Operator.parent_close ∷ [])

-- What the operators of an expression compute.
abbrev pub evaluate : Expr → Calc ℤ
evaluate (num n) = value n
evaluate (bin o l r) = evaluate l >>= λ a. evaluate r >>= λ b. binary_eval o a b
evaluate (paren e) = evaluate e

abbrev pub run : List TokenValue → Stacks → Calc Stacks
run [] s = value s
run (t ∷ ts) s = take_token t s >>= λ s'. run ts s'

pub bind_assoc {ℓ κ μ} :
    {A : Type ℓ} {B : Type κ} {C : Type μ} (x : Calc A) (f : A → Calc B) (g : B → Calc C)
    → (x >>= f >>= g) ≡ (x >>= λ a. f a >>= g)
bind_assoc (value a) f g = refl
bind_assoc (error e) f g = refl
bind_assoc stop f g = refl
bind_assoc undefined f g = refl

pub bind_congr {ℓ κ} :
    {A : Type ℓ} {B : Type κ} (x : Calc A) {f g : A → Calc B}
    → ((a : A) → f a ≡ g a)
    → (x >>= f) ≡ (x >>= g)
bind_congr (value a) h = h a
bind_congr (error e) h = refl
bind_congr stop h = refl
bind_congr undefined h = refl

pub bind-value {ℓ} : {A : Type ℓ} (x : Calc A) → (x >>= λ a. value a) ≡ x
bind-value (value a) = refl
bind-value (error e) = refl
bind-value stop = refl
bind-value undefined = refl

pub run-append : (ts us : List TokenValue) (s : Stacks) → run (ts ++ us) s ≡ (run ts s >>= run us)
run-append [] us s = refl
run-append (t ∷ ts) us s =
    bind_congr (take_token t s) (λ s'. run-append ts us s')
    ∙ sym (bind_assoc (take_token t s) (run ts) (run us))
