-- ===== src/Infix/Precedence.antt =====
-- The stacks of src/utils/infixcalc.c while the tokens of an expression are taken.
use dlite.Base.{
  ℕ, ◌≤◌, ◌<◌, ◌≡◌, refl, sym, ◌∙◌, ap, true, false, List, [], ◌∷◌, arith, ltb, ◌==◌, length, ℤ,
}
use dlite.Infix.Operators.{Operator, Calc, value, ◌>>=◌, opinfo, binary_eval}
use dlite.Infix.Parse.{TokenValue}
use dlite.Infix.Calc.{
  Stacks, apply, eval, close_loop, reduce_loop, push_operator, switch, take_token,
}
use dlite.Infix.Tree.{
  Expr, precedence, IsBinary, strength, IsWellFormed, tokens, evaluate, run, bind_assoc, bind_congr,
  bind-value, run-append, num, bin, paren,
}

pub record BinaryFacts (o : Operator) : Type 0 where
  pub positive : 1 ≤ precedence o
  pub bounded : precedence o < 9
  pub not_open : ((opinfo o).code == b'(') ≡ false
  pub switched :
      (s : Stacks) → switch o s ≡ (reduce_loop (precedence o) (s.0) (s.1) >>= push_operator o)

pub IsBinary-facts : (o : Operator) → IsBinary o → BinaryFacts o
unfolding opinfo switch
IsBinary-facts Operator.parent_open h = absurd (omega (arith, h))
IsBinary-facts Operator.parent_close h = absurd (omega (arith, h))
IsBinary-facts Operator.l_or h = record {
  positive = omega arith;
  bounded = omega arith;
  not_open = refl;
  switched = λ s. refl;
}
IsBinary-facts Operator.l_and h = record {
  positive = omega arith;
  bounded = omega arith;
  not_open = refl;
  switched = λ s. refl;
}
IsBinary-facts Operator.eq h = record {
  positive = omega arith;
  bounded = omega arith;
  not_open = refl;
  switched = λ s. refl;
}
IsBinary-facts Operator.neq h = record {
  positive = omega arith;
  bounded = omega arith;
  not_open = refl;
  switched = λ s. refl;
}
IsBinary-facts Operator.greater h = record {
  positive = omega arith;
  bounded = omega arith;
  not_open = refl;
  switched = λ s. refl;
}
IsBinary-facts Operator.smaller h = record {
  positive = omega arith;
  bounded = omega arith;
  not_open = refl;
  switched = λ s. refl;
}
IsBinary-facts Operator.plus h = record {
  positive = omega arith;
  bounded = omega arith;
  not_open = refl;
  switched = λ s. refl;
}
IsBinary-facts Operator.minus h = record {
  positive = omega arith;
  bounded = omega arith;
  not_open = refl;
  switched = λ s. refl;
}
IsBinary-facts Operator.times h = record {
  positive = omega arith;
  bounded = omega arith;
  not_open = refl;
  switched = λ s. refl;
}
IsBinary-facts Operator.divide h = record {
  positive = omega arith;
  bounded = omega arith;
  not_open = refl;
  switched = λ s. refl;
}
IsBinary-facts Operator.modulus h = record {
  positive = omega arith;
  bounded = omega arith;
  not_open = refl;
  switched = λ s. refl;
}
IsBinary-facts Operator.exponent h = record {
  positive = omega arith;
  bounded = omega arith;
  not_open = refl;
  switched = λ s. refl;
}

pub eval-binary :
    (o : Operator) (a b : ℤ) (vs : List ℤ)
    → IsBinary o
    → eval o (b ∷ a ∷ vs) ≡ (binary_eval o a b >>= λ v. value (v ∷ vs))
unfolding eval apply opinfo
eval-binary o a b vs h =
    let enough : ltb (length (b ∷ a ∷ vs)) (opinfo o).nargs ≡ false = ground (arith, h) in
    let two : ((opinfo o).nargs == 2) ≡ true = ground (arith, h) in rw (enough, two) refl

reduce_loop-weaker :
    (p : ℕ) (o : Operator) (vs : List ℤ) (os : List Operator)
    → p ≤ precedence o
    → reduce_loop p vs (o ∷ os) ≡ (eval o vs >>= λ vs'. reduce_loop p vs' os)
unfolding reduce_loop
reduce_loop-weaker p o vs os h =
    let test : ltb (precedence o) p ≡ false = ground (arith, h) in rw (test, reduce_loop) refl

close_loop-binary :
    (o x : Operator) (vs : List ℤ) (os : List Operator)
    → IsBinary o
    → close_loop vs (o ∷ x ∷ os) ≡ (eval o vs >>= λ vs'. close_loop vs' (x ∷ os))
unfolding close_loop
close_loop-binary o x vs os h = rw ((IsBinary-facts o h).not_open, close_loop) refl

-- The top of the operator stack is weaker than `n`.
abbrev pub TopBelow : ℕ → List Operator → Type 0
TopBelow n [] = Unit {0}
TopBelow n (o ∷ os) = precedence o < n

reduce_loop-below :
    (p : ℕ) (vs : List ℤ) (os : List Operator)
    → TopBelow p os
    → reduce_loop p vs os ≡ value (vs, os)
unfolding reduce_loop
reduce_loop-below p vs [] h = refl
reduce_loop-below p vs (o ∷ os) h =
    let test : ltb (precedence o) p ≡ true = ground (arith, h) in rw (test, reduce_loop) refl

-- `f` starts by evaluating the operators on the stack that are at least as strong as `k`, where
-- those below them satisfy `Q`.
abbrev pub Reduces {ℓ} : {A : Type ℓ} → ℕ → (List Operator → Type 0) → (Stacks → Calc A) → Type ℓ
Reduces k Q f =
    (o : Operator) (vs : List ℤ) (os : List Operator)
    → Q os
    → IsBinary o
    → k ≤ precedence o
    → f (vs, o ∷ os) ≡ (eval o vs >>= λ vs'. f (vs', os))

abbrev pub Grows : (List Operator → Type 0) → Type 0
Grows Q = (o : Operator) (os : List Operator) → Q os → Q (o ∷ os)

-- The stacks that a call of `pop` in `close_loop` leaves where it does not report an error.
abbrev pub NonEmpty : List Operator → Type 0
NonEmpty os = 0 < length os

pub strength-positive : (e : Expr) → IsWellFormed e → 1 ≤ strength e
strength-positive (num n) h = omega arith
strength-positive (bin o l r) h = (IsBinary-facts o (h.0)).positive
strength-positive (paren e) h = omega arith

module _ {ℓ} {A : Type ℓ} (f : Stacks → Calc A) where
  pub switch-Reduces :
      (o : Operator) (Q : List Operator → Type 0)
      → IsBinary o
      → Reduces (precedence o) Q λ s. switch o s >>= f
  switch-Reduces o Q h o' vs os q b stronger =
      let switched = (IsBinary-facts o h).switched in
      let step : switch o (vs, o' ∷ os) ≡ (eval o' vs >>= λ vs'. switch o (vs', os)) =
        switched (vs, o' ∷ os)
        ∙ ap (λ c. c >>= push_operator o) (reduce_loop-weaker (precedence o) o' vs os stronger)
        ∙ bind_assoc (eval o' vs) _ (push_operator o)
        ∙ bind_congr (eval o' vs) (λ vs'. sym (switched (vs', os))) in
      ap (λ c. c >>= f) step ∙ bind_assoc (eval o' vs) _ f

  pub close-Reduces : Reduces 1 NonEmpty λ s. close_loop (s.0) (s.1) >>= f
  close-Reduces o vs [] q b stronger = absurd (omega (arith, q))
  close-Reduces o vs (x ∷ os) q b stronger =
      ap (λ c. c >>= f) (close_loop-binary o x vs os b) ∙ bind_assoc (eval o vs) _ f

TopBelow-weaken : (m n : ℕ) (os : List Operator) → m ≤ n → TopBelow m os → TopBelow n os
TopBelow-weaken m n [] h below = tt
TopBelow-weaken m n (o ∷ os) h below = omega (arith, h, below)

switch-below :
    (o : Operator) (vs : List ℤ) (os : List Operator)
    → IsBinary o
    → TopBelow (precedence o) os
    → switch o (vs, os) ≡ value (vs, o ∷ os)
switch-below o vs os h below =
    (IsBinary-facts o h).switched (vs, os)
    ∙ ap (λ c. c >>= push_operator o) (reduce_loop-below (precedence o) vs os below)

close_loop-open :
    (vs : List ℤ) (os : List Operator) → close_loop vs (Operator.parent_open ∷ os) ≡ value (vs, os)
unfolding close_loop opinfo
close_loop-open vs os = refl

-- An operator between two operands that act as their values do stays on the stack above them.
pub run-operands {ℓ} :
    {A : Type ℓ} (o : Operator) (l r : Expr) (f : Stacks → Calc A) (vs : List ℤ)
    (os : List Operator)
    → IsBinary o
    → TopBelow (precedence o) os
    → ((g : Stacks → Calc A)
        → Reduces (precedence o) (λ os'. Unit {0}) g
        → (run (tokens l) (vs, os) >>= g) ≡ (evaluate l >>= λ a. g (a ∷ vs, os)))
    → ((a : ℤ)
        → (run (tokens r) (a ∷ vs, o ∷ os) >>= f) ≡ (evaluate r >>= λ b. f (b ∷ a ∷ vs, o ∷ os)))
    → (run (tokens (bin o l r)) (vs, os) >>= f)
      ≡ (evaluate l >>= λ a. evaluate r >>= λ b. f (b ∷ a ∷ vs, o ∷ os))
unfolding take_token
run-operands o l r f vs os b top hl hr =
    let s : Stacks = (vs, os) in
    let g = λ (s' : Stacks). run (tokens r) s' >>= f in
    ap (λ c. c >>= f) (run-append (tokens l) (TokenValue.op o ∷ tokens r) s)
    ∙ bind_assoc (run (tokens l) s) _ f
    ∙ bind_congr (run (tokens l) s) (λ s'. bind_assoc (switch o s') (run (tokens r)) f)
    ∙ hl (λ s'. switch o s' >>= g) (switch-Reduces g o (λ os'. Unit {0}) b)
    ∙ bind_congr (evaluate l) (λ a. ap (λ c. c >>= g) (switch-below o (a ∷ vs) os b top) ∙ hr a)

-- Whatever follows the tokens of an expression, they act as its value does.
pub run-tokens {ℓ} :
    {A : Type ℓ} (e : Expr) (k : ℕ) (Q : List Operator → Type 0) (f : Stacks → Calc A) (vs : List ℤ)
    (os : List Operator)
    → IsWellFormed e
    → k ≤ strength e
    → Grows Q
    → Reduces k Q f
    → Q os
    → TopBelow (strength e) os
    → (run (tokens e) (vs, os) >>= f) ≡ (evaluate e >>= λ v. f (v ∷ vs, os))
unfolding take_token
run-tokens (num n) k Q f vs os h weak grow red q top = refl
run-tokens (paren e) k Q f vs os h weak grow red q top =
    let s : Stacks = (vs, Operator.parent_open ∷ os) in
    let close = TokenValue.op Operator.parent_close ∷ [] in
    ap (λ c. c >>= f) (run-append (tokens e) close s)
    ∙ bind_assoc (run (tokens e) s) (run close) f
    ∙ bind_congr (run (tokens e) s)
        (λ s'. ap (λ c. c >>= f) (bind-value (close_loop (s'.0) (s'.1))))
    ∙ run-tokens e 1 NonEmpty (λ s'. close_loop (s'.0) (s'.1) >>= f) vs (Operator.parent_open ∷ os)
        h (strength-positive e h) (λ o os' n. omega arith) (close-Reduces f) (omega arith)
        (strength-positive e h)
    ∙ bind_congr (evaluate e) (λ v. ap (λ c. c >>= f) (close_loop-open (v ∷ vs) os))
run-tokens (bin o l r) k Q f vs os (b, (left, (right, (hl, hr)))) weak grow red q top =
    run-operands o l r f vs os b top
      (λ g h.
        run-tokens l (precedence o) (λ os'. Unit {0}) g vs os hl left (λ o' os' u. tt) h tt
          (TopBelow-weaken (precedence o) (strength l) os left top))
      (λ a.
        run-tokens r k Q f (a ∷ vs) (o ∷ os) hr (omega (arith, weak, right)) grow red (grow o os q)
          right)
    ∙ bind_congr (evaluate l) (λ x.
      bind_congr (evaluate r) (λ y.
        red o (y ∷ x ∷ vs) os q b weak
        ∙ ap (λ c. c >>= λ vs'. f (vs', os)) (eval-binary o x y vs b)
        ∙ bind_assoc (binary_eval o x y) _ _)
      ∙ sym (bind_assoc (evaluate r) _ _))
    ∙ sym (bind_assoc (evaluate l) _ _)
