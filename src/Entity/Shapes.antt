-- ===== src/Entity/Shapes.antt =====
-- The sizes of the dimensions of properties that src/dlite-entity.c evaluates.
use mathlib.Core.List.{append_assoc}
use dlite.Base.{
  ℕ, zero, suc, ◌+◌, ◌<◌, ◌≡◌, refl, sym, ap, ◌∙◌, Bool, true, false, ◌||◌, Option, none, some,
  Text, List, [], ◌∷◌, ◌++◌, ℤ, arith, length, length-append, get_elem?, get_elem?-append_left,
  get_elem?-lt,
}
use dlite.Infix.Operators.{Calc, value, error, stop, undefined}
use dlite.Infix.Parse.{InfixCalcVariable}
use dlite.Infix.Calc.{infixcalc}
use dlite.Entity.Dims.{
  to_size, shape_loop, propdims_loop, propdiminds_loop, dimension_variables, instance_propdims_eval,
}

abbrev answers : Calc ℤ → Bool
answers (value v) = true
answers (error e) = true
answers stop = false
answers undefined = false

abbrev pub is_failure : Calc ℤ → Bool
is_failure (value v) = false
is_failure (error e) = true
is_failure stop = true
is_failure undefined = true

-- What is stored for an expression: INT_MIN as a `size_t` where it fails.
abbrev pub stored_size : Calc ℤ → ℕ
stored_size (value v) = to_size v
stored_size (error e) = to_size (ℤ.negsuc 2147483647)
stored_size stop = 0
stored_size undefined = 0

-- No expression of the shape stops the process or is undefined.
abbrev pub Answers : List InfixCalcVariable → List Text → Type 0
Answers vars [] = Unit {0}
Answers vars (expr ∷ shape) = (answers (infixcalc expr vars) ≡ true) × Answers vars shape

abbrev pub AllAnswer : List InfixCalcVariable → List (List Text) → Type 0
AllAnswer vars [] = Unit {0}
AllAnswer vars (shape ∷ shapes) = Answers vars shape × AllAnswer vars shapes

-- Whether the last expression of the shape fails.
abbrev pub last_fails : List InfixCalcVariable → List Text → Bool → Bool
last_fails vars [] failed = failed
last_fails vars (expr ∷ shape) failed = last_fails vars shape (is_failure (infixcalc expr vars))

abbrev pub any_last_fails : List InfixCalcVariable → List (List Text) → Bool
any_last_fails vars [] = false
any_last_fails vars (shape ∷ shapes) = last_fails vars shape false || any_last_fails vars shapes

abbrev pub shape_sizes : List InfixCalcVariable → List Text → List ℕ
shape_sizes vars [] = []
shape_sizes vars (expr ∷ shape) = stored_size (infixcalc expr vars) ∷ shape_sizes vars shape

abbrev pub all_sizes : List InfixCalcVariable → List (List Text) → List ℕ
all_sizes vars [] = []
all_sizes vars (shape ∷ shapes) = shape_sizes vars shape ++ all_sizes vars shapes

shape_loop-shape_sizes :
    (vars : List InfixCalcVariable) (shape : List Text) (failed : Bool)
    → Answers vars shape
    → shape_loop vars shape failed ≡ value (shape_sizes vars shape, last_fails vars shape failed)
unfolding shape_loop
shape_loop-shape_sizes vars [] failed h = refl
shape_loop-shape_sizes vars (expr ∷ shape) failed (here, h) =
    step (infixcalc expr vars) here (shape_loop-shape_sizes vars shape false h)
      (shape_loop-shape_sizes vars shape true h)
  where
    step :
        (m : Calc ℤ)
        → answers m ≡ true
        → shape_loop vars shape false ≡ value (shape_sizes vars shape, last_fails vars shape false)
        → shape_loop vars shape true ≡ value (shape_sizes vars shape, last_fails vars shape true)
        → elim m as (λ _. Calc (List ℕ × Bool)) [
          | stop ↦ stop
          | undefined ↦ undefined
          | value v ↦ elim (shape_loop vars shape false) as (λ _. Calc (List ℕ × Bool)) [
            | stop ↦ stop
            | undefined ↦ undefined
            | error e ↦ error e
            | value r ↦ value (to_size v ∷ r.0, r.1)
          ]
          | error m ↦ elim (shape_loop vars shape true) as (λ _. Calc (List ℕ × Bool)) [
            | stop ↦ stop
            | undefined ↦ undefined
            | error e ↦ error e
            | value r ↦ value (to_size (ℤ.negsuc 2147483647) ∷ r.0, r.1)
          ]
        ]
          ≡ value (stored_size m ∷ shape_sizes vars shape, last_fails vars shape (is_failure m))
    step (value v) a e f = rw e refl
    step (error m) a e f = rw f refl
    step stop a e f = ground (arith, a)
    step undefined a e f = ground (arith, a)

-- What `_instance_propdims_eval` returns for the sizes, if the last expression of no shape fails.
abbrev pub unless_fails : Bool → List ℕ → Option (List ℕ)
unless_fails true sizes = none
unless_fails false sizes = some sizes

unless_fails-append :
    (b any : Bool) (front sizes : List ℕ) (rest : Calc (Option (List ℕ)))
    → rest ≡ value (unless_fails any sizes)
    → elim b as (λ _. Calc (Option (List ℕ))) [
      | true ↦ value none
      | false ↦ elim rest as (λ _. Calc (Option (List ℕ))) [
        | stop ↦ stop
        | undefined ↦ undefined
        | error e ↦ error e
        | value o ↦ elim o as (λ _. Calc (Option (List ℕ))) [
          | none ↦ value none
          | some propdims ↦ value (some (front ++ propdims))
        ]
      ]
    ]
      ≡ value (unless_fails (b || any) (front ++ sizes))
unless_fails-append true any front sizes rest e = refl
unless_fails-append false true front sizes rest e = rw e refl
unless_fails-append false false front sizes rest e = rw e refl

propdims_loop-all_sizes :
    (vars : List InfixCalcVariable) (shapes : List (List Text))
    → AllAnswer vars shapes
    → propdims_loop vars shapes
      ≡ value (unless_fails (any_last_fails vars shapes) (all_sizes vars shapes))
unfolding propdims_loop
propdims_loop-all_sizes vars [] h = refl
propdims_loop-all_sizes vars (shape ∷ shapes) (here, h) =
    rw (shape_loop-shape_sizes vars shape false here, propdims_loop)
      (unless_fails-append (last_fails vars shape false) (any_last_fails vars shapes) _ _ _
        (propdims_loop-all_sizes vars shapes h))

-- If no expression stops the process or is undefined, the evaluation of the dimensions of
-- properties fails exactly if the last expression of some shape does; otherwise it assigns the
-- values of all expressions in order, with INT_MIN as a `size_t` for those that fail.
pub instance_propdims_eval_lem :
    (dims : List (Text × ℕ)) (shapes : List (List Text))
    → AllAnswer (dimension_variables dims) shapes
    → instance_propdims_eval dims shapes
      ≡ value (
          unless_fails
            (any_last_fails (dimension_variables dims) shapes)
            (all_sizes (dimension_variables dims) shapes))
unfolding instance_propdims_eval
instance_propdims_eval_lem dims shapes h =
    propdims_loop-all_sizes (dimension_variables dims) shapes h

get_elem?-append_right :
    (xs ys : List ℕ) (k : ℕ) → get_elem? (xs ++ ys) (length xs + k) ≡ get_elem? ys k
get_elem?-append_right [] ys k = let e : 0 + k ≡ k = omega arith in ap (get_elem? ys) e
get_elem?-append_right (x ∷ xs) ys k =
    let e : length (x ∷ xs) + k ≡ suc (length xs + k) = omega arith in
    ap (get_elem? (x ∷ (xs ++ ys))) e ∙ get_elem?-append_right xs ys k

get_elem?-append_lt :
    (xs ys : List ℕ) (k : ℕ) → k < length xs → get_elem? (xs ++ ys) k ≡ get_elem? xs k
get_elem?-append_lt xs ys k h =
    let (x, e) = get_elem?-lt xs k h in get_elem?-append_left xs ys k x e ∙ sym e

length-shape_sizes :
    (vars : List InfixCalcVariable) (shape : List Text)
    → length (shape_sizes vars shape) ≡ length shape
length-shape_sizes vars [] = refl
length-shape_sizes vars (expr ∷ shape) = ap suc (length-shape_sizes vars shape)

propdiminds-all_sizes :
    (vars : List InfixCalcVariable) (shapes : List (List Text)) (front : List ℕ) (i start j : ℕ)
    (shape : List Text)
    → get_elem? shapes i ≡ some shape
    → get_elem? (propdiminds_loop (length front) shapes) i ≡ some start
    → j < length shape
    → get_elem? (front ++ all_sizes vars shapes) (start + j) ≡ get_elem? (shape_sizes vars shape) j
unfolding propdiminds_loop
propdiminds-all_sizes vars [] front i start j shape e f h = ground (arith, e)
propdiminds-all_sizes vars (s ∷ shapes) front zero start j shape e f h =
    let same : s ≡ shape = cc in
    let here : start ≡ length front = cc in
    let long : j < length (shape_sizes vars s) =
      omega (arith, length-shape_sizes vars s, ap length same, h) in
    rw here (
      get_elem?-append_right front _ j
      ∙ get_elem?-append_lt (shape_sizes vars s) _ j long
      ∙ ap (λ t. get_elem? (shape_sizes vars t) j) same)
propdiminds-all_sizes vars (s ∷ shapes) front (suc i) start j shape e f h =
    let longer : length front + length s ≡ length (front ++ shape_sizes vars s) =
      omega (arith, length-append front (shape_sizes vars s), length-shape_sizes vars s) in
    ap (λ m. get_elem? m (start + j))
      (sym (append_assoc front (shape_sizes vars s) (all_sizes vars shapes)))
    ∙ propdiminds-all_sizes vars shapes (front ++ shape_sizes vars s) i start j shape e
        (ap (λ k. get_elem? (propdiminds_loop k shapes) i) (sym longer) ∙ f) h

assigned :
    (b : Bool) (sizes propdims : List ℕ)
    → value (unless_fails b sizes) ≡ value (some propdims)
    → propdims ≡ sizes
assigned true sizes propdims e = absurd (ground (arith, e))
assigned false sizes propdims e = cc

-- The size of a dimension of a property, among those that the evaluation of the dimensions assigns,
-- is found at the index of the property's first dimension and the number of the dimension, if no
-- expression stops the process or is undefined.
pub propdiminds-instance_propdims_eval :
    (dims : List (Text × ℕ)) (shapes : List (List Text)) (propdims : List ℕ) (i start j : ℕ)
    (shape : List Text)
    → AllAnswer (dimension_variables dims) shapes
    → instance_propdims_eval dims shapes ≡ value (some propdims)
    → get_elem? shapes i ≡ some shape
    → get_elem? (propdiminds_loop 0 shapes) i ≡ some start
    → j < length shape
    → get_elem? propdims (start + j) ≡ get_elem? (shape_sizes (dimension_variables dims) shape) j
propdiminds-instance_propdims_eval dims shapes propdims i start j shape answer e f g h =
    let same : propdims ≡ all_sizes (dimension_variables dims) shapes =
      assigned (any_last_fails (dimension_variables dims) shapes) _ propdims
        (sym (instance_propdims_eval_lem dims shapes answer) ∙ e) in
    ap (λ m. get_elem? m (start + j)) same
    ∙ propdiminds-all_sizes (dimension_variables dims) shapes [] i start j shape f g h
