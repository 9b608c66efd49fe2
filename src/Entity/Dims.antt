-- ===== src/Entity/Dims.antt =====
-- `_instance_propdims_eval` of src/dlite-entity.c: the sizes of the dimensions of all properties,
-- which are expressions in the dimensions of the instance, and the indices of the first ones, which
-- `dlite_meta_init` assigns.
use dlite.Base.{
  ℕ, ◌+◌, ◌-◌, Bool, true, false, Option, none, some, Text, List, [], ◌∷◌, ◌++◌, ℤ, length,
}
use dlite.Infix.Operators.{Calc, value, error, stop, undefined}
use dlite.Infix.Parse.{InfixCalcVariable, to_int}
use dlite.Infix.Calc.{infixcalc}

-- The variables: the names of the dimensions with their sizes, as `int`.
unfoldable pub dimension_variables : List (Text × ℕ) → List InfixCalcVariable
dimension_variables [] = []
dimension_variables ((name, dim) ∷ dims) =
    record { name = name; int_value = to_int dim } ∷ dimension_variables dims

-- The conversion of an `int` to `size_t`.
abbrev pub to_size : ℤ → ℕ
to_size (ℤ.pos n) = n
to_size (ℤ.negsuc n) = 18446744073709551615 - n

-- The loop over the dimensions of a property, with its shape. `failed` says whether `errmsg` holds a
-- message, which each call of `infixcalc` sets or clears.
unfoldable pub shape_loop : List InfixCalcVariable → List Text → Bool → Calc (List ℕ × Bool)
unfolding infixcalc
shape_loop vars [] failed = value ([], failed)
shape_loop vars (expr ∷ shape) failed = elim (infixcalc expr vars) [
  | stop ↦ stop
  | undefined ↦ undefined
  | value v ↦ elim (shape_loop vars shape false) [
    | stop ↦ stop
    | undefined ↦ undefined
    | error e ↦ error e
    | value r ↦ value (to_size v ∷ r.0, r.1)
  ]
  | error m ↦ elim (shape_loop vars shape true) [
    | stop ↦ stop
    | undefined ↦ undefined
    | error e ↦ error e
    | value r ↦ value (to_size (ℤ.negsuc 2147483647) ∷ r.0, r.1)
  ]
]

-- The loop over the properties: what is assigned to `propdims`, or none on an error.
unfoldable pub propdims_loop : List InfixCalcVariable → List (List Text) → Calc (Option (List ℕ))
unfolding shape_loop
propdims_loop vars [] = value (some [])
propdims_loop vars (shape ∷ shapes) = elim (shape_loop vars shape false) [
  | stop ↦ stop
  | undefined ↦ undefined
  | error e ↦ error e
  | value r ↦ elim (r.1) [
    | true ↦ value none
    | false ↦ elim (propdims_loop vars shapes) [
      | stop ↦ stop
      | undefined ↦ undefined
      | error e ↦ error e
      | value none ↦ value none
      | value (some propdims) ↦ value (some (r.0 ++ propdims))
    ]
  ]
]

unfoldable pub instance_propdims_eval : List (Text × ℕ) → List (List Text) → Calc (Option (List ℕ))
unfolding propdims_loop dimension_variables
instance_propdims_eval dims shapes = propdims_loop (dimension_variables dims) shapes

-- The loop that assigns `_propdiminds`.
unfoldable pub propdiminds_loop : ℕ → List (List Text) → List ℕ
propdiminds_loop j [] = []
propdiminds_loop j (shape ∷ shapes) = j ∷ propdiminds_loop (j + length shape) shapes
