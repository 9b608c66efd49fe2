-- ===== src/Mapping.antt =====
-- src/dlite-mapping.c: the search for a tree of mappings. Children: Create, the functions above
-- the search; Apply, the use of a tree on instances; Whole, its deallocation and dlite_mapping;
-- Ends, the rule for calls; Valid, what a tree is; Steps and Choice, how the loops change the sets;
-- Trees, the search; Answer, what a call returns; Makes and Metadata, what a tree makes;
-- Release, what is freed.
pub mod Create
pub mod Ends
pub mod Valid
pub mod Steps
pub mod Choice
pub mod Trees
pub mod Answer
pub mod Apply
pub mod Whole
pub mod Makes
pub mod Metadata
pub mod Release
use dlite.Base.{
  ℕ, zero, suc, ◌+◌, Bool, true, false, ◌||◌, List, [], ◌∷◌, Option, none, some, Text, text_eq, ltb,
  if◌then◌else◌, ℤ, ◌+ℤ◌, is_negative, ltℤ,
}
use dlite.StringMap.{StringMapOf}

-- What a plugin declares. Its mapper is code outside the repository's core.
pub record Plugin : Type 0 where
  pub name : Text
  pub output_uri : Text
  pub input_uris : List Text
  pub cost : ℤ

-- A mapping, and its inputs: each is a mapping or the URI of an input instance. A mapping without
-- a plugin is the trivial one, whose name is NULL too.
mutual
  pub data Mapping : Type 0 where
    mapping : Option Plugin → Text → Inputs → ℤ → Mapping

  pub data Inputs : Type 0 where
    end : Inputs
    input_map : Mapping → Inputs → Inputs
    input_uri : Text → Inputs → Inputs

abbrev pub output_uri_of : Mapping → Text
output_uri_of (Mapping.mapping api uri ins cost) = uri

abbrev pub cost_of : Mapping → ℤ
cost_of (Mapping.mapping api uri ins cost) = cost

-- What a call does: it returns, it stops at a failed `assert`, or the fuel of the model is used up.
pub data Run {ℓ} (A : Type ℓ) : Type ℓ where
  done : A → Run A
  fault : Run A
  out_of_fuel : Run A

infixl 5 ◌>>=◌
abbrev pub ◌>>=◌ {ℓ κ} : {A : Type ℓ} {B : Type κ} → Run A → (A → Run B) → Run B
Run.done a >>= f = f a
Run.fault >>= f = Run.fault
Run.out_of_fuel >>= f = Run.out_of_fuel

-- The maps of the search. A value is NULL or a mapping; the sets have NULL only.
pub record Search (M : Type 0) : Type 0 where
  pub visited : M
  pub created : M
  pub dead_ends : M

abbrev pub is_some {ℓ} : {A : Type ℓ} → Option A → Bool
is_some none = false
is_some (some a) = true

-- `cost += mapping->cost` behind its `assert`; an int that overflows is undefined.
abbrev pub add_cost : ℤ → ℤ → Run ℤ
add_cost cost c =
    if is_negative c
    then Run.fault
    else if ltℤ (ℤ.pos 2147483647) (cost +ℤ c)
    then Run.fault
    else Run.done (cost +ℤ c)

-- The cheapest plugin up to now and its cost.
abbrev pub Best : Type 0
Best = Option (Plugin × ℤ)

abbrev pub better : Best → Plugin → ℤ → Best
better none p cost = some (p, cost)
better (some (q, lowest)) p cost = if ltℤ cost lowest then some (p, cost) else some (q, lowest)

-- `inputs` is the set of input URIs.
module _ {I M : Type 0} (sets : StringMapOf (Option Text) I)
    (ops : StringMapOf (Option Mapping) M) where
  -- Whether one of the inputs is visited or a dead end.
  unfoldable pub is_blocked : Search M → List Text → Bool
  is_blocked s [] = false
  is_blocked s (uri ∷ uris) =
      (is_some (ops.get s.visited uri) || is_some (ops.get s.dead_ends uri)) || is_blocked s uris

  -- The second loop over the inputs, none where one cannot be realised. `search` is the recursive
  -- call.
  unfoldable pub realise :
      (Text → Search M → Run (Search M × Option Mapping))
      → I
      → List Text
      → ℤ
      → Search M
      → Run (Search M × Option ℤ)
  realise search inputs [] cost s = Run.done (s, some cost)
  realise search inputs (uri ∷ uris) cost s = elim (sets.get inputs uri) [
    | some _ ↦ realise search inputs uris cost s
    | none ↦ elim (ops.get s.created uri) [
      | some none ↦ Run.fault
      | some (some m) ↦ add_cost cost (cost_of m) >>= λ sum. realise search inputs uris sum s
      | none ↦ search uri s >>= λ r. elim (r.1) [
        | none ↦ Run.done (r.0, none)
        | some m ↦ add_cost cost (cost_of m) >>= λ sum. realise search inputs uris sum (r.0)
      ]
    ]
  ]

  -- The loop over the plugins.
  unfoldable pub find_cheapest :
      (Text → Search M → Run (Search M × Option Mapping))
      → I
      → Text
      → List Plugin
      → Best
      → Search M
      → Run (Search M × Best)
  unfolding is_blocked realise
  find_cheapest search inputs uri [] best s = Run.done (s, best)
  find_cheapest search inputs uri (p ∷ plugins) best s = elim (text_eq uri p.output_uri) [
    | false ↦ find_cheapest search inputs uri plugins best s
    | true ↦ elim (is_blocked s p.input_uris) [
      | true ↦ find_cheapest search inputs uri plugins best s
      | false ↦ realise search inputs p.input_uris p.cost s >>= λ r. elim (r.1) [
        | none ↦ find_cheapest search inputs uri plugins best (r.0)
        | some cost ↦ find_cheapest search inputs uri plugins (better best p cost) (r.0)
      ]
    ]
  ]

  -- The loop that fills in the inputs of a new mapping.
  unfoldable pub input_maps : I → M → List Text → Run Inputs
  input_maps inputs created [] = Run.done Inputs.end
  input_maps inputs created (uri ∷ uris) = elim (sets.get inputs uri) [
    | some _ ↦ input_maps inputs created uris >>= λ rest. Run.done (Inputs.input_uri uri rest)
    | none ↦ elim (ops.get created uri) [
      | some (some m) ↦
          input_maps inputs created uris >>= λ rest. Run.done (Inputs.input_map m rest)
      | some none ↦ Run.fault
      | none ↦ Run.fault
    ]
  ]

  -- The part behind the loop over the plugins. Memory does not run out.
  unfoldable pub conclude : I → Text → Search M → Best → Run (Search M × Option Mapping)
  unfolding input_maps
  conclude inputs uri s none = Run.done (
    record s { visited = ops.remove s.visited uri; dead_ends = ops.set s.dead_ends uri none },
    none,
  )
  conclude inputs uri s (some (p, lowest)) = input_maps inputs s.created p.input_uris >>= λ ins.
      let m = Mapping.mapping (some p) p.output_uri ins lowest in
      Run.done (
        record s { visited = ops.remove s.visited uri; created = ops.set s.created uri (some m) },
        some m,
      )

  -- The three asserts at the start.
  unfoldable pub is_refused : I → Text → Search M → Bool
  is_refused inputs uri s =
      is_some (sets.get inputs uri)
      || (is_some (ops.get s.dead_ends uri) || is_some (ops.get s.visited uri))

  unfoldable pub mapping_create_rec :
      List Plugin → ℕ → I → Text → Search M → Run (Search M × Option Mapping)
  unfolding is_refused find_cheapest conclude
  mapping_create_rec plugins zero inputs uri s = Run.out_of_fuel
  mapping_create_rec plugins (suc fuel) inputs uri s = elim (is_refused inputs uri s) [
    | true ↦ Run.fault
    | false ↦
        find_cheapest (λ u t. mapping_create_rec plugins fuel inputs u t) inputs uri plugins none
          (record s { visited = ops.set s.visited uri none })
        >>= λ r. conclude inputs uri (r.0) (r.1)
  ]
