-- ===== src/Tests/Mappings.antt =====
-- Examples of the search for mappings: plugins that stand in each other's way, and witnesses.
use dlite.Base.{
  Returns, of_bool, ◌≤◌, arith, text_eq_iff, ◌≢◌, ℕ, Bool, true, false, ◌≡◌, refl, List, [], ◌∷◌,
  Option, none, some, Text, text_eq, codes, ℤ,
}
use dlite.Mapping.{Plugin, Mapping, Inputs, Run, ◌>>=◌}
use dlite.Mapping.Create.{dlite_mapping_create}
use dlite.Mapping.Valid.{Answer, is_listed}
use dlite.Mapping.Answer.{dlite_mapping_create-Answer, dlite_mapping_create_terminates}
use dlite.Mapping.Metadata.{dlite_mapping-metadata}
use dlite.Mapping.Apply.{Mapper}
use dlite.Mapping.Whole.{dlite_mapping, dlite_mapping_free}
use dlite.Mapping.Release.{uses, dlite_mapping_free-uses}
use dlite.InstanceStore.Store.{with_refs}
use dlite.Tests.Instances.{map_of_entries, keys_of_entries}

abbrev is_done {ℓ} : {A : Type ℓ} → Run A → Bool
is_done (Run.done a) = true
is_done Run.fault = false
is_done Run.out_of_fuel = false

abbrev plugin : Text → List Text → Plugin
plugin out ins = record { name = out; output_uri = out; input_uris = ins; cost = ℤ.pos 20 }

-- `a` is made from `b`, which nothing makes, or else from `x`; `out` needs `a` and `b`.
abbrev stumbling : List Plugin
stumbling =
    plugin (codes "out") (codes "a" ∷ codes "b" ∷ [])
    ∷ plugin (codes "a") (codes "b" ∷ [])
    ∷ plugin (codes "a") (codes "x" ∷ [])
    ∷ []

-- A dead end that is found while another input is realised fails an assert.
stumbles :
    dlite_mapping_create map_of_entries map_of_entries stumbling (codes "out") (codes "x" ∷ [])
    ≡ Run.fault
unfolding dlite_mapping_create text_eq
stumbles = refl

abbrev cyclic : List Plugin
cyclic =
    plugin (codes "out") (codes "a" ∷ [])
    ∷ plugin (codes "a") (codes "b" ∷ [])
    ∷ plugin (codes "b") (codes "a" ∷ [])
    ∷ plugin (codes "b") (codes "x" ∷ [])
    ∷ []

abbrev from : Text → Inputs → ℤ → Text → Mapping
from uri ins cost input = Mapping.mapping (some (plugin uri (input ∷ []))) uri ins cost

abbrev cyclic_tree : Mapping
cyclic_tree =
    from (codes "out")
      (Inputs.input_map
        (from (codes "a")
          (Inputs.input_map
            (from (codes "b") (Inputs.input_uri (codes "x") Inputs.end) (ℤ.pos 20) (codes "x"))
            Inputs.end)
          (ℤ.pos 40) (codes "b"))
        Inputs.end)
      (ℤ.pos 60) (codes "a")

around_a_cycle :
    dlite_mapping_create map_of_entries map_of_entries cyclic (codes "out") (codes "x" ∷ [])
    ≡ Run.done (some cyclic_tree)
unfolding dlite_mapping_create text_eq
around_a_cycle = refl

abbrev diamond : List Plugin
diamond =
    plugin (codes "out") (codes "a" ∷ codes "b" ∷ [])
    ∷ plugin (codes "a") (codes "c" ∷ [])
    ∷ plugin (codes "b") (codes "c" ∷ [])
    ∷ plugin (codes "c") (codes "x" ∷ [])
    ∷ []

-- The instance `1x` has the metadata `x`.
abbrev metadata : Text → Text
metadata [] = []
metadata (c ∷ uri) = uri

abbrev make : Mapper
make p args refs = (with_refs refs (b'1' ∷ p.output_uri) 1, some (b'1' ∷ p.output_uri))

abbrev two_each : Text → ℕ
two_each uuid = 2

-- What `dlite_mapping` returns, and the reference counts of `1x` and `1y` then.
abbrev made_from : List Plugin → List Text → Run (Option Text × (ℕ × ℕ))
made_from plugins instances =
    dlite_mapping map_of_entries keys_of_entries map_of_entries metadata make plugins (codes "out")
      instances two_each
    >>= λ r. Run.done (r.1, (r.0 (codes "1x"), r.0 (codes "1y")))

maps_an_instance : made_from cyclic (codes "1x" ∷ []) ≡ Run.done (some (codes "1out"), (2, 2))
unfolding dlite_mapping text_eq
maps_an_instance = refl

-- An input that the mapping does not use loses a reference.
loses_a_reference :
    made_from cyclic (codes "1x" ∷ codes "1y" ∷ []) ≡ Run.done (some (codes "1out"), (2, 1))
unfolding dlite_mapping text_eq
loses_a_reference = refl

-- A mapping that two inputs share is freed twice.
frees_twice : made_from diamond (codes "1x" ∷ []) ≡ Run.fault
unfolding dlite_mapping text_eq
frees_twice = refl

maps_a_diamond :
    is_done
      (dlite_mapping_create map_of_entries map_of_entries diamond (codes "out") (codes "x" ∷ []))
    ≡ true
unfolding dlite_mapping_create text_eq
maps_a_diamond = refl

abbrev beside : List Plugin
beside =
    plugin (codes "out") (codes "a" ∷ codes "z" ∷ [])
    ∷ plugin (codes "out") (codes "b" ∷ [])
    ∷ plugin (codes "a") (codes "b" ∷ [])
    ∷ plugin (codes "a") (codes "x" ∷ [])
    ∷ plugin (codes "b") (codes "a" ∷ [])
    ∷ []

-- `out` can be made of `b`, `b` of `a` and `a` of `x`, but the search takes `b` for a dead end,
-- since it met `b` while it was visiting `a`.
misses_a_mapping :
    dlite_mapping_create map_of_entries map_of_entries beside (codes "out") (codes "x" ∷ [])
    ≡ Run.done none
unfolding dlite_mapping_create text_eq
misses_a_mapping = refl

make_makes :
    (p : Plugin) (args : List (Option Text)) (refs : Text → ℕ) (inst : Text)
    → (make p args refs).1 ≡ some inst
    → metadata inst ≡ p.output_uri
make_makes p args refs inst e = let same : b'1' ∷ p.output_uri ≡ inst = cc in rw (← same)

dlite_mapping-metadata_example :
    (dlite_mapping map_of_entries keys_of_entries map_of_entries metadata make cyclic
        (codes "out")
        (codes "1x" ∷ [])
        two_each
      ≢ Run.out_of_fuel)
    × ((after : Text → ℕ) (inst : Text)
        → dlite_mapping map_of_entries keys_of_entries map_of_entries metadata make cyclic
            (codes "out")
            (codes "1x" ∷ [])
            two_each
          ≡ Run.done (after, some inst)
        → metadata inst ≡ codes "out")
dlite_mapping-metadata_example =
    dlite_mapping-metadata map_of_entries keys_of_entries map_of_entries metadata make make_makes
      cyclic (codes "out") (codes "1x" ∷ []) two_each

dlite_mapping_create_terminates_example :
    dlite_mapping_create map_of_entries map_of_entries cyclic (codes "out") (codes "x" ∷ [])
    ≢ Run.out_of_fuel
dlite_mapping_create_terminates_example =
    dlite_mapping_create_terminates map_of_entries map_of_entries cyclic (codes "out")
      (codes "x" ∷ [])

dlite_mapping_create-Answer_example :
    Answer cyclic (codes "out") (is_listed (codes "x" ∷ [])) cyclic_tree
dlite_mapping_create-Answer_example =
    dlite_mapping_create-Answer map_of_entries map_of_entries cyclic (codes "out") (codes "x" ∷ [])
      cyclic_tree around_a_cycle

uses_once : (k : Text) → uses k cyclic_tree ≤ 1
unfolding uses
uses_once k =
    ground
      (arith, text_eq_iff (codes "out") k, text_eq_iff (codes "a") k, text_eq_iff (codes "b") k)

dlite_mapping_free-uses_example :
    Returns
      (dlite_mapping_free cyclic_tree [])
      (λ freed. (k : Text) → of_bool (is_listed freed k) ≡ uses k cyclic_tree)
dlite_mapping_free-uses_example = dlite_mapping_free-uses cyclic_tree uses_once
