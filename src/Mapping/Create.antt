-- ===== src/Mapping/Create.antt =====
-- src/dlite-mapping.c: the functions above the search.
use dlite.Base.{suc, List, [], ◌∷◌, Option, none, some, Text, ℤ, length}
use dlite.StringMap.{StringMapOf}
use dlite.Mapping.{Plugin, Mapping, Inputs, Run, ◌>>=◌, mapping_create_rec}

module _ {M : Type 0} (ops : StringMapOf (Option Mapping) M) where
  unfoldable mutual
    pub mapping_remove_rec : Mapping → M → M
    mapping_remove_rec (Mapping.mapping api uri ins cost) created =
        remove_inputs ins (ops.remove created uri)

    pub remove_inputs : Inputs → M → M
    remove_inputs Inputs.end created = created
    remove_inputs (Inputs.input_map m ins) created =
        remove_inputs ins (mapping_remove_rec m created)
    remove_inputs (Inputs.input_uri uri ins) created = remove_inputs ins created

module _ {I M : Type 0} (sets : StringMapOf (Option Text) I)
    (ops : StringMapOf (Option Mapping) M) where
  -- The mapping, and the mappings that are freed at the end: those left in `created`. The fuel is
  -- one more than the number of plugins.
  unfoldable pub mapping_create_base : List Plugin → Text → I → Run (M × Option Mapping)
  unfolding mapping_create_rec mapping_remove_rec
  mapping_create_base plugins uri inputs = elim (sets.get inputs uri) [
    | some _ ↦
        Run.done
          (ops.empty, some (Mapping.mapping none uri (Inputs.input_uri uri Inputs.end) (ℤ.pos 0)))
    | none ↦
        mapping_create_rec sets ops plugins (suc (length plugins)) inputs uri
          (record { visited = ops.empty; created = ops.empty; dead_ends = ops.empty })
        >>= λ r. elim (r.1) [
          | none ↦ Run.done (r.0.created, none)
          | some m ↦ Run.done (mapping_remove_rec ops m (r.0.created), some m)
        ]
  ]

  -- The set of the input URIs, none where one is listed twice.
  unfoldable pub set_of_uris : I → List Text → Option I
  set_of_uris inputs [] = some inputs
  set_of_uris inputs (uri ∷ uris) = elim (sets.get inputs uri) [
    | some _ ↦ none
    | none ↦ set_of_uris (sets.set inputs uri none) uris
  ]

  unfoldable pub dlite_mapping_create : List Plugin → Text → List Text → Run (Option Mapping)
  unfolding mapping_create_base set_of_uris
  dlite_mapping_create plugins uri input_uris = elim (set_of_uris sets.empty input_uris) [
    | none ↦ Run.done none
    | some inputs ↦ mapping_create_base plugins uri inputs >>= λ r. Run.done (r.1)
  ]
