-- ===== src/Mapping/Apply.antt =====
-- src/dlite-mapping.c: the use of a tree of mappings on instances. An instance is known by its
-- UUID, and `meta_uri` gives the URI of its metadata.
use dlite.Base.{
  ℕ, Bool, true, false, List, [], ◌∷◌, Option, none, some, Text, text_eq, Outcome, done, fault,
  ◌>>=◌,
}
use dlite.StringMap.{StringMapOf, KeysOf}
use dlite.InstanceStore.Store.{Stored, dlite_instance_incref, dlite_instance_decref}
use dlite.Mapping.{Plugin, Mapping, Inputs}

-- The mappers of the plugins: the reference counts behind the call, and the instance or NULL.
abbrev pub Mapper : Type 0
Mapper = Plugin → List (Option Text) → (Text → ℕ) → (Text → ℕ) × Option Text

module _ {I : Type 0} (sets : StringMapOf (Option Text) I) (meta_uri : Text → Text)
    (mapper : Mapper) where
  -- A mapper is called; the instance that it makes is counted and kept.
  unfoldable pub call_mapper :
      Option Plugin → Text → List (Option Text) → Stored I → Outcome (Stored I × Option Text)
  unfolding dlite_instance_incref
  call_mapper none uri args s = fault
  call_mapper (some p) uri args s =
      let r = mapper p args s.refs in
      elim (r.1) [
        | none ↦ done (record s { refs = r.0 }, none)
        | some inst ↦ elim (text_eq (meta_uri inst) uri) [
          | false ↦ fault
          | true ↦
              let t = dlite_instance_incref (record s { refs = r.0 }) inst in
              done (record t { map = sets.set s.map (meta_uri inst) (some inst) }, some inst)
        ]
      ]

  unfoldable mutual
    unfolding call_mapper

    pub mapping_map_rec : Mapping → Stored I → Outcome (Stored I × Option Text)
    mapping_map_rec (Mapping.mapping api uri ins cost) s = elim (sets.get s.map uri) [
      | some inst ↦ done (s, inst)
      | none ↦ map_inputs ins s >>= λ r. call_mapper api uri (r.1) (r.0)
    ]

    -- The loop that fills `insts`.
    pub map_inputs : Inputs → Stored I → Outcome (Stored I × List (Option Text))
    map_inputs Inputs.end s = done (s, [])
    map_inputs (Inputs.input_map m ins) s =
        mapping_map_rec m s >>= λ r. map_inputs ins (r.0) >>= λ rest. done (rest.0, r.1 ∷ rest.1)
    map_inputs (Inputs.input_uri uri ins) s = elim (sets.get s.map uri) [
      | none ↦ fault
      | some inst ↦ map_inputs ins s >>= λ rest. done (rest.0, inst ∷ rest.1)
    ]

  -- The loop that takes back what `set_inputs` has done, from the last one on.
  unfoldable pub unset_inputs : List Text → Stored I → Outcome (Stored I)
  unfolding dlite_instance_decref
  unset_inputs [] s = done s
  unset_inputs (inst ∷ before) s =
      dlite_instance_decref (record s { map = sets.remove s.map (meta_uri inst) }) inst
      >>= unset_inputs before

  -- The instances that have been set stand in `before`, the last one first. The flag is whether
  -- all are set.
  unfoldable pub set_inputs : List Text → List Text → Stored I → Outcome (Stored I × Bool)
  unfolding unset_inputs dlite_instance_incref
  set_inputs before [] s = done (s, true)
  set_inputs before (inst ∷ instances) s = elim (sets.get s.map (meta_uri inst)) [
    | some _ ↦ unset_inputs before s >>= λ t. done (t, false)
    | none ↦
        let t = dlite_instance_incref s inst in
        set_inputs (inst ∷ before) instances
          (record t { map = sets.set s.map (meta_uri inst) (some inst) })
  ]

  unfoldable mutual
    pub remove_inputs_rec : Mapping → I → I
    remove_inputs_rec (Mapping.mapping api uri ins cost) inputs =
        sets.remove (remove_each ins inputs) uri

    pub remove_each : Inputs → I → I
    remove_each Inputs.end inputs = inputs
    remove_each (Inputs.input_map m ins) inputs = remove_each ins (remove_inputs_rec m inputs)
    remove_each (Inputs.input_uri uri ins) inputs = remove_each ins (sets.remove inputs uri)

  -- Every instance of a list is counted down.
  unfoldable pub decref_all : List Text → Stored I → Outcome (Stored I)
  unfolding dlite_instance_decref
  decref_all [] s = done s
  decref_all (inst ∷ instances) s = dlite_instance_decref s inst >>= decref_all instances

  -- The instances of a list of keys are counted down; a NULL fails an assert.
  unfoldable pub decref_keys : List Text → Stored I → Outcome (Stored I)
  unfolding dlite_instance_decref
  decref_keys [] s = done s
  decref_keys (uri ∷ uris) s = elim (sets.get s.map uri) [
    | some (some inst) ↦ dlite_instance_decref s inst >>= decref_keys uris
    | some none ↦ fault
    | none ↦ fault
  ]

  -- The instance that `m` makes of the inputs.
  unfoldable pub apply_mapping : Mapping → Stored I → Outcome (Stored I × Option Text)
  unfolding mapping_map_rec dlite_instance_incref
  apply_mapping (Mapping.mapping api uri ins cost) s = elim (sets.get s.map uri) [
    | some (some inst) ↦ elim api [
      | none ↦ done (dlite_instance_incref s inst, some inst)
      | some _ ↦ fault
    ]
    | some none ↦ fault
    | none ↦ elim api [
      | none ↦ fault
      | some p ↦ mapping_map_rec (Mapping.mapping (some p) uri ins cost) s
    ]
  ]

  module _ (iter : KeysOf (Option Text) I sets) where
    -- The part behind `set_inputs`.
    unfoldable pub map_inputs_set :
        Mapping → List Text → Stored I × Bool → Outcome ((Text → ℕ) × Option Text)
    unfolding apply_mapping remove_inputs_rec decref_keys decref_all
    map_inputs_set m instances (s, false) = done (s.refs, none)
    map_inputs_set m instances (s, true) = apply_mapping m s >>= λ r.
        let left = remove_inputs_rec m (r.0.map) in
        decref_keys (iter.keys left) (record r.0 { map = left }) >>= λ t.
        decref_all instances t >>= λ u. done (u.refs, r.1)

    unfoldable pub dlite_mapping_map :
        Mapping → List Text → (Text → ℕ) → Outcome ((Text → ℕ) × Option Text)
    unfolding set_inputs map_inputs_set
    dlite_mapping_map m instances refs =
        set_inputs [] instances (record { map = sets.empty; refs = refs })
        >>= map_inputs_set m instances
