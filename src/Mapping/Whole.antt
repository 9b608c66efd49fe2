-- ===== src/Mapping/Whole.antt =====
-- src/dlite-mapping.c: the deallocation of a tree and `dlite_mapping`, which makes a tree, uses it
-- and frees it.
use dlite.Base.{ℕ, Bool, true, false, List, [], ◌∷◌, Option, none, some, Text, Outcome, done, fault}
use dlite.StringMap.{StringMapOf, KeysOf}
use dlite.InstanceStore.Store.{Stored}
use dlite.Mapping.{Plugin, Mapping, Inputs, Run, ◌>>=◌}
use dlite.Mapping.Create.{mapping_create_base}
use dlite.Mapping.Valid.{is_listed}
use dlite.Mapping.Apply.{Mapper, set_inputs, decref_keys, dlite_mapping_map}

-- The calls that use no fuel.
abbrev pub run {ℓ} : {A : Type ℓ} → Outcome A → Run A
run (done a) = Run.done a
run fault = Run.fault

-- A search makes one mapping for a URI, which several inputs may share, so a mapping is known by
-- its output URI. `freed` lists those that are freed; to look into one of them again is a fault.
unfoldable mutual
  pub dlite_mapping_free : Mapping → List Text → Outcome (List Text)
  dlite_mapping_free (Mapping.mapping api uri ins cost) freed = elim (is_listed freed uri) [
    | true ↦ fault
    | false ↦ elim (free_inputs ins freed) [ fault ↦ fault | done rest ↦ done (uri ∷ rest) ]
  ]

  pub free_inputs : Inputs → List Text → Outcome (List Text)
  free_inputs Inputs.end freed = done freed
  free_inputs (Inputs.input_map m ins) freed = elim (dlite_mapping_free m freed) [
    | fault ↦ fault
    | done rest ↦ free_inputs ins rest
  ]
  free_inputs (Inputs.input_uri uri ins) freed = free_inputs ins freed

module _ {I M : Type 0} (sets : StringMapOf (Option Text) I) (iter : KeysOf (Option Text) I sets)
    (ops : StringMapOf (Option Mapping) M) (meta_uri : Text → Text) (mapper : Mapper)
    (plugins : List Plugin) where
  -- `decref_inputs`: the values of `inputs` are not NULL here.
  unfoldable pub decref_inputs : Stored I → Outcome (Stored I)
  unfolding decref_keys
  decref_inputs s = decref_keys sets meta_uri mapper (iter.keys s.map) s

  -- The part behind the search for a mapping.
  unfoldable pub use_mapping :
      List Text → Stored I → M × Option Mapping → Run ((Text → ℕ) × Option Text)
  unfolding dlite_mapping_map dlite_mapping_free decref_inputs
  use_mapping instances s (created, none) = run (decref_inputs s) >>= λ t. Run.done (t.refs, none)
  use_mapping instances s (created, some m) =
      run (dlite_mapping_map sets meta_uri mapper iter m instances s.refs) >>= λ r.
      run (dlite_mapping_free m []) >>= λ freed.
      run (decref_inputs (record s { refs = r.0 })) >>= λ t. Run.done (t.refs, r.1)

  -- The part behind `set_inputs`.
  unfoldable pub search_and_use :
      Text → List Text → Stored I × Bool → Run ((Text → ℕ) × Option Text)
  unfolding mapping_create_base use_mapping decref_inputs
  search_and_use uri instances (s, false) = run (decref_inputs s) >>= λ t. Run.done (t.refs, none)
  search_and_use uri instances (s, true) =
      mapping_create_base sets ops plugins uri s.map >>= use_mapping instances s

  -- The reference counts behind the call, and the instance or none for NULL.
  unfoldable pub dlite_mapping : Text → List Text → (Text → ℕ) → Run ((Text → ℕ) × Option Text)
  unfolding set_inputs search_and_use
  dlite_mapping uri instances refs =
      run (set_inputs sets meta_uri mapper [] instances (record { map = sets.empty; refs = refs }))
      >>= search_and_use uri instances
