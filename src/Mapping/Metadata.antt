-- ===== src/Mapping/Metadata.antt =====
-- What `dlite_mapping` of src/dlite-mapping.c returns: the search and the use of a tree composed.
use dlite.Base.{
  Partial, Returns-map, Partial-done, Partial-fault, Partial-Returns, Partial-map, Partial-bind,
  map, ◌||◌, Partial-step, ℕ, ◌≡◌, ◌≢◌, refl, ◌∙◌, sym, ap, inl, inr, Bool, true, false, List, [],
  ◌∷◌, Option, none, some, Option-cases, Bool-cases, Text, text_eq, Outcome, done, fault, arith,
}
use dlite.StringMap.{StringMapOf, KeysOf}
use dlite.InstanceStore.Store.{Stored, dlite_instance_incref}
use dlite.Mapping.{Plugin, Mapping, Run, is_some}
use dlite.Mapping.Ends.{Ends, Ends-done, Ends-bind, ends-fuel, of_done}
use dlite.Mapping.Valid.{given_by, is_listed, Answer}
use dlite.Mapping.Answer.{Answer-congr, mapping_create_base-Ends}
use dlite.Mapping.Apply.{
  Mapper, set_inputs, apply_mapping, dlite_mapping_map, map_inputs_set, decref_all, decref_keys,
  remove_inputs_rec,
}
use dlite.Mapping.Makes.{Held, Held-set, mapping_map_rec-Returns}
use dlite.Mapping.Whole.{
  run, dlite_mapping, use_mapping, search_and_use, decref_inputs, dlite_mapping_free,
}

Ends-run {ℓ} : {A : Type ℓ} (r : Outcome A) (P : A → Type 0) → Partial r P → Ends (run r) P
unfolding Partial Ends
Ends-run (done a) P h = h
Ends-run fault P h = tt

Ends-any {ℓ} : {A : Type ℓ} (r : Outcome A) → Ends (run r) (λ _. Unit {0})
unfolding Ends
Ends-any (done a) = tt
Ends-any fault = tt

abbrev api_of : Mapping → Option Plugin
api_of (Mapping.mapping api uri ins cost) = api

module _ {I M : Type 0} (sets : StringMapOf (Option Text) I) (iter : KeysOf (Option Text) I sets)
    (ops : StringMapOf (Option Mapping) M) (meta_uri : Text → Text) (mapper : Mapper)
    (makes : (p : Plugin) (args : List (Option Text)) (refs : Text → ℕ) (inst : Text)
      → (mapper p args refs).1 ≡ some inst
      → meta_uri inst ≡ p.output_uri)
    (plugins : List Plugin) where
  empty-Held : Held sets meta_uri (λ _. false) sets.empty
  empty-Held = record {
    metadata = λ k o e. absurd (let clash = sym (sets.get-empty k) ∙ e in ground (arith, clash));
    present = λ k e. absurd (ground (arith, e));
  }

  -- What setting `instances` makes of a map.
  abbrev Filled : List Text → I → Stored I × Bool → Type 0
  Filled instances was r =
      r.1 ≡ true
      → Held sets meta_uri (λ _. false) (r.0.map)
        × ((k : Text)
            → is_some (sets.get (r.0.map) k)
              ≡ (is_listed (map meta_uri instances) k || is_some (sets.get was k)))

  set_inputs-Filled :
      (before instances : List Text) (s : Stored I)
      → Held sets meta_uri (λ _. false) s.map
      → Partial (set_inputs sets meta_uri mapper before instances s) (Filled instances s.map)
  unfolding set_inputs dlite_instance_incref
  set_inputs-Filled before [] s h = Partial-done _ _ λ e. (h, λ k. refl)
  set_inputs-Filled before (inst ∷ instances) s h =
      elim (Option-cases (sets.get s.map (meta_uri inst))) [
        | inr (x, twice) ↦
            rw (twice, set_inputs)
              (Partial-step _ _ _ λ t. Partial-done _ _ λ e. absurd (ground (arith, e)))
        | inl new ↦
            rw (new, set_inputs)
              (Partial-map _ _ _
                (set_inputs-Filled (inst ∷ before) instances _
                  (Held-set sets meta_uri (λ _. false) s.map inst h))
                λ r filled e. (
                  (filled e).0,
                  λ k.
                      (filled e).1 k
                      ∙ rw (sets.get-set s.map (meta_uri inst) k (some inst)) (
                          ground (
                            arith,
                            Bool-cases (text_eq (meta_uri inst) k),
                            Bool-cases (is_listed (map meta_uri instances) k),
                          )),
                ))
      ]

  Held-listed :
      (instances : List Text) (filled : I)
      → Held sets meta_uri (λ _. false) filled
      → ((k : Text)
          → is_some (sets.get filled k)
            ≡ (is_listed (map meta_uri instances) k || is_some (sets.get sets.empty k)))
      → Held sets meta_uri (is_listed (map meta_uri instances)) filled
  Held-listed instances filled h same = record {
    metadata = h.metadata;
    present = λ k e. elim (Option-cases (sets.get filled k)) [
      | inl new ↦ absurd (ground (arith, e, new, same k))
      | inr found ↦ found
    ];
  }

  -- The instance has the metadata that was asked for.
  abbrev For : Text → Option Text → Type 0
  For uri o = (inst : Text) → o ≡ some inst → meta_uri inst ≡ uri

  apply_mapping-For :
      (given : Text → Bool) (uri : Text) (m : Mapping) (s : Stored I)
      → Held sets meta_uri given s.map
      → Answer plugins uri given m
      → Partial (apply_mapping sets meta_uri mapper m s) (λ r. For uri (r.1))
  unfolding apply_mapping Answer
  apply_mapping-For given uri (Mapping.mapping none out ins cost) s h (output, kind) =
      elim (Option-cases (sets.get s.map out)) [
        | inr (none, e) ↦ rw (e, apply_mapping) (Partial-fault _)
        | inr (some inst, e) ↦
            rw (e, apply_mapping)
              (Partial-done _ _ λ other f.
                let (held, (found, right)) = h.metadata out (some inst) e in
                let same : held ≡ other = cc in rw (← same) (right ∙ output))
        | inl new ↦ rw (new, apply_mapping) (Partial-fault _)
      ]
  apply_mapping-For given uri (Mapping.mapping (some p) out ins cost) s h
        (output, inl (there, trivial)) =
      absurd (let clash = ap api_of trivial in ground (arith, clash))
  apply_mapping-For given uri (Mapping.mapping (some p) out ins cost) s h
        (output, inr (other, valid)) =
      elim (Option-cases (sets.get s.map out)) [
        | inr (none, e) ↦ rw (e, apply_mapping) (Partial-fault _)
        | inr (some inst, e) ↦ rw (e, apply_mapping) (Partial-fault _)
        | inl new ↦
            rw (new, apply_mapping)
              (Partial-Returns _ _ (
                Returns-map _ _ _
                  (mapping_map_rec-Returns sets meta_uri mapper makes plugins given
                    (Mapping.mapping (some p) out ins cost) s valid h)
                  λ r right inst e. right inst e ∙ output))
      ]

  map_inputs_set-For :
      (uri : Text) (m : Mapping) (instances : List Text) (r : Stored I × Bool)
      → Answer plugins uri (is_listed (map meta_uri instances)) m
      → Filled instances sets.empty r
      → Partial (map_inputs_set sets meta_uri mapper iter m instances r) (λ t. For uri (t.1))
  unfolding map_inputs_set
  map_inputs_set-For uri m instances (s, false) answer filled =
      Partial-done _ _ λ inst e. absurd (ground (arith, e))
  map_inputs_set-For uri m instances (s, true) answer filled =
      let (held, same) = filled refl in
      Partial-bind _ _ _ _
        (apply_mapping-For _ uri m s (Held-listed instances s.map held same) answer)
        λ r right.
          let left = remove_inputs_rec sets meta_uri mapper m (r.0.map) in
          let counted =
            decref_keys sets meta_uri mapper (iter.keys left) (record r.0 { map = left }) in
          Partial-step counted _ _ λ t.
            Partial-step (decref_all sets meta_uri mapper instances t) _ _
              λ u. Partial-done _ _ right

  dlite_mapping_map-For :
      (uri : Text) (m : Mapping) (instances : List Text) (refs : Text → ℕ)
      → Answer plugins uri (is_listed (map meta_uri instances)) m
      → Partial (dlite_mapping_map sets meta_uri mapper iter m instances refs) (λ r. For uri (r.1))
  unfolding dlite_mapping_map
  dlite_mapping_map-For uri m instances refs answer =
      Partial-bind _ _ _ _ (set_inputs-Filled [] instances _ empty-Held)
        λ r filled. map_inputs_set-For uri m instances r answer filled

  use_mapping-For :
      (uri : Text) (instances : List Text) (s : Stored I) (r : M × Option Mapping)
      → ((m : Mapping) → r.1 ≡ some m → Answer plugins uri (is_listed (map meta_uri instances)) m)
      → Ends (use_mapping sets iter ops meta_uri mapper plugins instances s r) (λ t. For uri (t.1))
  unfolding use_mapping
  use_mapping-For uri instances s (created, none) answer =
      Ends-bind _ _ _ _ (Ends-any (decref_inputs sets iter ops meta_uri mapper plugins s))
        λ t h. Ends-done _ _ λ inst e. absurd (ground (arith, e))
  use_mapping-For uri instances s (created, some m) answer =
      Ends-bind _ _ _ _
        (Ends-run _ _ (dlite_mapping_map-For uri m instances s.refs (answer m refl)))
        λ r right. Ends-bind _ _ _ _ (Ends-any (dlite_mapping_free m [])) λ freed h.
          Ends-bind _ _ _ _
            (Ends-any
              (decref_inputs sets iter ops meta_uri mapper plugins (record s { refs = r.0 })))
            λ t k. Ends-done _ _ right

  given_listed :
      (instances : List Text) (filled : I)
      → ((k : Text)
          → is_some (sets.get filled k)
            ≡ (is_listed (map meta_uri instances) k || is_some (sets.get sets.empty k)))
      → (k : Text) → given_by sets ops filled k ≡ is_listed (map meta_uri instances) k
  given_listed instances filled same k =
      same k
      ∙ rw (sets.get-empty k) (ground (arith, Bool-cases (is_listed (map meta_uri instances) k)))

  search_and_use-For :
      (uri : Text) (instances : List Text) (r : Stored I × Bool)
      → Filled instances sets.empty r
      → Ends
          (search_and_use sets iter ops meta_uri mapper plugins uri instances r)
          (λ t. For uri (t.1))
  unfolding search_and_use
  search_and_use-For uri instances (s, false) filled =
      Ends-bind _ _ _ _ (Ends-any (decref_inputs sets iter ops meta_uri mapper plugins s))
        λ t h. Ends-done _ _ λ inst e. absurd (ground (arith, e))
  search_and_use-For uri instances (s, true) filled =
      let same = given_listed instances s.map ((filled refl).1) in
      Ends-bind _ _ _ _ (mapping_create_base-Ends sets ops plugins uri s.map) λ r answer.
        use_mapping-For uri instances s r λ m e. Answer-congr plugins uri _ _ same m (answer m e)

  dlite_mapping-Ends :
      (uri : Text) (instances : List Text) (refs : Text → ℕ)
      → Ends
          (dlite_mapping sets iter ops meta_uri mapper plugins uri instances refs)
          (λ t. For uri (t.1))
  unfolding dlite_mapping
  dlite_mapping-Ends uri instances refs =
      Ends-bind _ _ _ _ (Ends-run _ _ (set_inputs-Filled [] instances _ empty-Held))
        λ r filled. search_and_use-For uri instances r filled

  -- Where every mapper makes instances of its plugin's output, a call of `dlite_mapping` ends,
  -- and an instance that it returns has the metadata that was asked for.
  pub dlite_mapping-metadata :
      (uri : Text) (instances : List Text) (refs : Text → ℕ)
      → (dlite_mapping sets iter ops meta_uri mapper plugins uri instances refs ≢ Run.out_of_fuel)
        × ((after : Text → ℕ) (inst : Text)
            → dlite_mapping sets iter ops meta_uri mapper plugins uri instances refs
              ≡ Run.done (after, some inst)
            → meta_uri inst ≡ uri)
  dlite_mapping-metadata uri instances refs =
      let ends = dlite_mapping-Ends uri instances refs in
      (ends-fuel _ _ ends, λ after inst e. of_done _ _ _ ends e inst refl)
