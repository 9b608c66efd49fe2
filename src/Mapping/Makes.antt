-- ===== src/Mapping/Makes.antt =====
-- What `mapping_map_rec` of src/dlite-mapping.c makes of instances with a tree of mappings.
use dlite.Base.{
  Returns, Returns-done, Returns-map, Returns-bind, ℕ, ◌≡◌, refl, ◌∙◌, sym, ap, inl, inr, Bool,
  true, false, List, [], ◌∷◌, Option, none, some, Bool-cases, Text, text_eq, text_eq_iff, ℤ, ◌+ℤ◌,
  Outcome, done, fault, ◌>>=◌, arith,
}
use dlite.StringMap.{StringMapOf}
use dlite.InstanceStore.Store.{Stored, dlite_instance_incref}
use dlite.Mapping.{Plugin, Mapping, Inputs, output_uri_of, cost_of}
use dlite.Mapping.Valid.{Valid, ValidInputs}
use dlite.Mapping.Apply.{Mapper, call_mapper, mapping_map_rec, map_inputs}

module _ {I : Type 0} (sets : StringMapOf (Option Text) I) (meta_uri : Text → Text) where
  -- The map has an instance of `k` at every key `k` that is in it, and one at every given URI.
  pub record Held (given : Text → Bool) (map : I) : Type 0 where
    pub metadata :
        (k : Text) (o : Option Text)
        → sets.get map k ≡ some o
        → (inst : Text) × ((o ≡ some inst) × (meta_uri inst ≡ k))
    pub present : (k : Text) → given k ≡ true → (o : Option Text) × (sets.get map k ≡ some o)

  pub Held-set :
      (given : Text → Bool) (map : I) (inst : Text)
      → Held given map
      → Held given (sets.set map (meta_uri inst) (some inst))
  Held-set given map inst h = record {
    metadata = λ k o e. elim (Bool-cases (text_eq (meta_uri inst) k)) [
      | inl same ↦
          let at = (text_eq_iff (meta_uri inst) k).0 same in
          let here : some (some inst) ≡ some o =
            sym (sets.get-set map (meta_uri inst) k (some inst) ∙ rw same) ∙ e in
          (inst, (cc, at))
      | inr other ↦
          h.metadata k o (sym (sets.get-set map (meta_uri inst) k (some inst) ∙ rw other) ∙ e)
    ];
    present = λ k g. elim (Bool-cases (text_eq (meta_uri inst) k)) [
      | inl same ↦ (some inst, sets.get-set map (meta_uri inst) k (some inst) ∙ rw same)
      | inr other ↦
          let was = h.present k g in
          (was.0, sets.get-set map (meta_uri inst) k (some inst) ∙ rw other (was.1))
    ];
  }

  -- What is returned for `uri`.
  Made : (Text → Bool) → Text → Stored I × Option Text → Type 0
  Made given uri (s, o) = Held given s.map × ((inst : Text) → o ≡ some inst → meta_uri inst ≡ uri)

  kept_entry :
      (given : Text → Bool) (uri : Text) (s : Stored I) (o : Option Text)
      → Held given s.map
      → sets.get s.map uri ≡ some o
      → Made given uri (s, o)
  unfolding Made
  kept_entry given uri s o h there =
      let (held, (e, right)) = h.metadata uri o there in
      (h, λ inst f. let same : held ≡ inst = cc in rw (← same) right)

  entries_kept :
      (given : Text → Bool) (uri : Text) (r : Stored I × Option Text)
      → Made given uri r
      → Held given (r.0.map)
  unfolding Made
  entries_kept given uri r h = h.0

  module _ (mapper : Mapper)
      (makes : (p : Plugin) (args : List (Option Text)) (refs : Text → ℕ) (inst : Text)
        → (mapper p args refs).1 ≡ some inst
        → meta_uri inst ≡ p.output_uri)
      (plugins : List Plugin) (given : Text → Bool) where
    called :
        (p : Plugin) (uri : Text) (s : Stored I) (args : List (Option Text))
        → uri ≡ p.output_uri
        → Held given s.map
        → Returns (call_mapper sets meta_uri mapper (some p) uri args s) (Made given uri)
    unfolding call_mapper Made
    called p uri s args output h = answer (mapper p args s.refs) (makes p args s.refs)
      where
        answer :
            (r : (Text → ℕ) × Option Text)
            → ((inst : Text) → r.1 ≡ some inst → meta_uri inst ≡ p.output_uri)
            → Returns
                (elim (r.1) as (λ _. Outcome (Stored I × Option Text)) [
                  | none ↦ done (record s { refs = r.0 }, none)
                  | some inst ↦
                      elim (text_eq (meta_uri inst) uri)
                        as (λ _. Outcome (Stored I × Option Text)) [
                          | false ↦ fault
                          | true ↦
                              let t = dlite_instance_incref (record s { refs = r.0 }) inst in
                              done (
                                record t { map = sets.set s.map (meta_uri inst) (some inst) },
                                some inst,
                              )
                        ]
                ])
                (Made given uri)
        answer (refs, none) ok = Returns-done _ _ (h, λ inst e. absurd (ground (arith, e)))
        answer (refs, some inst) ok =
            let at : meta_uri inst ≡ uri = ok inst refl ∙ sym output in
            let right = (text_eq_iff (meta_uri inst) uri).1 at in
            rw right (
              Returns-done _ _ (
                Held-set given s.map inst h,
                λ other e. let same : inst ≡ other = cc in rw (← same) at,
              ))

    -- The two cases of `mapping_map_rec`, for what the map has.
    make_or_reuse :
        (p : Plugin) (uri : Text) (ins : Inputs) (s : Stored I) (o : Option (Option Text))
        → sets.get s.map uri ≡ o
        → uri ≡ p.output_uri
        → Held given s.map
        → Returns (map_inputs sets meta_uri mapper ins s) (λ r. Held given (r.0.map))
        → Returns
            (elim o as (λ _. Outcome (Stored I × Option Text)) [
              | some inst ↦ done (s, inst)
              | none ↦ map_inputs sets meta_uri mapper ins s >>= λ r.
                  call_mapper sets meta_uri mapper (some p) uri (r.1) (r.0)
            ])
            (Made given uri)
    make_or_reuse p uri ins s none e output h more =
        Returns-bind _ _ _ _ more λ r g. called p uri (r.0) (r.1) output g
    make_or_reuse p uri ins s (some o) e output h more =
        Returns-done _ _ (kept_entry given uri s o h e)

    read_input :
        (uri : Text) (ins : Inputs) (s : Stored I) (o : Option (Option Text))
        → ((i : Option Text) × (o ≡ some i))
        → Returns (map_inputs sets meta_uri mapper ins s) (λ r. Held given (r.0.map))
        → Returns
            (elim o as (λ _. Outcome (Stored I × List (Option Text))) [
              | none ↦ fault
              | some inst ↦
                  map_inputs sets meta_uri mapper ins s >>= λ rest. done (rest.0, inst ∷ rest.1)
            ])
            (λ r. Held given (r.0.map))
    read_input uri ins s none (i, e) more = absurd (ground (arith, e))
    read_input uri ins s (some o) e more = Returns-bind _ _ _ _ more λ r h. Returns-done _ _ h

    mutual
      unfolding mapping_map_rec map_inputs

      mapping_map_rec-Makes :
          (m : Mapping) (s : Stored I)
          → Valid plugins given m
          → Held given s.map
          → Returns (mapping_map_rec sets meta_uri mapper m s) (Made given (output_uri_of m))
      mapping_map_rec-Makes (Mapping.mapping none uri ins cost) s v h = absurd v
      mapping_map_rec-Makes (Mapping.mapping (some p) uri ins cost) s (at, output, v) h =
          make_or_reuse p uri ins s (sets.get s.map uri) refl output h
            (map_inputs-Held ins s p.cost cost p.input_uris v h)

      map_inputs-Held :
          (ins : Inputs) (s : Stored I) (cost sum : ℤ) (uris : List Text)
          → ValidInputs plugins given cost ins uris sum
          → Held given s.map
          → Returns (map_inputs sets meta_uri mapper ins s) (λ r. Held given (r.0.map))
      map_inputs-Held Inputs.end s cost sum uris v h = Returns-done _ _ h
      map_inputs-Held (Inputs.input_map m ins) s cost sum [] v h = absurd v
      map_inputs-Held (Inputs.input_map m ins) s cost sum (u ∷ uris) (e, new, tree, v) h =
          Returns-bind _ _ _ _ (mapping_map_rec-Makes m s tree h) λ r g.
            Returns-bind _ _ _ _
              (map_inputs-Held ins (r.0) (cost +ℤ cost_of m) sum uris v
                (entries_kept given (output_uri_of m) r g))
              λ t k. Returns-done _ _ k
      map_inputs-Held (Inputs.input_uri uri ins) s cost sum [] v h = absurd v
      map_inputs-Held (Inputs.input_uri uri ins) s cost sum (u ∷ uris) (e, here, v) h =
          read_input uri ins s (sets.get s.map uri) (h.present uri (ap given e ∙ here))
            (map_inputs-Held ins s cost sum uris v h)

    -- A tree that is valid for the instances that there are is used without a failed assert, and
    -- an instance that is returned has the metadata that the tree is for.
    pub mapping_map_rec-Returns :
        (m : Mapping) (s : Stored I)
        → Valid plugins given m
        → Held given s.map
        → Returns
            (mapping_map_rec sets meta_uri mapper m s)
            (λ r. (inst : Text) → r.1 ≡ some inst → meta_uri inst ≡ output_uri_of m)
    unfolding Made
    mapping_map_rec-Returns m s v h =
        Returns-map _ _ _ (mapping_map_rec-Makes m s v h) λ r made. made.1
