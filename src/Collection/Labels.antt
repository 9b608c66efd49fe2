-- ===== src/Collection/Labels.antt =====
-- What adding a labelled instance to a collection and counting its instances do.
use mathlib.Core.List.{append_assoc, append-nil}
use dlite.Base.{
  ℕ, zero, suc, ◌≡◌, refl, sym, ◌∙◌, ap, inl, inr, false, List, [], ◌∷◌, ◌++◌, Option, none, some,
  Text, codes, done, ◌>>=◌, length, arith, Bool-cases, Option-cases,
}
use dlite.StringMap.{StringMap}
use dlite.Triple.{Triple, TripleGlobals, Sha1}
use dlite.Triplestore.Store.{
  TripleStore, is_found, triplestore_find_first, triplestore_init_state, triplestore_find,
}
use dlite.Triplestore.Update.{triplestore_add}
use dlite.Triplestore.Invariant.{IsValid}
use dlite.Triplestore.Add.{
  is_stored, id_text, new_triples, new_triples_known, new_triples_new, triplestore_add_triples_lem,
}
use dlite.Triplestore.Search.{hits, find_all, find_all-hits}
use dlite.Triplestore.Value.{init_deinit}
use dlite.Collection.Relations.{
  DLiteCollection, is_a_instance, instances, dlite_collection_add_relation, add_instance,
  dlite_collection_add_new, count_loop, dlite_collection_count,
}

abbrev relation : Text → Text → Text → Option Text → Triple
relation s p o d = record { s = s; p = p; o = o; d = d; id = none }

-- The relations that an instance has in a collection.
abbrev pub labelled : Text → Text → Text → List Triple
labelled label uuid uri =
    relation label (codes "_is-a") (codes "Instance") none
    ∷ relation label (codes "_has-uuid") uuid (some (codes "xsd:anyURI"))
    ∷ relation label (codes "_has-meta") uri none
    ∷ []

module _ {C : Type 0} (sha : Sha1 C) (g : Option TripleGlobals) where
  new_triples_split :
      (old : List Triple) (t : Triple) (ts : List Triple)
      → (old ++ new_triples sha g old (t ∷ []))
          ++ new_triples sha g (old ++ new_triples sha g old (t ∷ [])) ts
        ≡ old ++ new_triples sha g old (t ∷ ts)
  new_triples_split old t ts = elim (Bool-cases (is_stored (id_text sha g t) old)) [
    | inl known ↦
        let nothing : new_triples sha g old (t ∷ []) ≡ [] =
          new_triples_known sha g old t [] known ∙ unfold new_triples in refl in
        ap (λ xs. (old ++ xs) ++ new_triples sha g (old ++ xs) ts) nothing
        ∙ ap (λ xs. xs ++ new_triples sha g xs ts) (append-nil old)
        ∙ ap (◌++◌ old) (sym (new_triples_known sha g old t ts known))
    | inr new ↦
        let u = record t { id = some (id_text sha g t) } in
        let one : new_triples sha g old (t ∷ []) ≡ u ∷ [] =
          new_triples_new sha g old t [] new ∙ unfold new_triples in refl in
        ap (λ xs. (old ++ xs) ++ new_triples sha g (old ++ xs) ts) one
        ∙ append_assoc old (u ∷ []) _
        ∙ ap (◌++◌ old) (sym (new_triples_new sha g old t ts new))
  ]

  module _ {M : Type 0} (ops : StringMap M) where
    add_relation_lem :
        (coll : DLiteCollection M) (s p o : Text) (d : Option Text)
        → IsValid ops coll.rstore
        → (coll' : DLiteCollection M) × (dlite_collection_add_relation ops sha g coll s p o d
            ≡ done (coll', 0))
          × IsValid ops coll'.rstore
          × (coll'.nrelations ≡ coll.nrelations)
          × (coll'.prop_dim ≡ coll.nrelations)
          × (coll'.rstore.triples
              ≡ coll.rstore.triples
                ++ new_triples sha g coll.rstore.triples (relation s p o d ∷ []))
    unfolding dlite_collection_add_relation triplestore_add
    add_relation_lem coll s p o d v =
        let (ts, run, valid, niter, freed, all) =
          triplestore_add_triples_lem sha g ops (relation s p o d ∷ []) coll.rstore v in
        (record coll { rstore = ts; prop_dim = coll.nrelations }, rw run, valid, refl, refl, all)

    add_instance_done :
        (coll c₁ c₂ c₃ : DLiteCollection M) (label uuid uri : Text)
        → dlite_collection_add_relation ops sha g coll label (codes "_is-a") (codes "Instance") none
          ≡ done (c₁, 0)
        → dlite_collection_add_relation ops sha g c₁ label
            (codes "_has-uuid")
            uuid
            (some (codes "xsd:anyURI"))
          ≡ done (c₂, 0)
        → dlite_collection_add_relation ops sha g c₂ label (codes "_has-meta") uri none
          ≡ done (c₃, 0)
        → add_instance ops sha g coll label uuid uri ≡ done (c₃, 0)
    add_instance_done coll c₁ c₂ c₃ label uuid uri h₁ h₂ h₃ = rw (h₁, h₂, h₃)

    -- Adding an instance under a label to a collection with a valid store changes nothing and is
    -- an error where the label has an instance; else it succeeds, the store stays valid, and the
    -- three relations of the instance are appended, but for those whose identifier is stored.
    pub dlite_collection_add_new_lem :
        (coll : DLiteCollection M) (label uuid uri : Text)
        → IsValid ops coll.rstore
        → ((t : Triple)
            → triplestore_find_first ops coll.rstore (is_a_instance label) ≡ some t
            → dlite_collection_add_new ops sha g coll label uuid uri ≡ done (coll, 1))
          × (triplestore_find_first ops coll.rstore (is_a_instance label) ≡ none
              → (coll' : DLiteCollection M) × (dlite_collection_add_new ops sha g coll label uuid
                    uri
                  ≡ done (coll', 0))
                × IsValid ops coll'.rstore
                × (coll'.prop_dim ≡ coll.nrelations)
                × (coll'.rstore.triples
                    ≡ coll.rstore.triples
                      ++ new_triples sha g coll.rstore.triples (labelled label uuid uri)))
    unfolding dlite_collection_add_new
    dlite_collection_add_new_lem coll label uuid uri v = (
      λ t found. rw (found, dlite_collection_add_new),
      λ missing.
          let known = coll.rstore.triples in
          let t₁ = relation label (codes "_is-a") (codes "Instance") none in
          let t₂ = relation label (codes "_has-uuid") uuid (some (codes "xsd:anyURI")) in
          let t₃ = relation label (codes "_has-meta") uri none in
          let (c₁, run₁, v₁, n₁, _, all₁) =
            add_relation_lem coll label (codes "_is-a") (codes "Instance") none v in
          let (c₂, run₂, v₂, n₂, _, all₂) =
            add_relation_lem c₁ label (codes "_has-uuid") uuid (some (codes "xsd:anyURI")) v₁ in
          let (c₃, run₃, v₃, _, d₃, all₃) =
            add_relation_lem c₂ label (codes "_has-meta") uri none v₂ in
          (
            c₃,
            rw (missing, dlite_collection_add_new)
                (add_instance_done coll c₁ c₂ c₃ label uuid uri run₁ run₂ run₃),
            v₃,
            d₃ ∙ n₂ ∙ n₁,
            all₃
                ∙ ap (λ xs. xs ++ new_triples sha g xs (t₃ ∷ [])) all₂
                ∙ new_triples_split c₁.rstore.triples t₂ (t₃ ∷ [])
                ∙ ap (λ xs. xs ++ new_triples sha g xs (t₂ ∷ t₃ ∷ [])) all₁
                ∙ new_triples_split known t₁ (t₂ ∷ t₃ ∷ []),
          ),
    )

module _ {M : Type 0} (ops : StringMap M) where
  find_all_more :
      (fuel : ℕ) (ts : TripleStore M) (pos : ℕ) (t : Triple)
      → (triplestore_find ops ts pos instances).0 ≡ some t
      → find_all ops ts instances (suc fuel) pos
        ≡ t ∷ find_all ops ts instances fuel (triplestore_find ops ts pos instances).1
  unfolding find_all
  find_all_more fuel ts pos t found = rw (found, find_all)

  count_loop-find_all :
      (fuel : ℕ) (ts : TripleStore M) (pos : ℕ)
      → count_loop ops fuel ts pos ≡ length (find_all ops ts instances fuel pos)
  unfolding count_loop find_all
  count_loop-find_all zero ts pos = refl
  count_loop-find_all (suc fuel) ts pos =
      elim (Option-cases (triplestore_find ops ts pos instances).0) [
        | inl missing ↦ rw (missing, count_loop, find_all)
        | inr (t, found) ↦
            rw (found, count_loop)
              (omega (
                arith,
                count_loop-find_all fuel ts (triplestore_find ops ts pos instances).1,
                ap length (find_all_more fuel ts pos t found),
              ))
      ]

  -- The count of a collection with a valid store that is not to be freed is the number of live
  -- relations that say of something that it is an instance, and the store is as before.
  pub dlite_collection_count_lem :
      (coll : DLiteCollection M)
      → IsValid ops coll.rstore
      → coll.rstore.freed ≡ false
      → dlite_collection_count ops coll
        ≡ done (some coll.rstore, length (hits (is_found instances) coll.rstore.triples))
  unfolding dlite_collection_count triplestore_init_state
  dlite_collection_count_lem coll v alive =
      let ts = (triplestore_init_state ops coll.rstore).0 in
      let fuel = suc (length coll.rstore.triples) in
      ap (λ m. m >>= λ (r : Option (TripleStore M)). done (r, count_loop ops fuel ts 0))
        (init_deinit ops coll.rstore v alive)
      ∙ ap (λ n. done (some coll.rstore, n))
          (count_loop-find_all fuel ts 0
            ∙ ap length (find_all-hits ops ts instances fuel 0 (omega arith)))
