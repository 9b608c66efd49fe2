-- ===== src/Mapping/Answer.antt =====
-- What `dlite_mapping_create` of src/dlite-mapping.c answers.
use dlite.Base.{
  suc, ◌≤◌, ◌<◌, ◌≡◌, ◌≢◌, refl, ◌∙◌, sym, ap, inl, inr, Bool, List, [], ◌∷◌, Option, none, some,
  Option-cases, ◌||◌, Bool-cases, Text, text_eq, ℤ, total, length, arith,
}
use dlite.StringMap.{StringMapOf}
use dlite.Mapping.{Plugin, Mapping, Inputs, Run, Search, is_some, output_uri_of}
use dlite.Mapping.Create.{
  mapping_create_base, set_of_uris, dlite_mapping_create, mapping_remove_rec,
}
use dlite.Mapping.Ends.{Ends, Ends-done, Ends-bind, of_done, ends-fuel}
use dlite.Mapping.Valid.{tree_of_same, given_by, unvisited, Found, is_listed, Answer}
use dlite.Mapping.Trees.{mapping_create_rec-Searched}

-- The same answers, where the same inputs are given.
pub Answer-congr :
    (plugins : List Plugin) (uri : Text) (given other : Text → Bool)
    → ((k : Text) → given k ≡ other k)
    → (m : Mapping) → Answer plugins uri given m
    → Answer plugins uri other m
unfolding Answer
Answer-congr plugins uri given other same m (output, inl (there, trivial)) =
    (output, inl (sym (same uri) ∙ there, trivial))
Answer-congr plugins uri given other same m (output, inr (new, tree)) =
    (output, inr (sym (same uri) ∙ new, tree_of_same plugins _ _ same m tree))

module _ {I M : Type 0} (sets : StringMapOf (Option Text) I)
    (ops : StringMapOf (Option Mapping) M) where
  get-set_of_uris :
      (uris : List Text) (start inputs : I)
      → set_of_uris sets ops start uris ≡ some inputs
      → (k : Text) → is_some (sets.get inputs k) ≡ (is_listed uris k || is_some (sets.get start k))
  unfolding set_of_uris
  get-set_of_uris [] start inputs e k = let same : start ≡ inputs = cc in rw same
  get-set_of_uris (u ∷ uris) start inputs e k = elim (Option-cases (sets.get start u)) [
    | inr (x, there) ↦ absurd (let f = rw (there, set_of_uris) at e in ground (arith, f))
    | inl new ↦
        let rest =
          get-set_of_uris uris (sets.set start u none) inputs (rw (new, set_of_uris) at e) k in
        rest ∙ rw (sets.get-set start u k none) (ground (arith, Bool-cases (text_eq u k)))
  ]

  unvisited-le : (plugins : List Plugin) (v : M) → unvisited sets ops plugins v ≤ length plugins
  unfolding total
  unvisited-le [] v = omega arith
  unvisited-le (p ∷ plugins) v =
      ground (arith, unvisited-le plugins v, Option-cases (ops.get v p.output_uri))

  unvisited-empty :
      (plugins : List Plugin) → unvisited sets ops plugins ops.empty < suc (length plugins)
  unvisited-empty plugins = omega (arith, unvisited-le plugins ops.empty)

  trivial_Answer :
      (plugins : List Plugin) (uri : Text) (inputs : I) (x : Option Text) (m : Mapping)
      → sets.get inputs uri ≡ some x
      → some (Mapping.mapping none uri (Inputs.input_uri uri Inputs.end) (ℤ.pos 0)) ≡ some m
      → Answer plugins uri (given_by sets ops inputs) m
  unfolding Answer
  trivial_Answer plugins uri inputs x m there e =
      let same : Mapping.mapping none uri (Inputs.input_uri uri Inputs.end) (ℤ.pos 0) ≡ m = cc in
      (sym (ap output_uri_of same), inl (ap is_some there, sym same))

  searched :
      (plugins : List Plugin) (uri : Text) (inputs : I)
      → sets.get inputs uri ≡ none
      → (r : Search M × Option Mapping)
      → ((m : Mapping) → r.1 ≡ some m → Found sets ops plugins inputs uri (r.0.created) m)
      → Ends
          (elim (r.1) as (λ _. Run (M × Option Mapping)) [
            | none ↦ Run.done (r.0.created, none)
            | some m ↦ Run.done (mapping_remove_rec ops m (r.0.created), some m)
          ])
          (λ t. (m : Mapping) → t.1 ≡ some m → Answer plugins uri (given_by sets ops inputs) m)
  unfolding Answer
  searched plugins uri inputs new (s, none) h = Ends-done _ _ λ m e. absurd (ground (arith, e))
  searched plugins uri inputs new (s, some n) h =
      Ends-done _ _ λ m e. let found = h m e in (found.output, inr (ap is_some new, found.valid))

  pub mapping_create_base-Ends :
      (plugins : List Plugin) (uri : Text) (inputs : I)
      → Ends
          (mapping_create_base sets ops plugins uri inputs)
          (λ r. (m : Mapping) → r.1 ≡ some m → Answer plugins uri (given_by sets ops inputs) m)
  unfolding mapping_create_base
  mapping_create_base-Ends plugins uri inputs = elim (Option-cases (sets.get inputs uri)) [
    | inr (x, there) ↦
        rw (there, mapping_create_base)
          (Ends-done _ _ λ m e. trivial_Answer plugins uri inputs x m there e)
    | inl new ↦
        rw (new, mapping_create_base)
          (Ends-bind _ _ _ _
            (mapping_create_rec-Searched sets ops plugins inputs (suc (length plugins)) uri
              (record { visited = ops.empty; created = ops.empty; dead_ends = ops.empty })
              (ops.get-empty uri) (unvisited-empty plugins)
              (λ k m e. absurd (let clash = sym (ops.get-empty k) ∙ e in ground (arith, clash))))
            λ r h. searched plugins uri inputs new r (h.2))
  ]

  listed_inputs :
      (input_uris : List Text) (inputs : I)
      → set_of_uris sets ops sets.empty input_uris ≡ some inputs
      → (k : Text) → is_some (sets.get inputs k) ≡ is_listed input_uris k
  listed_inputs input_uris inputs e k =
      get-set_of_uris input_uris sets.empty inputs e k
      ∙ rw (sets.get-empty k) (ground (arith, Bool-cases (is_listed input_uris k)))

  pub dlite_mapping_create-Ends :
      (plugins : List Plugin) (uri : Text) (input_uris : List Text)
      → Ends
          (dlite_mapping_create sets ops plugins uri input_uris)
          (λ o. (m : Mapping) → o ≡ some m → Answer plugins uri (is_listed input_uris) m)
  unfolding dlite_mapping_create
  dlite_mapping_create-Ends plugins uri input_uris =
      elim (Option-cases (set_of_uris sets ops sets.empty input_uris)) [
        | inl twice ↦
            rw (twice, dlite_mapping_create) (Ends-done _ _ λ m e. absurd (ground (arith, e)))
        | inr (inputs, e) ↦
            let same = listed_inputs input_uris inputs e in
            rw (e, dlite_mapping_create)
              (Ends-bind _ _ _ _ (mapping_create_base-Ends plugins uri inputs)
                λ r h. Ends-done _ _ λ m found. Answer-congr plugins uri _ _ same m (h m found))
      ]

-- The search for a mapping ends: the recursion is never deeper than there are plugins, whatever
-- plugins stand in cycles.
pub dlite_mapping_create_terminates :
    {I M : Type 0} (sets : StringMapOf (Option Text) I) (ops : StringMapOf (Option Mapping) M)
    (plugins : List Plugin) (uri : Text) (input_uris : List Text)
    → dlite_mapping_create sets ops plugins uri input_uris ≢ Run.out_of_fuel
dlite_mapping_create_terminates sets ops plugins uri input_uris =
    ends-fuel _ _ (dlite_mapping_create-Ends sets ops plugins uri input_uris)

-- A mapping that is returned is for the URI that was asked for. It is the trivial one where that
-- URI is among the input URIs; otherwise it is a tree, in which every mapping is that of a listed
-- plugin with the inputs that the plugin declares, each an input URI where it is one and a tree
-- for it otherwise, and costs what the plugin and its subtrees cost.
pub dlite_mapping_create-Answer :
    {I M : Type 0} (sets : StringMapOf (Option Text) I) (ops : StringMapOf (Option Mapping) M)
    (plugins : List Plugin) (uri : Text) (input_uris : List Text) (m : Mapping)
    → dlite_mapping_create sets ops plugins uri input_uris ≡ Run.done (some m)
    → Answer plugins uri (is_listed input_uris) m
dlite_mapping_create-Answer sets ops plugins uri input_uris m e =
    of_done _ _ _ (dlite_mapping_create-Ends sets ops plugins uri input_uris) e m refl
