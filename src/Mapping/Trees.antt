-- ===== src/Mapping/Trees.antt =====
-- The search of src/dlite-mapping.c ends, and what it finds are trees.
use dlite.Base.{
  ℕ, zero, suc, ◌<◌, ◌≡◌, refl, ◌∙◌, sym, ap, inl, inr, false, List, Option, none, some,
  Option-cases, Bool-cases, Text, text_eq, get_elem?, arith, text_eq_iff,
}
use dlite.StringMap.{StringMapOf}
use dlite.Mapping.{
  Plugin, Mapping, Search, Best, is_refused, output_uri_of, conclude, mapping_create_rec,
}
use dlite.Mapping.Ends.{Ends, Ends-done, Ends-fault, Ends-bind}
use dlite.Mapping.Valid.{Valid, given_by, Kept, Sound, unvisited, Searched, Compared}
use dlite.Mapping.Choice.{find_cheapest-Compared}
use dlite.Mapping.Steps.{unvisited-set-lt, input_maps-ValidInputs}

module _ {I M : Type 0} (sets : StringMapOf (Option Text) I) (ops : StringMapOf (Option Mapping) M)
    (plugins : List Plugin) (inputs : I) where
  -- The visited URIs are those from before the call.
  visited_back :
      (uri : Text) (v w : M)
      → ops.get v uri ≡ none
      → ((k : Text) → ops.get w k ≡ ops.get (ops.set v uri none) k)
      → (k : Text) → ops.get (ops.remove w uri) k ≡ ops.get v k
  visited_back uri v w new same k = elim (Bool-cases (text_eq uri k)) [
    | inl e ↦
        let here : uri ≡ k = (text_eq_iff uri k).0 e in
        ops.get-remove w uri k ∙ rw e (sym (ap (ops.get v) (sym here) ∙ new))
    | inr e ↦ ops.get-remove w uri k ∙ rw e (same k ∙ ops.get-set v uri k none ∙ rw e)
  ]

  set_other :
      (c : M) (uri k : Text) (m : Mapping) (P : Option (Option Mapping) → Type 0)
      → (uri ≡ k → P (some (some m)))
      → P (ops.get c k)
      → P (ops.get (ops.set c uri (some m)) k)
  set_other c uri k m P at else_ = elim (Bool-cases (text_eq uri k)) [
    | inl e ↦ rw (ops.get-set c uri k (some m), e) (at ((text_eq_iff uri k).0 e))
    | inr e ↦ rw (ops.get-set c uri k (some m), e) else_
  ]

  visited_guarded :
      (uri : Text) (v c d : M)
      → ((k : Text) (o : Option Mapping)
          → ops.get (ops.set v uri none) k ≡ some o
          → ops.get d k ≡ ops.get c k)
      → (k : Text) (o : Option Mapping) → ops.get v k ≡ some o
      → ops.get d k ≡ ops.get c k
  visited_guarded uri v c d h k o e = elim (Bool-cases (text_eq uri k)) [
    | inl same ↦ h k none (ops.get-set v uri k none ∙ rw same)
    | inr other ↦ h k o (ops.get-set v uri k none ∙ rw other e)
  ]

  absent :
      (c : M) (uri k : Text) (o : Option Mapping)
      → ops.get c uri ≡ none
      → ops.get c k ≡ some o
      → uri ≡ k
      → ⊥
  absent c uri k o new e at =
      let clash : none ≡ some o = sym new ∙ ap (ops.get c) at ∙ e in ground (arith, clash)

  -- A new mapping is put beside the others.
  created-Searched :
      (uri : Text) (s t : Search M) (m : Mapping)
      → ops.get s.visited uri ≡ none
      → ops.get s.created uri ≡ none
      → Kept sets ops (record s { visited = ops.set s.visited uri none }) t
      → Sound sets ops plugins inputs t.created
      → output_uri_of m ≡ uri
      → Valid plugins (given_by sets ops inputs) m
      → Searched sets ops plugins inputs uri s (
        record t { visited = ops.remove t.visited uri; created = ops.set t.created uri (some m) },
        some m,
      )
  created-Searched uri s t m new fresh kept sound output valid = (
    record {
      visited = visited_back uri s.visited t.visited new kept.visited;
      created = λ k o e.
          set_other t.created uri k m (λ x. x ≡ some o)
            (λ at. absurd (absent s.created uri k o fresh e at)) (kept.created k o e);
      guarded = λ k o e.
          set_other t.created uri k m (λ x. x ≡ ops.get s.created k)
            (λ at. absurd (absent s.visited uri k o new e at))
            (visited_guarded uri s.visited s.created t.created kept.guarded k o e);
    },
    λ k n.
        set_other t.created uri k m
          (λ x.
            x ≡ some (some n) → (output_uri_of n ≡ k) × Valid plugins (given_by sets ops inputs) n)
          (λ at e. let same : m ≡ n = cc in rw (← same) (output ∙ at, valid)) (sound k n),
    λ n e.
        let same : m ≡ n = cc in
        rw (← same) (record {
          output = output;
          valid = valid;
          kept = ops.get-set t.created uri uri (some m) ∙ rw ((text_eq_iff uri uri).1 refl);
        }),
  )

  conclude-Searched :
      (uri : Text) (s t : Search M) (best : Best)
      → ops.get s.visited uri ≡ none
      → ops.get s.created uri ≡ none
      → Compared sets ops plugins inputs uri
          (record s { visited = ops.set s.visited uri none })
          (t, best)
      → Ends (conclude sets ops inputs uri t best) (Searched sets ops plugins inputs uri s)
  unfolding conclude
  conclude-Searched uri s t none new fresh h = Ends-done _ _ (
    record {
      visited = visited_back uri s.visited t.visited new ((h.0).visited);
      created = (h.0).created;
      guarded = λ k o e. visited_guarded uri s.visited s.created t.created ((h.0).guarded) k o e;
    },
    h.1,
    λ m e. absurd (ground (arith, e)),
  )
  conclude-Searched uri s t (some (p, cost)) new fresh h =
      let chosen = (h.2) p cost refl in
      Ends-bind _ _ _ _
        (input_maps-ValidInputs sets ops plugins inputs t.created p.cost cost p.input_uris (h.1)
          chosen.priced)
        λ ins valid. Ends-done _ _ (
          created-Searched uri s t (Mapping.mapping (some p) p.output_uri ins cost) new fresh (h.0)
            (h.1) (sym chosen.output) (chosen.listed, refl, valid))

  -- The asserts at the start hold.
  not_refused :
      (uri : Text) (s : Search M)
      → is_refused sets ops inputs uri s ≡ false
      → (sets.get inputs uri ≡ none) × (ops.get s.visited uri ≡ none)
  unfolding is_refused
  not_refused uri s h = ground (
    arith,
    h,
    Option-cases (sets.get inputs uri),
    Option-cases (ops.get s.visited uri),
    Option-cases (ops.get s.dead_ends uri),
  )

  unvisited-pos :
      (plugins : List Plugin) (v : M) (uri : Text) (i : ℕ) (p : Plugin)
      → get_elem? plugins i ≡ some p
      → uri ≡ p.output_uri
      → ops.get v uri ≡ none
      → 0 < unvisited sets ops plugins v
  unvisited-pos plugins v uri i p at e new =
      omega (arith, unvisited-set-lt sets ops plugins v uri i p at e new)

  pub mapping_create_rec-Searched :
      (fuel : ℕ) (uri : Text) (s : Search M)
      → ops.get s.created uri ≡ none
      → unvisited sets ops plugins s.visited < fuel
      → Sound sets ops plugins inputs s.created
      → Ends
          (mapping_create_rec sets ops plugins fuel inputs uri s)
          (Searched sets ops plugins inputs uri s)
  unfolding mapping_create_rec
  mapping_create_rec-Searched zero uri s fresh room sound = absurd (omega arith)
  mapping_create_rec-Searched (suc fuel) uri s fresh room sound =
      elim (Bool-cases (is_refused sets ops inputs uri s)) [
        | inl bad ↦ rw (bad, mapping_create_rec) (Ends-fault _)
        | inr good ↦
            let new = (not_refused uri s good).1 in
            rw (good, mapping_create_rec)
              (Ends-bind _ _ _ _
                (find_cheapest-Compared sets ops plugins inputs fuel
                  (λ u t. mapping_create_rec sets ops plugins fuel inputs u t)
                  (λ u t out absent_yet fits ok.
                    mapping_create_rec-Searched fuel u t absent_yet fits ok)
                  uri plugins (λ i p at. (i, at)) none
                  (record s { visited = ops.set s.visited uri none })
                  (λ i p at e.
                    omega (arith, unvisited-set-lt sets ops plugins s.visited uri i p at e new))
                  sound (λ p cost e. absurd (ground (arith, e))))
                λ r h. conclude-Searched uri s (r.0) (r.1) new fresh h)
      ]
