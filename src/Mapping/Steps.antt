-- ===== src/Mapping/Steps.antt =====
-- How the loops of `mapping_create_rec` in src/dlite-mapping.c change the sets.
use dlite.Base.{
  ℕ, zero, suc, ◌≤◌, ◌<◌, ◌≡◌, refl, ◌∙◌, sym, ap, inl, inr, List, [], ◌∷◌, Option, none, some,
  Option-cases, Text, ℤ, ◌+ℤ◌, get_elem?, total, arith, text_eq_iff,
}
use dlite.StringMap.{StringMapOf}
use dlite.Mapping.{
  Plugin, Mapping, Run, ◌>>=◌, Search, is_some, cost_of, add_cost, realise, input_maps,
}
use dlite.Mapping.Ends.{Ends, Ends-done, Ends-fault, Ends-map, Ends-bind, add_cost-Ends}
use dlite.Mapping.Valid.{ValidInputs, given_by, Kept, Sound, Priced, unvisited, Searched, Realised}

module _ {I M : Type 0} (sets : StringMapOf (Option Text) I)
    (ops : StringMapOf (Option Mapping) M) where
  pub Kept-refl : (s : Search M) → Kept sets ops s s
  Kept-refl s = record { visited = λ k. refl; created = λ k o h. h; guarded = λ k o h. refl }

  pub Kept-trans : (s t u : Search M) → Kept sets ops s t → Kept sets ops t u → Kept sets ops s u
  Kept-trans s t u a b = record {
    visited = λ k. b.visited k ∙ a.visited k;
    created = λ k o h. b.created k o (a.created k o h);
    guarded = λ k o h. b.guarded k o (a.visited k ∙ h) ∙ a.guarded k o h;
  }

  pub unvisited-congr :
      (plugins : List Plugin) (v w : M)
      → ((k : Text) → ops.get w k ≡ ops.get v k)
      → unvisited sets ops plugins w ≡ unvisited sets ops plugins v
  unfolding total
  unvisited-congr [] v w h = refl
  unvisited-congr (p ∷ plugins) v w h = rw (h p.output_uri, unvisited-congr plugins v w h)

  pub unvisited-set :
      (plugins : List Plugin) (v : M) (uri : Text)
      → unvisited sets ops plugins (ops.set v uri none) ≤ unvisited sets ops plugins v
  unfolding total
  unvisited-set [] v uri = omega arith
  unvisited-set (p ∷ plugins) v uri =
      ground (arith, ops.get-set v uri p.output_uri none, unvisited-set plugins v uri)

  -- Visiting the output of a plugin for the first time.
  pub unvisited-set-lt :
      (plugins : List Plugin) (v : M) (uri : Text) (i : ℕ) (p : Plugin)
      → get_elem? plugins i ≡ some p
      → uri ≡ p.output_uri
      → ops.get v uri ≡ none
      → unvisited sets ops plugins (ops.set v uri none) < unvisited sets ops plugins v
  unfolding total
  unvisited-set-lt [] v uri i p at e new = ground arith
  unvisited-set-lt (q ∷ plugins) v uri zero p at e new =
      let same : uri ≡ q.output_uri = cc in
      let equal = (text_eq_iff uri q.output_uri).1 same in
      let seen : ops.get (ops.set v uri none) q.output_uri ≡ some none =
        ops.get-set v uri q.output_uri none ∙ rw equal in
      let unseen : ops.get v q.output_uri ≡ none = ap (ops.get v) (sym same) ∙ new in
      rw (seen, unseen) (omega (arith, unvisited-set plugins v uri))
  unvisited-set-lt (q ∷ plugins) v uri (suc i) p at e new =
      ground
        (arith, ops.get-set v uri q.output_uri none, unvisited-set-lt plugins v uri i p at e new)

  pub Priced-mono :
      (inputs : I) (c d : M) (cost sum : ℤ) (uris : List Text)
      → ((k : Text) (o : Option Mapping) → ops.get c k ≡ some o → ops.get d k ≡ some o)
      → Priced sets ops inputs c cost uris sum
      → Priced sets ops inputs d cost uris sum
  Priced-mono inputs c d cost sum [] more h = h
  Priced-mono inputs c d cost sum (uri ∷ uris) more (inl (here, h)) =
      inl (here, Priced-mono inputs c d cost sum uris more h)
  Priced-mono inputs c d cost sum (uri ∷ uris) more (inr (m, out, made, h)) =
      inr
        (m, out, more uri (some m) made, Priced-mono inputs c d (cost +ℤ cost_of m) sum uris more h)

module _ {I M : Type 0} (sets : StringMapOf (Option Text) I) (ops : StringMapOf (Option Mapping) M)
    (plugins : List Plugin) (inputs : I) where
  -- The inputs that are filled in are those of a tree.
  pub input_maps-ValidInputs :
      (created : M) (cost sum : ℤ) (uris : List Text)
      → Sound sets ops plugins inputs created
      → Priced sets ops inputs created cost uris sum
      → Ends
          (input_maps sets ops inputs created uris)
          (λ ins. ValidInputs plugins (given_by sets ops inputs) cost ins uris sum)
  unfolding input_maps
  input_maps-ValidInputs created cost sum [] sound h = Ends-done _ _ h
  input_maps-ValidInputs created cost sum (uri ∷ uris) sound (inl (here, h)) =
      elim (Option-cases (sets.get inputs uri)) [
        | inl e ↦ absurd (ground (arith, here, e))
        | inr (x, e) ↦
            rw (e, input_maps)
              (Ends-bind _ _ _ _ (input_maps-ValidInputs created cost sum uris sound h)
                λ ins valid. Ends-done _ _ (refl, here, valid))
      ]
  input_maps-ValidInputs created cost sum (uri ∷ uris) sound (inr (m, out, made, h)) =
      rw (out, made, input_maps)
        (Ends-bind _ _ _ _ (input_maps-ValidInputs created (cost +ℤ cost_of m) sum uris sound h)
          λ ins valid.
            Ends-done _ _ ((sound uri m made).0, ap is_some out, (sound uri m made).1, valid))

module _ {I M : Type 0} (sets : StringMapOf (Option Text) I) (ops : StringMapOf (Option Mapping) M)
    (plugins : List Plugin) (inputs : I) (fuel : ℕ)
    (search : Text → Search M → Run (Search M × Option Mapping))
    (searches : (uri : Text) (s : Search M)
      → sets.get inputs uri ≡ none
      → ops.get s.created uri ≡ none
      → unvisited sets ops plugins s.visited < fuel
      → Sound sets ops plugins inputs s.created
      → Ends (search uri s) (Searched sets ops plugins inputs uri s)) where
  abbrev Loop : List Text → Type 0
  Loop uris =
      (cost : ℤ) (s : Search M)
      → unvisited sets ops plugins s.visited < fuel
      → Sound sets ops plugins inputs s.created
      → Ends (realise sets ops search inputs uris cost s)
          (Realised sets ops plugins inputs cost uris s)

  -- The rounds behind one whose input has the mapping `m`.
  realise_more :
      (uri : Text) (uris : List Text) (cost : ℤ) (s t : Search M) (m : Mapping)
      → Kept sets ops s t
      → Sound sets ops plugins inputs t.created
      → unvisited sets ops plugins s.visited < fuel
      → sets.get inputs uri ≡ none
      → ops.get t.created uri ≡ some (some m)
      → Loop uris
      → Ends
          (add_cost cost (cost_of m) >>= λ sum. realise sets ops search inputs uris sum t)
          (Realised sets ops plugins inputs cost (uri ∷ uris) s)
  realise_more uri uris cost s t m kept sound room out made loop =
      Ends-bind _ _ _ _ (add_cost-Ends cost (cost_of m)) λ sum e.
        Ends-map _ _ _
          (loop sum t (rw (unvisited-congr sets ops plugins s.visited t.visited kept.visited) room)
            sound)
          λ r h. (
            Kept-trans sets ops s t (r.0) kept (h.0),
            h.1,
            λ c ok. inr (m, out, (h.0).created uri (some m) made, rw (← e) ((h.2) c ok)),
          )

  realise_found :
      (uri : Text) (uris : List Text) (cost : ℤ) (s : Search M) (r : Search M × Option Mapping)
      → Searched sets ops plugins inputs uri s r
      → unvisited sets ops plugins s.visited < fuel
      → sets.get inputs uri ≡ none
      → Loop uris
      → Ends
          (elim (r.1) as (λ _. Run (Search M × Option ℤ)) [
            | none ↦ Run.done (r.0, none)
            | some m ↦
                add_cost cost (cost_of m) >>= λ sum. realise sets ops search inputs uris sum (r.0)
          ])
          (Realised sets ops plugins inputs cost (uri ∷ uris) s)
  realise_found uri uris cost s (t, none) h room out loop =
      Ends-done _ _ (h.0, h.1, λ sum e. absurd (ground (arith, e)))
  realise_found uri uris cost s (t, some m) h room out loop =
      realise_more uri uris cost s t m (h.0) (h.1) room out (((h.2) m refl).kept) loop

  pub realise-Realised : (uris : List Text) → Loop uris
  unfolding realise
  realise-Realised [] cost s room sound = Ends-done _ _ (Kept-refl sets ops s, sound, λ sum e. cc)
  realise-Realised (uri ∷ uris) cost s room sound = elim (Option-cases (sets.get inputs uri)) [
    | inr (x, e) ↦
        rw (e, realise)
          (Ends-map _ _ _ (realise-Realised uris cost s room sound)
            λ r h. (h.0, h.1, λ c ok. inl (ap is_some e, (h.2) c ok)))
    | inl out ↦ elim (Option-cases (ops.get s.created uri)) [
      | inl new ↦
          rw (out, new, realise)
            (Ends-bind _ _ _ _ (searches uri s out new room sound)
              λ r h. realise_found uri uris cost s r h room out (realise-Realised uris))
      | inr (none, e) ↦ rw (out, e, realise) (Ends-fault _)
      | inr (some m, e) ↦
          rw (out, e, realise)
            (realise_more uri uris cost s s m (Kept-refl sets ops s) sound room out e
              (realise-Realised uris))
    ]
  ]
