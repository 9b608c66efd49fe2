-- ===== src/Mapping/Choice.antt =====
-- How the loop over the plugins in `mapping_create_rec` of src/dlite-mapping.c chooses one.
use dlite.Base.{
  ℕ, suc, ◌<◌, ◌≡◌, refl, inl, inr, List, [], ◌∷◌, Option, none, some, Bool-cases, Text, text_eq, ℤ,
  get_elem?, arith, ltℤ, text_eq_iff,
}
use dlite.StringMap.{StringMapOf}
use dlite.Mapping.{Plugin, Mapping, Run, Search, Best, better, is_blocked, find_cheapest}
use dlite.Mapping.Ends.{Ends, Ends-done, Ends-map, Ends-bind}
use dlite.Mapping.Valid.{Kept, Sound, unvisited, Searched, Realised, Chosen, Compared}
use dlite.Mapping.Steps.{Kept-refl, Kept-trans, unvisited-congr, Priced-mono, realise-Realised}

module _ {I M : Type 0} (sets : StringMapOf (Option Text) I) (ops : StringMapOf (Option Mapping) M)
    (plugins : List Plugin) (inputs : I) (uri : Text) where
  abbrev BestChosen : M → Best → Type 0
  BestChosen created best =
      (p : Plugin) (cost : ℤ)
      → best ≡ some (p, cost)
      → Chosen sets ops plugins inputs uri created p cost

  BestChosen-none : (created : M) → BestChosen created none
  BestChosen-none created p cost e = absurd (ground (arith, e))

  BestChosen-some :
      (created : M) (p : Plugin) (cost : ℤ)
      → Chosen sets ops plugins inputs uri created p cost
      → BestChosen created (some (p, cost))
  BestChosen-some created p cost h q c e =
      let same : p ≡ q = cc in let price : cost ≡ c = cc in rw (← same, ← price) h

  BestChosen-mono :
      (c d : M) (best : Best)
      → ((k : Text) (o : Option Mapping) → ops.get c k ≡ some o → ops.get d k ≡ some o)
      → BestChosen c best
      → BestChosen d best
  BestChosen-mono c d best more h p cost e =
      let was = h p cost e in
      record {
        listed = was.listed;
        output = was.output;
        priced = Priced-mono sets ops inputs c d p.cost cost p.input_uris more was.priced;
      }

  BestChosen-better :
      (created : M) (best : Best) (p : Plugin) (cost : ℤ)
      → BestChosen created best
      → Chosen sets ops plugins inputs uri created p cost
      → BestChosen created (better best p cost)
  BestChosen-better created none p cost h new = BestChosen-some created p cost new
  BestChosen-better created (some (q, lowest)) p cost h new = elim (Bool-cases (ltℤ cost lowest)) [
    | inl less ↦ rw less (BestChosen-some created p cost new)
    | inr more ↦ rw more h
  ]

module _ {I M : Type 0} (sets : StringMapOf (Option Text) I) (ops : StringMapOf (Option Mapping) M)
    (plugins : List Plugin) (inputs : I) (fuel : ℕ)
    (search : Text → Search M → Run (Search M × Option Mapping))
    (searches : (uri : Text) (s : Search M)
      → sets.get inputs uri ≡ none
      → ops.get s.created uri ≡ none
      → unvisited sets ops plugins s.visited < fuel
      → Sound sets ops plugins inputs s.created
      → Ends (search uri s) (Searched sets ops plugins inputs uri s)) where
  abbrev Rounds : Text → List Plugin → Type 0
  Rounds uri ps =
      (best : Best) (s : Search M)
      → ((i : ℕ) (p : Plugin)
          → get_elem? plugins i ≡ some p
          → uri ≡ p.output_uri
          → unvisited sets ops plugins s.visited < fuel)
      → Sound sets ops plugins inputs s.created
      → BestChosen sets ops plugins inputs uri s.created best
      → Ends (find_cheapest sets ops search inputs uri ps best s)
          (Compared sets ops plugins inputs uri s)

  find_cheapest_next :
      (uri : Text) (ps : List Plugin) (best : Best) (s t : Search M)
      → Kept sets ops s t
      → Sound sets ops plugins inputs t.created
      → unvisited sets ops plugins s.visited < fuel
      → BestChosen sets ops plugins inputs uri t.created best
      → Rounds uri ps
      → Ends
          (find_cheapest sets ops search inputs uri ps best t)
          (Compared sets ops plugins inputs uri s)
  find_cheapest_next uri ps best s t kept sound room chosen rounds =
      let same = unvisited-congr sets ops plugins s.visited t.visited kept.visited in
      Ends-map _ _ _ (rounds best t (λ i q at e. rw same room) sound chosen)
        λ r h. (Kept-trans sets ops s t (r.0) kept (h.0), h.1, h.2)

  -- The rounds behind that of `p`, whose inputs have been realised or not.
  find_cheapest_more :
      (uri : Text) (p : Plugin) (ps : List Plugin) (best : Best) (s : Search M)
      (r : Search M × Option ℤ)
      → Realised sets ops plugins inputs p.cost p.input_uris s r
      → (i : ℕ) × (get_elem? plugins i ≡ some p)
      → uri ≡ p.output_uri
      → unvisited sets ops plugins s.visited < fuel
      → BestChosen sets ops plugins inputs uri s.created best
      → Rounds uri ps
      → Ends
          (elim (r.1) as (λ _. Run (Search M × Best)) [
            | none ↦ find_cheapest sets ops search inputs uri ps best (r.0)
            | some cost ↦ find_cheapest sets ops search inputs uri ps (better best p cost) (r.0)
          ])
          (Compared sets ops plugins inputs uri s)
  find_cheapest_more uri p ps best s (t, none) h listed output room chosen rounds =
      let kept =
        BestChosen-mono sets ops plugins inputs uri s.created t.created best ((h.0).created)
          chosen in
      find_cheapest_next uri ps best s t (h.0) (h.1) room kept rounds
  find_cheapest_more uri p ps best s (t, some cost) h listed output room chosen rounds =
      let kept =
        BestChosen-mono sets ops plugins inputs uri s.created t.created best ((h.0).created)
          chosen in
      let new : Chosen sets ops plugins inputs uri t.created p cost = record {
        listed = listed;
        output = output;
        priced = (h.2) cost refl;
      } in
      find_cheapest_next uri ps (better best p cost) s t (h.0) (h.1) room
        (BestChosen-better sets ops plugins inputs uri t.created best p cost kept new) rounds

  pub find_cheapest-Compared :
      (uri : Text) (ps : List Plugin)
      → ((i : ℕ) (p : Plugin) → get_elem? ps i ≡ some p → (j : ℕ) × (get_elem? plugins j ≡ some p))
      → Rounds uri ps
  unfolding find_cheapest
  find_cheapest-Compared uri [] listed best s room sound chosen =
      Ends-done _ _ (Kept-refl sets ops s, sound, chosen)
  find_cheapest-Compared uri (p ∷ ps) listed best s room sound chosen =
      let rounds = find_cheapest-Compared uri ps (λ i. listed (suc i)) in
      elim (Bool-cases (text_eq uri p.output_uri)) [
        | inr other ↦ rw (other, find_cheapest) (rounds best s room sound chosen)
        | inl same ↦ elim (Bool-cases (is_blocked sets ops s p.input_uris)) [
          | inl blocked ↦ rw (same, blocked, find_cheapest) (rounds best s room sound chosen)
          | inr open_way ↦
              let output = (text_eq_iff uri p.output_uri).0 same in
              let at = listed 0 p refl in
              let fits = room (at.0) p (at.1) output in
              rw (same, open_way, find_cheapest)
                (Ends-bind _ _ _ _
                  (realise-Realised sets ops plugins inputs fuel search searches p.input_uris p.cost
                    s fits sound)
                  λ r h. find_cheapest_more uri p ps best s r h at output fits chosen rounds)
        ]
      ]
