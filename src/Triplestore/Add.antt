-- ===== src/Triplestore/Add.antt =====
-- `triplestore_add_triples`: which triples are added, and that the store stays valid.
use mathlib.Core.List.{append_assoc, append-nil}
use dlite.Base.{
  ℕ, ◌+◌, ◌-◌, ◌*◌, ◌/◌, ◌≤◌, ◌<◌, ◌≡◌, refl, sym, ◌∙◌, ap, inl, inr, Bool, true, false, Option,
  none, some, List, [], ◌∷◌, ◌++◌, arith, Text, text_eq_iff, done, ◌>>=◌, ltb, leb, Bool-cases,
  length, length-append, total, total-append_one,
}
use dlite.StringMap.{StringMap}
use dlite.Triple.{Triple, TripleGlobals, Sha1, triple_get_id}
use dlite.Triplestore.Store.{TripleStore, chunksize}
use dlite.Triplestore.Update.{make_space, id_for, add_one, add_loop, triplestore_add_triples}
use dlite.Triplestore.Invariant.{IsValid, live_one, with_id, present}

module _ {M : Type 0} (ops : StringMap M) where
  pub make_space_lem :
      (ts : TripleStore M) (n : ℕ)
      → IsValid ops ts
      → (size : ℕ) × (make_space ops ts n ≡ done (record ts { size = size }))
        × (length ts.triples + n ≤ size)
        × (ts.size ≤ size)
  unfolding make_space
  make_space_lem ts n v = elim (Bool-cases (ltb ts.size (length ts.triples + n))) [
    | inl short ↦
        let size = ts.size + ((length ts.triples + n - ts.size) / chunksize + 1) * chunksize in
        let enough : leb (length ts.triples + n) size ≡ true = ground arith in
        (size, rw (short, enough), ground arith, omega arith)
    | inr room ↦ (ts.size, rw room, ground arith, omega arith)
  ]

-- A live triple of the list has the identifier `k`.
abbrev pub is_stored : Text → List Triple → Bool
is_stored k ts = leb 1 (total (with_id k) ts)

-- The index tells whether an identifier is stored.
stored_present :
    {M : Type 0} (ops : StringMap M) (ts : TripleStore M) (k : Text)
    → IsValid ops ts
    → leb 1 (present (ops.get ts.index k)) ≡ is_stored k ts.triples
stored_present ops ts k v = rw (v.indexed k)

module _ {C : Type 0} (sha : Sha1 C) (g : Option TripleGlobals) where
  -- The identifier under which `t` is added.
  abbrev pub id_text : Triple → Text
  id_text t = elim (id_for sha g t) [ none ↦ [] | some k ↦ k ]

  pub id_for-id_text : (t : Triple) → id_for sha g t ≡ some (id_text t)
  unfolding id_for triple_get_id
  id_for-id_text t = ground arith

  -- What a list of triples adds to the triples `known`: each whose identifier is not there yet,
  -- in order, and of those with the same identifier the first.
  unfoldable pub new_triples : List Triple → List Triple → List Triple
  new_triples known [] = []
  new_triples known (t ∷ ts) = elim (is_stored (id_text t) known) [
    | true ↦ new_triples known ts
    | false ↦
        record t { id = some (id_text t) }
        ∷ new_triples (known ++ record t { id = some (id_text t) } ∷ []) ts
  ]

  module _ (known : List Triple) (t : Triple) (ts : List Triple) where
    pub new_triples_known :
        is_stored (id_text t) known ≡ true → new_triples known (t ∷ ts) ≡ new_triples known ts
    unfolding new_triples
    new_triples_known stored = rw (stored, new_triples)

    pub new_triples_new :
        is_stored (id_text t) known ≡ false
        → new_triples known (t ∷ ts)
          ≡ record t { id = some (id_text t) }
            ∷ new_triples (known ++ record t { id = some (id_text t) } ∷ []) ts
    unfolding new_triples
    new_triples_new new = rw (new, new_triples)

  module _ {M : Type 0} (ops : StringMap M) where
    abbrev pub appended : TripleStore M → ℕ → Triple → TripleStore M
    appended ts i t = record ts {
      triples = ts.triples ++ record t { id = some (id_text t) } ∷ [];
      length = ts.length + 1;
      index = ops.set ts.index (id_text t) i;
    }

    add_one_known :
        (ts : TripleStore M) (i : ℕ) (t : Triple)
        → IsValid ops ts
        → is_stored (id_text t) ts.triples ≡ true
        → add_one ops sha g ts i t ≡ some ts
    unfolding add_one
    add_one_known ts i t v known =
        let stored = stored_present ops ts (id_text t) v in
        rw (id_for-id_text t, add_one) (ground arith)

    pub add_one_new :
        (ts : TripleStore M) (i : ℕ) (t : Triple)
        → IsValid ops ts
        → is_stored (id_text t) ts.triples ≡ false
        → add_one ops sha g ts i t ≡ some (appended ts i t)
    unfolding add_one
    add_one_new ts i t v new =
        let stored = stored_present ops ts (id_text t) v in
        rw (id_for-id_text t, add_one) (ground arith)

    appended-IsValid :
        (ts : TripleStore M) (i : ℕ) (t : Triple)
        → IsValid ops ts
        → is_stored (id_text t) ts.triples ≡ false
        → length ts.triples < ts.size
        → IsValid ops (appended ts i t)
    appended-IsValid ts i t v new room = record {
      live_length = omega (
        arith,
        v.live_length,
        total-append_one live_one ts.triples (record t { id = some (id_text t) }),
      );
      settled = λ e.
          omega (
            arith,
            v.settled e,
            length-append ts.triples (record t { id = some (id_text t) } ∷ []),
          );
      capacity = omega (arith, length-append ts.triples (record t { id = some (id_text t) } ∷ []));
      indexed = λ k. ground (
        arith,
        v.indexed k,
        v.indexed (id_text t),
        text_eq_iff (id_text t) k,
        ops.get-set ts.index (id_text t) k i,
        total-append_one (with_id k) ts.triples (record t { id = some (id_text t) }),
      );
    }

    add_loop_lem :
        (triples : List Triple) (ts : TripleStore M) (i : ℕ)
        → IsValid ops ts
        → length ts.triples + length triples ≤ ts.size
        → (ts' : TripleStore M) × (add_loop ops sha g ts i triples ≡ (ts', 0))
          × IsValid ops ts'
          × (ts'.niter ≡ ts.niter)
          × (ts'.freed ≡ ts.freed)
          × (ts'.triples ≡ ts.triples ++ new_triples ts.triples triples)
    unfolding add_loop new_triples
    add_loop_lem [] ts i v room = (ts, refl, v, refl, refl, sym (append-nil ts.triples))
    add_loop_lem (t ∷ triples) ts i v room = elim (Bool-cases (is_stored (id_text t) ts.triples)) [
      | inl known ↦
          let (ts', run, valid, niter, freed, all) =
            add_loop_lem triples ts (i + 1) v (omega arith) in
          (
            ts',
            rw (add_one_known ts i t v known, add_loop) run,
            valid,
            niter,
            freed,
            all ∙ ap (◌++◌ ts.triples) (sym (new_triples_known ts.triples t triples known)),
          )
      | inr new ↦
          let u = record t { id = some (id_text t) } in
          let longer = length-append ts.triples (u ∷ []) in
          let (ts', run, valid, niter, freed, all) =
            add_loop_lem triples (appended ts i t) (i + 1)
              (appended-IsValid ts i t v new (omega arith)) (omega arith) in
          (
            ts',
            rw (add_one_new ts i t v new, add_loop) run,
            valid,
            niter,
            freed,
            all
                ∙ append_assoc ts.triples (u ∷ []) _
                ∙ ap (◌++◌ ts.triples) (sym (new_triples_new ts.triples t triples new)),
          )
    ]

    -- Adding triples to a valid store succeeds (where memory suffices), keeps the slots there are,
    -- and appends each given triple whose identifier, its own or the one made of its texts, is not
    -- stored and was not given before; the store stays valid, with the same iterators.
    pub triplestore_add_triples_lem :
        (triples : List Triple) (ts : TripleStore M)
        → IsValid ops ts
        → (ts' : TripleStore M) × (triplestore_add_triples ops sha g ts triples ≡ done (ts', 0))
          × IsValid ops ts'
          × (ts'.niter ≡ ts.niter)
          × (ts'.freed ≡ ts.freed)
          × (ts'.triples ≡ ts.triples ++ new_triples ts.triples triples)
    unfolding triplestore_add_triples
    triplestore_add_triples_lem triples ts v =
        let (size, space, enough, grown) = make_space_lem ops ts (length triples) v in
        let roomy : IsValid ops (record ts { size = size }) = record {
          live_length = v.live_length;
          settled = v.settled;
          capacity = omega (arith, v.capacity);
          indexed = v.indexed;
        } in
        let (ts', run, valid, niter, freed, all) =
          add_loop_lem triples (record ts { size = size }) 0 roomy enough in
        (
          ts',
          ap (λ m. m >>= λ (u : TripleStore M). done (add_loop ops sha g u 0 triples)) space
              ∙ ap done run,
          valid,
          niter,
          freed,
          all,
        )
