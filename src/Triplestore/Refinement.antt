-- ===== src/Triplestore/Refinement.antt =====
-- Sequences of calls on a triple store, against a plain list of triples with no index, no marks
-- and no iterators.
use mathlib.Core.List.Perm
use dlite.Base.{
  ℕ, suc, ◌-◌, ◌<◌, ◌≡◌, refl, sym, ◌∙◌, ap, inl, inr, Bool, false, not, ◌&&◌, Option, none, some,
  List, [], ◌∷◌, ◌++◌, Perm, arith, Text, Outcome, done, fault, ◌>>=◌, leb, Bool-cases, select,
  total, total-append_one, total-perm, total-select, select-perm,
}
use dlite.StringMap.{StringMap}
use dlite.Triple.{Triple, TripleGlobals, Sha1}
use dlite.Triplestore.Store.{
  TripleStore, is_live, Criteria, is_match, triplestore_init_state, triplestore_create,
}
use dlite.Triplestore.Update.{
  triplestore_add_triples, triplestore_remove, triplestore_clear, triplestore_deinit_state,
}
use dlite.Triplestore.Invariant.{IsValid, with_id}
use dlite.Triplestore.Remove.{triplestore_remove_lem}
use dlite.Triplestore.Release.{
  emptied, init_state-IsValid, triplestore_deinit_state_lem, triplestore_clear_lem, emptied-IsValid,
}
use dlite.Triplestore.Add.{
  id_text, is_stored, new_triples, new_triples_known, new_triples_new, triplestore_add_triples_lem,
}

-- A call of the store's interface that does not go by an identifier.
pub data Call : Type 0 where
  add_triples : List Triple → Call
  remove : Criteria → Call
  clear : Call
  init_state : Call
  deinit_state : Call

select-append {ℓ} :
    {A : Type ℓ} (p : A → Bool) (xs ys : List A) → select p (xs ++ ys) ≡ select p xs ++ select p ys
select-append p [] ys = refl
select-append p (x ∷ xs) ys = ground (arith, select-append p xs ys)

select-select {ℓ} :
    {A : Type ℓ} (p q : A → Bool) (xs : List A)
    → select p (select q xs) ≡ select (λ x. q x && p x) xs
select-select p q [] = refl
select-select p q (x ∷ xs) = ground (arith, select-select p q xs)

module _ {C : Type 0} (sha : Sha1 C) (g : Option TripleGlobals) where
  -- What is added depends on the identifiers that are there, and on nothing else.
  new_triples_congr :
      (ts known known' : List Triple)
      → ((k : Text) → total (with_id k) known ≡ total (with_id k) known')
      → new_triples sha g known ts ≡ new_triples sha g known' ts
  unfolding new_triples
  new_triples_congr [] known known' same = refl
  new_triples_congr (t ∷ ts) known known' same =
      let u = record t { id = some (id_text sha g t) } in
      let agree : is_stored (id_text sha g t) known ≡ is_stored (id_text sha g t) known' =
        ap (leb 1) (same (id_text sha g t)) in
      elim (Bool-cases (is_stored (id_text sha g t) known)) [
        | inl stored ↦
            new_triples_known sha g known t ts stored
            ∙ new_triples_congr ts known known' same
            ∙ sym (new_triples_known sha g known' t ts (sym agree ∙ stored))
        | inr new ↦
            new_triples_new sha g known t ts new
            ∙ ap (◌∷◌ u) (
                new_triples_congr ts (known ++ u ∷ []) (known' ++ u ∷ []) (λ k. omega (
                  arith,
                  same k,
                  total-append_one (with_id k) known u,
                  total-append_one (with_id k) known' u,
                )))
            ∙ sym (new_triples_new sha g known' t ts (sym agree ∙ new))
      ]

  new_triples-live :
      (ts known : List Triple)
      → select is_live (new_triples sha g known ts) ≡ new_triples sha g known ts
  unfolding new_triples
  new_triples-live [] known = refl
  new_triples-live (t ∷ ts) known =
      let u = record t { id = some (id_text sha g t) } in
      elim (Bool-cases (is_stored (id_text sha g t) known)) [
        | inl stored ↦ rw (new_triples_known sha g known t ts stored) (new_triples-live ts known)
        | inr new ↦
            rw (new_triples_new sha g known t ts new)
              (ap (◌∷◌ u) (new_triples-live ts (known ++ u ∷ [])))
      ]

  -- The call on a plain list.
  pub apply : List Triple → Call → List Triple
  apply l (add_triples ts) = l ++ new_triples sha g l ts
  apply l (remove c) = select (λ t. not (is_match c t)) l
  apply l clear = []
  apply l init_state = l
  apply l deinit_state = l

  pub apply_all : List Triple → List Call → List Triple
  apply_all l [] = l
  apply_all l (call ∷ calls) = apply_all (apply l call) calls

  module _ {M : Type 0} (ops : StringMap M) where
    -- The call on the store; an iterator ends only where one runs.
    pub step : TripleStore M → Call → Outcome (Option (TripleStore M))
    step ts (add_triples triples) = do
      r ← triplestore_add_triples ops sha g ts triples
      done (some r.0)
    step ts (remove c) = do r ← triplestore_remove ops ts c; done (some r.0)
    step ts clear = do r ← triplestore_clear ops ts; done (some r)
    step ts init_state = done (some (triplestore_init_state ops ts).0)
    step ts deinit_state = triplestore_deinit_state ops ts

    pub run : TripleStore M → List Call → Outcome (Option (TripleStore M))
    run ts [] = done (some ts)
    run ts (call ∷ calls) = do r ← step ts call; elim r [ none ↦ fault | some ts' ↦ run ts' calls ]

    -- `n` iterators run at the start; each end of one has its start.
    abbrev pub Balanced : ℕ → List Call → Type 0
    Balanced n [] = Unit {0}
    Balanced n (init_state ∷ calls) = Balanced (suc n) calls
    Balanced n (deinit_state ∷ calls) = (0 < n) × Balanced (n - 1) calls
    Balanced n (call ∷ calls) = Balanced n calls

    -- The store holds the triples of the list, in some order.
    pub record Holds (ts : TripleStore M) (n : ℕ) (l : List Triple) : Type 0 where
      pub valid : IsValid ops ts
      pub niter : ts.niter ≡ n
      pub kept : ts.freed ≡ false
      pub contents : Perm (select is_live ts.triples) l

    Holds-add :
        (ts : TripleStore M) (n : ℕ) (l : List Triple) (triples : List Triple)
        → Holds ts n l
        → (ts' : TripleStore M) × (step ts (add_triples triples) ≡ done (some ts'))
          × Holds ts' n (apply l (add_triples triples))
    unfolding step apply
    Holds-add ts n l triples h =
        let (ts', added, valid, niter, freed, all) =
          triplestore_add_triples_lem sha g ops triples ts h.valid in
        let same = new_triples_congr triples ts.triples l (λ k.
          sym (total-select (with_id k) is_live ts.triples (λ t dead. ground arith))
          ∙ total-perm (with_id k) h.contents) in
        let live =
          ap (select is_live) all
          ∙ select-append is_live ts.triples (new_triples sha g ts.triples triples)
          ∙ ap (◌++◌ (select is_live ts.triples)) (new_triples-live triples ts.triples ∙ same) in
        (
          ts',
          ap (λ m. m >>= λ r. done (some r.0)) added,
          record {
            valid = valid;
            niter = niter ∙ h.niter;
            kept = freed ∙ h.kept;
            contents = rw live (Perm.append_right (new_triples sha g l triples) h.contents);
          },
        )

    Holds-remove :
        (ts : TripleStore M) (n : ℕ) (l : List Triple) (c : Criteria)
        → Holds ts n l
        → (ts' : TripleStore M) × (step ts (remove c) ≡ done (some ts'))
          × Holds ts' n (apply l (remove c))
    unfolding step apply
    Holds-remove ts n l c h =
        let (ts', removed, valid, niter, freed, rest) = triplestore_remove_lem ops c ts h.valid in
        (
          ts',
          ap (λ m. m >>= λ r. done (some r.0)) removed,
          record {
            valid = valid;
            niter = niter ∙ h.niter;
            kept = freed ∙ h.kept;
            contents = Perm.trans rest (
                rw (← select-select (λ t. not (is_match c t)) is_live ts.triples)
                  (select-perm (λ t. not (is_match c t)) h.contents));
          },
        )

    Holds-clear :
        (ts : TripleStore M) (n : ℕ) (l : List Triple)
        → Holds ts n l
        → (ts' : TripleStore M) × (step ts clear ≡ done (some ts')) × Holds ts' n []
    unfolding step triplestore_create
    Holds-clear ts n l h = (
      emptied ops ts.niter false,
      ap (λ m. m >>= λ r. done (some r)) (triplestore_clear_lem ops ts h.valid),
      record {
        valid = emptied-IsValid ops ts.niter false;
        niter = h.niter;
        kept = refl;
        contents = Perm.refl [];
      },
    )

    Holds-init_state :
        (ts : TripleStore M) (n : ℕ) (l : List Triple)
        → Holds ts n l
        → Holds (triplestore_init_state ops ts).0 (suc n) l
    unfolding triplestore_init_state
    Holds-init_state ts n l h = record {
      valid = init_state-IsValid ops ts h.valid;
      niter = omega (arith, h.niter);
      kept = h.kept;
      contents = h.contents;
    }

    Holds-deinit_state :
        (ts : TripleStore M) (n : ℕ) (l : List Triple)
        → 0 < n
        → Holds ts n l
        → (ts' : TripleStore M) × (step ts deinit_state ≡ done (some ts')) × Holds ts' (n - 1) l
    unfolding step
    Holds-deinit_state ts n l running h =
        let (ts', ended, valid, niter, freed, same) =
          triplestore_deinit_state_lem ops ts h.valid (omega (arith, h.niter)) h.kept in
        (
          ts',
          ended,
          record {
            valid = valid;
            niter = omega (arith, h.niter);
            kept = freed;
            contents = Perm.trans same h.contents;
          },
        )

    run_next :
        (ts ts' : TripleStore M) (call : Call) (calls : List Call)
        → step ts call ≡ done (some ts')
        → run ts (call ∷ calls) ≡ run ts' calls
    unfolding run
    run_next ts ts' call calls done_step = rw (done_step, run)

    -- In any sequence of calls in which each end of an iterator has its start, no call faults, and
    -- in the end the store is valid and holds, in some order, exactly the triples that the calls
    -- leave of a plain list: triples are added once for each identifier, and removed by criteria.
    pub run-Holds :
        (calls : List Call) (ts : TripleStore M) (n : ℕ) (l : List Triple)
        → Balanced n calls
        → Holds ts n l
        → (ts' : TripleStore M) × (n' : ℕ) × (run ts calls ≡ done (some ts'))
          × Holds ts' n' (apply_all l calls)
    unfolding run apply_all apply step
    run-Holds [] ts n l b h = (ts, n, refl, h)
    run-Holds (add_triples triples ∷ calls) ts n l b h =
        let (ts₁, stepped, h₁) = Holds-add ts n l triples h in
        let (ts', n', ran, h') = run-Holds calls ts₁ n _ b h₁ in
        (ts', n', run_next ts ts₁ (add_triples triples) calls stepped ∙ ran, h')
    run-Holds (remove c ∷ calls) ts n l b h =
        let (ts₁, stepped, h₁) = Holds-remove ts n l c h in
        let (ts', n', ran, h') = run-Holds calls ts₁ n _ b h₁ in
        (ts', n', run_next ts ts₁ (remove c) calls stepped ∙ ran, h')
    run-Holds (clear ∷ calls) ts n l b h =
        let (ts₁, stepped, h₁) = Holds-clear ts n l h in
        let (ts', n', ran, h') = run-Holds calls ts₁ n [] b h₁ in
        (ts', n', run_next ts ts₁ clear calls stepped ∙ ran, h')
    run-Holds (init_state ∷ calls) ts n l b h =
        let (ts', n', ran, h') =
          run-Holds calls (triplestore_init_state ops ts).0 (suc n) l b
            (Holds-init_state ts n l h) in
        (ts', n', run_next ts _ init_state calls refl ∙ ran, h')
    run-Holds (deinit_state ∷ calls) ts n l b h =
        let (ts₁, stepped, h₁) = Holds-deinit_state ts n l b.0 h in
        let (ts', n', ran, h') = run-Holds calls ts₁ (n - 1) l b.1 h₁ in
        (ts', n', run_next ts ts₁ deinit_state calls stepped ∙ ran, h')
