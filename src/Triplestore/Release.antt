-- ===== src/Triplestore/Release.antt =====
-- `triplestore_init_state`, `triplestore_deinit_state`, `triplestore_clear` and `triplestore_free`:
-- what happens to the triples when iterators end, and to the store when it is freed.
use mathlib.Core.List.Perm
use dlite.Base.{
  ℕ, zero, suc, ◌-◌, ◌≤◌, ◌<◌, ◌≡◌, refl, ◌∙◌, sym, ap, inl, inr, Bool, true, false, ◌&&◌, Option,
  none, some, List, Perm, arith, Outcome, done, ◌>>=◌, ◌==◌, ==_iff, Bool-cases, if◌then◌else◌, ltb,
  length, get_elem?-lt, select, total, length-perm, total-perm, total-select, select_all,
  take-length, length-select, length-select-le,
}
use dlite.StringMap.{StringMap}
use dlite.Triple.{Triple}
use dlite.Triplestore.Store.{TripleStore, is_live, triplestore_create, triplestore_init_state}
use dlite.Triplestore.Update.{
  trim_removed, clear_loop, triplestore_clear, triplestore_free, drop_removed, shrink,
  triplestore_deinit_state,
}
use dlite.Triplestore.Invariant.{IsValid, with_id}
use dlite.Triplestore.Remove.{remove_by_index-Removed}
use dlite.Triplestore.Compact.{dead_one, trim_removed_lem, compact_lem}

module _ {M : Type 0} (ops : StringMap M) where
  -- An empty store with `n` running iterators.
  abbrev pub emptied : ℕ → Bool → TripleStore M
  emptied n freed = record (triplestore_create ops) { niter = n; freed = freed }

  -- The same live triples in another order, none of them marked.
  reordered-IsValid :
      (ts : TripleStore M) (triples : List Triple) (size n : ℕ)
      → IsValid ops ts
      → Perm (select is_live triples) (select is_live ts.triples)
      → total dead_one triples ≡ 0
      → length triples ≤ size
      → (ts.length ≡ length triples)
        × IsValid ops (record ts { triples = triples; size = size; niter = n })
  reordered-IsValid ts triples size n v same clean room =
      let all_live = select_all is_live triples clean in
      let count = length-perm same in
      let before = length-select is_live ts.triples in
      let after = length-select is_live triples in
      let full : ts.length ≡ length triples = omega (arith, v.live_length, ap length all_live) in
      (
        full,
        record {
          live_length = omega (arith, ap length all_live);
          settled = λ _. full;
          capacity = room;
          indexed = λ k.
              sym (total-select (with_id k) is_live triples (λ t dead. ground arith))
              ∙ total-perm (with_id k) same
              ∙ total-select (with_id k) is_live ts.triples (λ t dead. ground arith)
              ∙ v.indexed k;
        },
      )

  le-shrink : (size n : ℕ) → n ≤ size → n ≤ shrink size n
  unfolding shrink
  le-shrink size n h = ground arith

  drop_removed_lem :
      (ts : TripleStore M) (n : ℕ)
      → IsValid ops ts
      → (ts' : TripleStore M) × (drop_removed ops (record ts { niter = n }) ≡ done ts')
        × IsValid ops ts'
        × (ts'.niter ≡ n)
        × (ts'.freed ≡ ts.freed)
        × Perm (select is_live ts'.triples) (select is_live ts.triples)
  unfolding drop_removed
  drop_removed_lem ts n v =
      let trimmed = trim_removed_lem (length ts.triples) ts.triples (omega arith) in
      let xs = trim_removed (length ts.triples) ts.triples in
      let (ts', run, clean, same) = compact_lem (length xs) xs trimmed.ready in
      let live_kept = trimmed.same_live ∙ ap (select is_live) (take-length ts.triples) in
      let kept = rw live_kept at same in
      let live = length-select is_live ts.triples in
      let fits = length-select-le is_live ts.triples in
      let all_live = select_all is_live ts' clean in
      let count = length-perm kept in
      let full : length ts' ≡ ts.length = omega (arith, v.live_length, ap length all_live) in
      let room : length ts' ≤ shrink ts.size ts.length =
        rw full (le-shrink ts.size ts.length (omega (arith, v.live_length, v.capacity))) in
      let (_, valid) = reordered-IsValid ts ts' (shrink ts.size ts.length) n v kept clean room in
      (
        record ts { triples = ts'; size = shrink ts.size ts.length; niter = n },
        rw (run, ◌>>=◌) (rw ((==_iff (length ts') ts.length).1 full)),
        valid,
        refl,
        refl,
        kept,
      )

  pub init_state-IsValid :
      (ts : TripleStore M) → IsValid ops ts → IsValid ops (triplestore_init_state ops ts).0
  unfolding triplestore_init_state
  init_state-IsValid ts v = record {
    live_length = v.live_length;
    settled = λ e. absurd (omega arith);
    capacity = v.capacity;
    indexed = v.indexed;
  }

  one_less-IsValid :
      (ts : TripleStore M)
      → IsValid ops ts
      → (ts.niter - 1 ≡ 0 → ts.length ≡ length ts.triples)
      → IsValid ops (record ts { niter = ts.niter - 1 })
  one_less-IsValid ts v settled = record {
    live_length = v.live_length;
    settled = settled;
    capacity = v.capacity;
    indexed = v.indexed;
  }

  deinit_drops :
      (ts : TripleStore M)
      → ltb 0 ts.niter ≡ true
      → ts.freed ≡ false
      → (ts.niter - 1 == 0 && ltb ts.length (length ts.triples)) ≡ true
      → triplestore_deinit_state ops ts
        ≡ (drop_removed ops (record ts { niter = ts.niter - 1 }) >>= λ r. done (some r))
  unfolding triplestore_deinit_state
  deinit_drops ts running alive last = rw (running, alive, last)

  -- If the store is valid, has a running iterator and is not to be freed, the end of an iterator
  -- does not fault; it leaves a valid store with one iterator less and the same live triples, up
  -- to order. (A valid store without iterators has no marked triples.)
  pub triplestore_deinit_state_lem :
      (ts : TripleStore M)
      → IsValid ops ts
      → 0 < ts.niter
      → ts.freed ≡ false
      → (ts' : TripleStore M) × (triplestore_deinit_state ops ts ≡ done (some ts'))
        × IsValid ops ts'
        × (suc ts'.niter ≡ ts.niter)
        × (ts'.freed ≡ false)
        × Perm (select is_live ts'.triples) (select is_live ts.triples)
  unfolding triplestore_deinit_state
  triplestore_deinit_state_lem ts v running alive =
      let fits = length-select-le is_live ts.triples in
      let live = length-select is_live ts.triples in
      let test : ltb 0 ts.niter ≡ true = ground arith in
      elim (Bool-cases (ts.niter - 1 == 0 && ltb ts.length (length ts.triples))) [
        | inl last ↦
            let (ts', run, valid, count, kept, same) = drop_removed_lem ts (ts.niter - 1) v in
            (
              ts',
              deinit_drops ts test alive last ∙ ap (λ m. m >>= λ r. done (some r)) run,
              valid,
              omega arith,
              kept ∙ alive,
              same,
            )
        | inr other ↦ (
          record ts { niter = ts.niter - 1 },
          rw (test, alive, other),
          one_less-IsValid ts v (ground (arith, v.live_length)),
          omega arith,
          alive,
          Perm.refl _,
        )
      ]

  clear_loop_lem :
      (n : ℕ) (ts : TripleStore M)
      → IsValid ops ts
      → n ≤ length ts.triples
      → (ts' : TripleStore M) × (clear_loop ops n ts ≡ done ts')
  unfolding clear_loop
  clear_loop_lem zero ts v h = (ts, refl)
  clear_loop_lem (suc n) ts v h =
      let (t, at_n) = get_elem?-lt ts.triples n h in
      elim (Bool-cases (is_live t)) [
        | inl live ↦
            let (ts₁, removed, r) = remove_by_index-Removed ops ts n t at_n live v in
            let (ts', run) = clear_loop_lem n ts₁ r.valid r.bound in
            (ts', rw (at_n, clear_loop) (rw live (rw removed run)))
        | inr dead ↦
            let (ts', run) = clear_loop_lem n ts v (omega arith) in
            (ts', rw (at_n, clear_loop) (rw dead run))
      ]

  -- Clearing a valid store does not fault and leaves an empty store with the same iterators.
  pub triplestore_clear_lem :
      (ts : TripleStore M)
      → IsValid ops ts
      → triplestore_clear ops ts ≡ done (emptied ts.niter false)
  unfolding triplestore_clear
  triplestore_clear_lem ts v =
      let (_, run) = clear_loop_lem (length ts.triples) ts v (omega arith) in rw run

  pub emptied-IsValid : (n : ℕ) (freed : Bool) → IsValid ops (emptied n freed)
  unfolding triplestore_create total
  emptied-IsValid n freed = record {
    live_length = refl;
    settled = λ _. refl;
    capacity = omega arith;
    indexed = λ k. rw (ops.get-empty k);
  }

  pub create-IsValid : IsValid ops (triplestore_create ops)
  unfolding triplestore_create
  create-IsValid = emptied-IsValid 0 false

  -- `k` iterators end, one after the other, while the store is there.
  abbrev pub deinit_times : ℕ → TripleStore M → Outcome (Option (TripleStore M))
  deinit_times zero ts = done (some ts)
  deinit_times (suc k) ts = do
    r ← triplestore_deinit_state ops ts
    elim r [ none ↦ done none | some ts' ↦ deinit_times k ts' ]

  deinit_emptied :
      (n : ℕ)
      → triplestore_deinit_state ops (emptied (suc (suc n)) true)
        ≡ done (some (emptied (suc n) true))
  unfolding triplestore_deinit_state triplestore_create
  deinit_emptied n = ground arith

  deinit_last : triplestore_deinit_state ops (emptied 1 true) ≡ done none
  unfolding triplestore_deinit_state triplestore_create
  deinit_last = refl

  deinit_times-some :
      (k n : ℕ) → k < n → deinit_times k (emptied n true) ≡ done (some (emptied (n - k) true))
  deinit_times-some zero n h = ground arith
  deinit_times-some (suc k) (suc zero) h = absurd (omega arith)
  deinit_times-some (suc k) (suc (suc n)) h = rw (deinit_emptied n) (
      rw (deinit_times-some k (suc n) (omega arith))
        (ap (λ m. done (some (emptied m true))) (omega arith)))
  deinit_times-some (suc k) zero h = absurd (omega arith)

  deinit_times_all : (n : ℕ) → deinit_times (suc n) (emptied (suc n) true) ≡ done none
  deinit_times_all zero = rw deinit_last
  deinit_times_all (suc n) = rw (deinit_emptied n) (deinit_times_all n)

  release : TripleStore M → Outcome (Option (TripleStore M))
  release ts = done (if ltb 0 ts.niter then some (record ts { freed = true }) else none)

  free_clears :
      (ts : TripleStore M)
      → ts.freed ≡ false
      → triplestore_free ops ts ≡ (triplestore_clear ops ts >>= release)
  unfolding triplestore_free release
  free_clears ts alive = rw alive

  free_emptied :
      (ts : TripleStore M)
      → IsValid ops ts
      → ts.freed ≡ false
      → triplestore_free ops ts ≡ release (emptied ts.niter false)
  free_emptied ts v alive =
      free_clears ts alive ∙ ap (λ m. m >>= release) (triplestore_clear_lem ts v)

  -- Freeing a valid store releases it at once if no iterator runs. If `n + 1` iterators run, it
  -- stays, and is released when the last of them ends and no earlier.
  pub triplestore_free_lem :
      (ts : TripleStore M)
      → IsValid ops ts
      → ts.freed ≡ false
      → (ts.niter ≡ 0 → triplestore_free ops ts ≡ done none)
        × ((n : ℕ)
            → ts.niter ≡ suc n
            → (ts' : TripleStore M) × (triplestore_free ops ts ≡ done (some ts'))
              × ((k : ℕ) → k ≤ n → (u : TripleStore M) × (deinit_times k ts' ≡ done (some u)))
              × (deinit_times (suc n) ts' ≡ done none))
  unfolding release
  triplestore_free_lem ts v alive =
      let freed = free_emptied ts v alive in
      (
        λ idle. freed ∙ rw idle,
        λ n running. (
          emptied (suc n) true,
          freed ∙ rw running (ground arith),
          λ k h. (emptied (suc n - k) true, deinit_times-some k (suc n) (omega arith)),
          deinit_times_all n,
        ),
      )
