-- ===== src/Triplestore/Update.antt =====
-- src/triplestore-builtin.c and src/triplestore.c: the operations that change a triple store.
use dlite.Base.{
  ℕ, zero, suc, ◌+◌, ◌-◌, ◌*◌, ◌/◌, ◌%◌, true, false, not, ◌&&◌, ◌||◌, List, [], ◌∷◌, ◌++◌, Option,
  none, some, Text, codes, Outcome, done, fault, ◌>>=◌, ltb, leb, ◌==◌, if◌then◌else◌, get_elem?,
  set, take,
}
use dlite.StringMap.{StringMap}
use dlite.Triple.{Triple, TripleGlobals, Sha1, triple_get_id}
use dlite.Triplestore.Store.{
  TripleStore, true_length, chunksize, decrement, is_live, Criteria, is_match, matches_text,
  matches_datatype, triplestore_create,
}

-- `memcpy(triples + n, triples + last, sizeof(Triple))`, where `last` ends the array from then on.
abbrev pub move_last : List Triple → ℕ → ℕ → List Triple
move_last ts n last = elim (get_elem? ts last) [ none ↦ ts | some t ↦ set ts n t ]

-- The first loop of `triplestore_deinit_state`, over the first `i` slots: removed triples at the
-- end are dropped.
unfoldable pub trim_removed : ℕ → List Triple → List Triple
trim_removed zero ts = take zero ts
trim_removed (suc i) ts = elim (get_elem? ts i) [
  | none ↦ take (suc i) ts
  | some t ↦ elim t.id [ none ↦ trim_removed i ts | some _ ↦ take (suc i) ts ]
]

-- The size to which the array is reallocated after `length` triples were left.
unfoldable pub shrink : ℕ → ℕ → ℕ
shrink size length = if ltb (length + chunksize) size then length + length % chunksize else size

-- The second loop: the last triple moves into each slot that is marked.
unfoldable pub compact : ℕ → List Triple → Outcome (List Triple)
compact zero ts = done ts
compact (suc i) ts = elim (get_elem? ts i) [
  | none ↦ fault
  | some t ↦ elim t.id [
    | some _ ↦ compact i ts
    | none ↦ elim (ltb i (true_length ts - 1)) [
      | true ↦ compact i (take (true_length ts - 1) (move_last ts i (true_length ts - 1)))
      | false ↦ fault
    ]
  ]
]

module _ {M : Type 0} (ops : StringMap M) where
  -- The allocation at the start of `triplestore_add_triples`.
  unfoldable pub make_space : TripleStore M → ℕ → Outcome (TripleStore M)
  make_space ts n =
      let needed = true_length ts.triples + n in
      let size = ts.size + ((needed - ts.size) / chunksize + 1) * chunksize in
      if ltb ts.size needed
      then (if leb needed size then done (record ts { size = size }) else fault)
      else done ts

module _ {C : Type 0} (sha : Sha1 C) (g : Option TripleGlobals) where
  -- The identifier of a triple to add: its own, or one that is made.
  unfoldable pub id_for : Triple → Option Text
  unfolding triple_get_id
  id_for t = elim t.id [
    | some id ↦ some id
    | none ↦ triple_get_id sha g none (some t.s) (some t.p) (some t.o) t.d
  ]

module _ {M C : Type 0} (ops : StringMap M) (sha : Sha1 C) (g : Option TripleGlobals) where
  -- One round of the loop of `triplestore_add_triples`; none where no identifier can be made.
  unfoldable pub add_one : TripleStore M → ℕ → Triple → Option (TripleStore M)
  add_one ts i t = elim (id_for sha g t) [
    | none ↦ none
    | some id ↦ elim (ops.get ts.index id) [
      | some _ ↦ some ts
      | none ↦ some (record ts {
        triples = ts.triples ++ record t { id = some id } ∷ [];
        length = ts.length + 1;
        index = ops.set ts.index id i;
      })
    ]
  ]

  -- The loop from the `i`-th triple on: the store, and non-zero on an error.
  unfoldable pub add_loop : TripleStore M → ℕ → List Triple → TripleStore M × ℕ
  add_loop ts i [] = (ts, 0)
  add_loop ts i (t ∷ triples) = elim (add_one ts i t) [
    | none ↦ (ts, 1)
    | some ts' ↦ add_loop ts' (i + 1) triples
  ]

  unfoldable pub triplestore_add_triples : TripleStore M → List Triple → Outcome (TripleStore M × ℕ)
  unfolding make_space id_for add_one add_loop
  triplestore_add_triples ts triples = do
    ts' ← make_space ops ts (true_length triples)
    done (add_loop ts' 0 triples)

  unfoldable pub triplestore_add :
      TripleStore M → Text → Text → Text → Option Text → Outcome (TripleStore M × ℕ)
  unfolding triplestore_add_triples
  triplestore_add ts s p o d =
      triplestore_add_triples ts (record { s = s; p = p; o = o; d = d; id = none } ∷ [])

  unfoldable pub triplestore_add_en :
      TripleStore M → Text → Text → Text → Outcome (TripleStore M × ℕ)
  unfolding triplestore_add
  triplestore_add_en ts s p o = triplestore_add ts s p o (some (codes "@en"))

  unfoldable pub triplestore_add_uri :
      TripleStore M → Text → Text → Text → Outcome (TripleStore M × ℕ)
  unfolding triplestore_add
  triplestore_add_uri ts s p o = triplestore_add ts s p o none

module _ {M : Type 0} (ops : StringMap M) where
  -- `_remove_by_index`: the store, and non-zero on an error.
  unfoldable pub remove_by_index : TripleStore M → ℕ → Outcome (TripleStore M × ℕ)
  remove_by_index ts n = elim (get_elem? ts.triples n) [
    | none ↦ done (ts, 1)
    | some t ↦ elim t.id [
      | none ↦ done (ts, 1)
      | some id ↦
          let index = ops.remove ts.index id in
          let length = decrement ts.length in
          if ts.niter == 0
          then (if ts.length == true_length ts.triples
              then done (
                record ts {
                  triples =
                      take length
                        (if ltb n length then move_last ts.triples n length else ts.triples);
                  length = length;
                  index = index;
                },
                0,
              )
              else fault)
          else done (
            record ts {
              triples = set ts.triples n (record t { id = none });
              length = length;
              index = index;
            },
            0,
          )
    ]
  ]

  unfoldable pub triplestore_remove_by_id : TripleStore M → Text → Outcome (TripleStore M × ℕ)
  unfolding remove_by_index
  triplestore_remove_by_id ts id = elim (ops.get ts.index id) [
    | none ↦ done (ts, 1)
    | some n ↦ remove_by_index ts n
  ]

  -- The loop of `triplestore_remove` over the first `i` slots, from the last; `n` counts.
  unfoldable pub remove_loop : Criteria → ℕ → TripleStore M → ℕ → Outcome (TripleStore M × ℕ)
  remove_loop c zero ts n = done (ts, n)
  remove_loop c (suc i) ts n = elim (get_elem? ts.triples i) [
    | none ↦ fault
    | some t ↦ elim (is_live t && is_match c t) [
      | false ↦ remove_loop c i ts n
      | true ↦ elim (remove_by_index ts i) [
        | fault ↦ fault
        | done r ↦ remove_loop c i r.0 (if r.1 == 0 then n + 1 else n)
      ]
    ]
  ]

  unfoldable pub triplestore_remove : TripleStore M → Criteria → Outcome (TripleStore M × ℕ)
  unfolding remove_loop remove_by_index is_match matches_text matches_datatype
  triplestore_remove ts c = remove_loop c (true_length ts.triples) ts 0

  -- The loop of `triplestore_clear`.
  unfoldable pub clear_loop : ℕ → TripleStore M → Outcome (TripleStore M)
  clear_loop zero ts = done ts
  clear_loop (suc n) ts = elim (get_elem? ts.triples n) [
    | none ↦ fault
    | some t ↦ elim (is_live t) [
      | false ↦ clear_loop n ts
      | true ↦ elim (remove_by_index ts n) [ fault ↦ fault | done r ↦ clear_loop n r.0 ]
    ]
  ]

  unfoldable pub triplestore_clear : TripleStore M → Outcome (TripleStore M)
  unfolding clear_loop remove_by_index triplestore_create
  triplestore_clear ts = do
    _ ← clear_loop (true_length ts.triples) ts
    done (record (triplestore_create ops) { niter = ts.niter })

  -- none where the memory of the store is released.
  unfoldable pub triplestore_free : TripleStore M → Outcome (Option (TripleStore M))
  unfolding triplestore_clear
  triplestore_free ts =
      if not ts.freed || ts.niter == 0
      then (do
        ts' ← triplestore_clear ts
        done (if ltb 0 ts'.niter then some (record ts' { freed = true }) else none))
      else fault

  -- The part of `triplestore_deinit_state` that runs when the last iterator ends.
  unfoldable pub drop_removed : TripleStore M → Outcome (TripleStore M)
  unfolding trim_removed compact shrink
  drop_removed ts = do
    triples ←
        compact (true_length (trim_removed (true_length ts.triples) ts.triples))
          (trim_removed (true_length ts.triples) ts.triples)
    if true_length triples == ts.length
        then done (record ts { triples = triples; size = shrink ts.size ts.length })
        else fault

  unfoldable pub triplestore_deinit_state : TripleStore M → Outcome (Option (TripleStore M))
  unfolding triplestore_free drop_removed
  triplestore_deinit_state ts =
      if ltb 0 ts.niter
      then (let ts' = record ts { niter = ts.niter - 1 } in
          if ts'.freed && ts'.niter == 0
          then triplestore_free ts'
          else if ts'.niter == 0 && ltb ts'.length (true_length ts'.triples)
          then (do r ← drop_removed ts'; done (some r))
          else done (some ts'))
      else fault
