-- ===== src/Triplestore/Remove.antt =====
-- `_remove_by_index`, `triplestore_remove_by_id` and `triplestore_remove`.
use mathlib.Core.List.Perm
use dlite.Base.{
  ℕ, zero, suc, ◌+◌, ◌≤◌, ◌<◌, ◌≡◌, ◌≢◌, refl, ◌∙◌, ap, inl, inr, Bool, true, false, not, ◌&&◌,
  some, List, Perm, arith, Text, done, Bool-cases, Option-cases, if◌then◌else◌, ltb, length,
  get_elem?, take, drop, select, get_elem?-lt, of_bool, total, total-drop-suc, total-drop_all,
  swap_out, take-set-last, take-last, lt-length_of_get_elem?, select-congr, length-select,
}
use native.Mathlib.Decide.{ℕ_discrete}
use dlite.StringMap.{StringMap}
use dlite.Triple.{Triple}
use dlite.Triplestore.Store.{TripleStore, decrement, is_live, Criteria, is_match}
use dlite.Triplestore.Update.{move_last, remove_by_index, remove_loop, triplestore_remove}
use dlite.Triplestore.Invariant.{
  IsValid, Removed, swapped, pending, swapped-Removed, pending-Removed,
}

pub take-move_last :
    (xs : List Triple) (n k : ℕ)
    → length xs ≡ suc k
    → n < k
    → take k (move_last xs n k) ≡ swap_out n xs
take-move_last xs n k h l =
    let (z, last) = get_elem?-lt xs k (omega arith) in
    rw (last, move_last) (take-set-last xs n k z h l last)

take-move_or_keep :
    (xs : List Triple) (n k : ℕ)
    → length xs ≡ suc k
    → n < suc k
    → take k (if ltb n k then move_last xs n k else xs) ≡ swap_out n xs
take-move_or_keep xs n k h l = elim (Bool-cases (ltb n k)) [
  | inl inside ↦ rw inside (take-move_last xs n k h (ground arith))
  | inr last ↦ let e : n ≡ k = ground arith in rw (last, e) (take-last xs k h)
]

id_of_live : (t : Triple) → is_live t ≡ true → (id : Text) × (t.id ≡ some id)
id_of_live t h = elim (Option-cases t.id) [ inl gone ↦ absurd (ground arith) | inr found ↦ found ]

-- A live triple that the criteria match, and one that they do not.
abbrev pub goes : Criteria → Triple → Bool
goes c t = is_live t && is_match c t

abbrev pub stays : Criteria → Triple → Bool
stays c t = is_live t && not (is_match c t)

module _ {M : Type 0} (ops : StringMap M) where
  module _ (ts : TripleStore M) (n : ℕ) (t : Triple) (id : Text)
      (at_n : get_elem? ts.triples n ≡ some t) (has_id : t.id ≡ some id) where
    remove_swaps :
        IsValid ops ts → ts.niter ≡ 0 → remove_by_index ops ts n ≡ done (swapped ops ts n id, 0)
    unfolding remove_by_index
    remove_swaps v settled =
        let full : ts.length ≡ length ts.triples = v.settled settled in
        let here = lt-length_of_get_elem? ts.triples n t at_n in
        let moves =
          take-move_or_keep ts.triples n (decrement ts.length) (ground arith) (ground arith) in
        ground (arith, moves)

    remove_marks : ts.niter ≢ 0 → remove_by_index ops ts n ≡ done (pending ops ts n t id, 0)
    unfolding remove_by_index
    remove_marks running = ground arith

    remove_by_id :
        IsValid ops ts
        → (ts' : TripleStore M) × (remove_by_index ops ts n ≡ done (ts', 0))
          × Removed ops ts n t ts'
    remove_by_id v = elim (ℕ_discrete ts.niter 0) [
      | yes e ↦
          (swapped ops ts n id, remove_swaps v e, swapped-Removed ops ts n t id at_n has_id v e)
      | no e ↦
          (pending ops ts n t id, remove_marks e, pending-Removed ops ts n t id at_n has_id v e)
    ]

  -- A live triple is removed without a fault, and the store stays valid.
  pub remove_by_index-Removed :
      (ts : TripleStore M) (n : ℕ) (t : Triple)
      → get_elem? ts.triples n ≡ some t
      → is_live t ≡ true
      → IsValid ops ts
      → (ts' : TripleStore M) × (remove_by_index ops ts n ≡ done (ts', 0)) × Removed ops ts n t ts'
  remove_by_index-Removed ts n t at_n live v =
      let (id, has_id) = id_of_live t live in remove_by_id ts n t id at_n has_id v

  module _ (c : Criteria) where
    abbrev going : List Triple → ℕ
    going = total (λ t. of_bool (goes c t))

    remove_loop-stays :
        (i : ℕ) (ts : TripleStore M) (n : ℕ) (t : Triple)
        → get_elem? ts.triples i ≡ some t
        → goes c t ≡ false
        → remove_loop ops c (suc i) ts n ≡ remove_loop ops c i ts n
    unfolding remove_loop
    remove_loop-stays i ts n t at_i keeps = rw (at_i, remove_loop) (rw keeps)

    remove_loop-goes :
        (i : ℕ) (ts ts' : TripleStore M) (n : ℕ) (t : Triple)
        → get_elem? ts.triples i ≡ some t
        → goes c t ≡ true
        → remove_by_index ops ts i ≡ done (ts', 0)
        → remove_loop ops c (suc i) ts n ≡ remove_loop ops c i ts' (n + 1)
    unfolding remove_loop
    remove_loop-goes i ts ts' n t at_i leaves removed =
        rw (at_i, remove_loop) (rw leaves (rw removed))

    -- What the loop has reached, and the store that it started from.
    record Swept (ts : TripleStore M) (ts' : TripleStore M) : Type 0 where
      valid : IsValid ops ts'
      niter : ts'.niter ≡ ts.niter
      freed : ts'.freed ≡ ts.freed
      none_left : going ts'.triples ≡ 0
      rest : Perm (select (stays c) ts'.triples) (select (stays c) ts.triples)

    remove_loop_lem :
        (i : ℕ) (ts : TripleStore M) (n : ℕ)
        → IsValid ops ts
        → i ≤ length ts.triples
        → going (drop i ts.triples) ≡ 0
        → (ts' : TripleStore M) × (remove_loop ops c i ts n ≡ done (ts', n + going ts.triples))
          × Swept ts ts'
    unfolding remove_loop
    remove_loop_lem zero ts n v h none_behind = (
      ts,
      ground arith,
      record { valid = v; niter = refl; freed = refl; none_left = none_behind; rest = Perm.refl _ },
    )
    remove_loop_lem (suc i) ts n v h none_behind =
        let (t, at_i) = get_elem?-lt ts.triples i (omega arith) in
        let behind = total-drop-suc (λ t. of_bool (goes c t)) ts.triples i t at_i in
        elim (Bool-cases (goes c t)) [
          | inl leaves ↦
              let (ts₁, removed, r) = remove_by_index-Removed ts i t at_i (ground arith) v in
              let (ts', run, swept) =
                remove_loop_lem i ts₁ (n + 1) r.valid r.bound
                  (omega (arith, r.behind (λ t. of_bool (goes c t)) refl)) in
              (
                ts',
                remove_loop-goes i ts ts₁ n t at_i leaves removed
                    ∙ run
                    ∙ ap (λ k. done (ts', k))
                        (omega (arith, r.sum (λ t. of_bool (goes c t)) refl, ap of_bool leaves)),
                record {
                  valid = swept.valid;
                  niter = swept.niter ∙ r.niter;
                  freed = swept.freed ∙ r.freed;
                  none_left = swept.none_left;
                  rest = Perm.trans swept.rest (r.others (stays c) (ground arith) refl);
                },
              )
          | inr keeps ↦
              let (ts', run, swept) = remove_loop_lem i ts n v (omega arith) (ground arith) in
              (ts', remove_loop-stays i ts n t at_i keeps ∙ run, swept)
        ]

    -- From a valid store, with or without running iterators, `triplestore_remove` ends without a
    -- fault, its result is the number of live triples that the criteria match, the store that it
    -- leaves is valid, with as many running iterators, and its live triples are, up to order, the
    -- live triples that the criteria do not match.
    pub triplestore_remove_lem :
        (ts : TripleStore M)
        → IsValid ops ts
        → (ts' : TripleStore M) × (triplestore_remove ops ts c
            ≡ done (ts', length (select (goes c) ts.triples)))
          × IsValid ops ts'
          × (ts'.niter ≡ ts.niter)
          × (ts'.freed ≡ ts.freed)
          × Perm (select is_live ts'.triples) (select (stays c) ts.triples)
    unfolding triplestore_remove
    triplestore_remove_lem ts v =
        let (ts', run, swept) =
          remove_loop_lem (length ts.triples) ts 0 v (omega arith)
            (total-drop_all _ ts.triples (length ts.triples) (omega arith)) in
        (
          ts',
          run ∙ ap (λ k. done (ts', k)) (omega (arith, length-select (goes c) ts.triples)),
          swept.valid,
          swept.niter,
          swept.freed,
          rw
              (select-congr is_live (stays c) (goes c) ts'.triples (λ t h. ground arith)
                swept.none_left)
              swept.rest,
        )
