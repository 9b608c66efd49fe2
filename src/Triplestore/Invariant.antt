-- ===== src/Triplestore/Invariant.antt =====
-- The invariant of a triple store, and what one call of `_remove_by_index` does to a valid store.
use dlite.Base.{
  ℕ, suc, ◌+◌, ◌≤◌, ◌≡◌, ◌≢◌, refl, Bool, false, Option, none, some, Perm, arith, Text, text_eq,
  length, get_elem?, set, drop, select, of_bool, total, total-set, swap_out, length-swap_out,
  total-swap_out, select-swap_out, total-drop-swap_out, total-drop-set, lt-length_of_get_elem?,
  length-set, select-set,
}
use mathlib.Core.List.Perm
use dlite.StringMap.{StringMap}
use dlite.Triple.{Triple}
use dlite.Triplestore.Store.{TripleStore, decrement, is_live}

abbrev pub live_one : Triple → ℕ
live_one t = of_bool (is_live t)

-- 1 for a live triple with the identifier `k`.
abbrev pub with_id : Text → Triple → ℕ
with_id k t = elim t.id [ none ↦ 0 | some id ↦ of_bool (text_eq id k) ]

abbrev pub present : Option ℕ → ℕ
present none = 0
present (some _) = 1

-- The triple with its identifier set to NULL.
abbrev pub marked : Triple → Triple
marked t = record t { id = none }

module _ {M : Type 0} (ops : StringMap M) where
  -- `length` counts the live triples; without a running iterator no slot is marked; the slots are
  -- allocated; and the index holds the identifiers of the live triples, each of one triple.
  pub record IsValid (ts : TripleStore M) : Type 0 where
    pub live_length : ts.length ≡ total live_one ts.triples
    pub settled : ts.niter ≡ 0 → ts.length ≡ length ts.triples
    pub capacity : length ts.triples ≤ ts.size
    pub indexed : (k : Text) → total (with_id k) ts.triples ≡ present (ops.get ts.index k)

  -- The removal of the live triple `t` in slot `n`.
  pub record Removed (ts : TripleStore M) (n : ℕ) (t : Triple) (ts' : TripleStore M) : Type 0 where
    pub valid : IsValid ts'
    pub niter : ts'.niter ≡ ts.niter
    pub freed : ts'.freed ≡ ts.freed
    pub one_less : suc ts'.length ≡ ts.length
    pub bound : n ≤ length ts'.triples
    pub others :
        (p : Triple → Bool)
        → p t ≡ false
        → p (marked t) ≡ false
        → Perm (select p ts'.triples) (select p ts.triples)
    pub sum : (f : Triple → ℕ) → f (marked t) ≡ 0 → total f ts'.triples + f t ≡ total f ts.triples
    pub behind :
        (f : Triple → ℕ)
        → f (marked t) ≡ 0
        → total f (drop n ts'.triples) ≡ total f (drop (suc n) ts.triples)

  -- The two ways in which a call removes slot `n`: by moving the last triple, and by marking.
  abbrev pub swapped : TripleStore M → ℕ → Text → TripleStore M
  swapped ts n id = record ts {
    triples = swap_out n ts.triples;
    length = decrement ts.length;
    index = ops.remove ts.index id;
  }

  abbrev pub pending : TripleStore M → ℕ → Triple → Text → TripleStore M
  pending ts n t id = record ts {
    triples = set ts.triples n (marked t);
    length = decrement ts.length;
    index = ops.remove ts.index id;
  }

  module _ (ts : TripleStore M) (n : ℕ) (t : Triple) (id : Text)
      (at_n : get_elem? ts.triples n ≡ some t) (has_id : t.id ≡ some id) where
    swapped-indexed :
        IsValid ts
        → (k : Text)
        → total (with_id k) (swap_out n ts.triples) ≡ present (ops.get (ops.remove ts.index id) k)
    swapped-indexed v k = ground (
      arith,
      v.indexed k,
      ops.get-remove ts.index id k,
      total-swap_out (with_id k) ts.triples n t at_n,
    )

    pub swapped-Removed : IsValid ts → ts.niter ≡ 0 → Removed ts n t (swapped ts n id)
    swapped-Removed v settled =
        let live = total-swap_out live_one ts.triples n t at_n in
        let here = lt-length_of_get_elem? ts.triples n t at_n in
        let shorter = length-swap_out ts.triples n t at_n in
        let full = v.settled settled in
        let positive : suc (decrement ts.length) ≡ ts.length = ground arith in
        record {
          valid = record {
            live_length = ground (arith, v.live_length);
            settled = λ _. omega arith;
            capacity = omega (arith, v.capacity);
            indexed = swapped-indexed v;
          };
          niter = refl;
          freed = refl;
          one_less = positive;
          bound = omega arith;
          others = λ p out _. select-swap_out p ts.triples n t at_n out;
          sum = λ f _. total-swap_out f ts.triples n t at_n;
          behind = λ f _. total-drop-swap_out f ts.triples n;
        }

    pending-indexed :
        IsValid ts
        → (k : Text)
        → total (with_id k) (set ts.triples n (marked t))
          ≡ present (ops.get (ops.remove ts.index id) k)
    pending-indexed v k = ground (
      arith,
      v.indexed k,
      ops.get-remove ts.index id k,
      total-set (with_id k) ts.triples n t (marked t) at_n,
    )

    pub pending-Removed : IsValid ts → ts.niter ≢ 0 → Removed ts n t (pending ts n t id)
    pending-Removed v running =
        let live = total-set live_one ts.triples n t (marked t) at_n in
        let here = lt-length_of_get_elem? ts.triples n t at_n in
        let kept = length-set ts.triples n (marked t) in
        let positive : suc (decrement ts.length) ≡ ts.length = ground (arith, v.live_length) in
        record {
          valid = record {
            live_length = ground (arith, v.live_length);
            settled = λ e. absurd (running e);
            capacity = omega (arith, v.capacity);
            indexed = pending-indexed v;
          };
          niter = refl;
          freed = refl;
          one_less = positive;
          bound = omega arith;
          others =
              λ p out gone. rw (select-set p ts.triples n t (marked t) at_n out gone) (Perm.refl _);
          sum = λ f none_left. omega (arith, total-set f ts.triples n t (marked t) at_n, none_left);
          behind = λ f none_left.
              rw (total-drop-set f ts.triples n t (marked t) at_n, none_left) (omega arith);
        }
