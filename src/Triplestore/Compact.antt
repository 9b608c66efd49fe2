-- ===== src/Triplestore/Compact.antt =====
-- The two loops of `triplestore_deinit_state` that drop the triples marked for removal.
use mathlib.Core.List.Perm
use dlite.Base.{
  ℕ, zero, suc, ◌-◌, ◌≤◌, ◌<◌, ◌≡◌, refl, ◌∙◌, sym, inl, inr, true, false, not, none, some, List,
  Perm, arith, done, Bool-cases, ltb, length, get_elem?, take, drop, select, get_elem?-lt, of_bool,
  total, total-drop-suc, total-drop_all, swap_out, select-swap_out, total-drop-swap_out,
  length-swap_out, length-take, get_elem?-take, select-take-suc,
}
use dlite.Triple.{Triple}
use dlite.Triplestore.Store.{is_live}
use dlite.Triplestore.Update.{trim_removed, compact}
use dlite.Triplestore.Remove.{take-move_last}

abbrev pub dead_one : Triple → ℕ
dead_one t = of_bool (not (is_live t))

-- No slot from `i` on is marked, and if no slot follows then the last one is not marked.
pub record IsReady (i : ℕ) (ts : List Triple) : Type 0 where
  pub behind : total dead_one (drop i ts) ≡ 0
  pub bound : i ≤ length ts
  pub last : i ≡ length ts → total dead_one (drop (i - 1) ts) ≡ 0

id_of_dead : (t : Triple) → is_live t ≡ false → t.id ≡ none
id_of_dead t dead = ground arith

-- What trimming the first `i` slots leaves of `ts`.
pub record Trimmed (i : ℕ) (ts ts' : List Triple) : Type 0 where
  pub same_live : select is_live ts' ≡ select is_live (take i ts)
  pub shorter : length ts' ≤ i
  pub ready : IsReady (length ts') ts'

module _ (i : ℕ) (ts : List Triple) (t : Triple) (at_i : get_elem? ts i ≡ some t) where
  trim_dead : t.id ≡ none → trim_removed (suc i) ts ≡ trim_removed i ts
  unfolding trim_removed
  trim_dead dead = rw (at_i, trim_removed) (ground arith)

  trim_live : is_live t ≡ true → trim_removed (suc i) ts ≡ take (suc i) ts
  unfolding trim_removed
  trim_live live = rw (at_i, trim_removed) (ground arith)

  take-Trimmed : suc i ≤ length ts → is_live t ≡ true → Trimmed (suc i) ts (take (suc i) ts)
  take-Trimmed h live =
      let size = length-take (suc i) ts h in
      let none_behind =
        total-drop_all dead_one (take (suc i) ts) (length (take (suc i) ts)) (omega arith) in
      let last_one = get_elem?-take ts i (suc i) (omega arith) ∙ at_i in
      let from_last = total-drop-suc dead_one (take (suc i) ts) i t last_one in
      let beyond = total-drop_all dead_one (take (suc i) ts) (suc i) (omega arith) in
      record {
        same_live = refl;
        shorter = omega arith;
        ready = record {
          behind = none_behind;
          bound = omega arith;
          last = λ _. rw size (ground arith);
        };
      }

pub trim_removed_lem : (i : ℕ) (ts : List Triple) → i ≤ length ts → Trimmed i ts (trim_removed i ts)
unfolding trim_removed total
trim_removed_lem zero ts h = record {
  same_live = refl;
  shorter = omega arith;
  ready = record { behind = refl; bound = omega arith; last = λ _. refl };
}
trim_removed_lem (suc i) ts h =
    let (t, at_i) = get_elem?-lt ts i h in
    elim (Bool-cases (is_live t)) [
      | inl live ↦ rw (trim_live i ts t at_i live) (take-Trimmed i ts t at_i h live)
      | inr dead ↦
          let trimmed = trim_removed_lem i ts (omega arith) in
          rw (trim_dead i ts t at_i (ground arith)) (record {
            same_live = trimmed.same_live ∙ sym (select-take-suc is_live ts i t at_i dead);
            shorter = omega (arith, trimmed.shorter);
            ready = trimmed.ready;
          })
    ]

module _ (i : ℕ) (ts : List Triple) (t : Triple) (at_i : get_elem? ts i ≡ some t) where
  compact_live : is_live t ≡ true → compact (suc i) ts ≡ compact i ts
  unfolding compact
  compact_live live = rw (at_i, compact) (ground arith)

  compact_dead :
      is_live t ≡ false → i < length ts - 1 → compact (suc i) ts ≡ compact i (swap_out i ts)
  unfolding compact
  compact_dead dead inside =
      let moved = take-move_last ts i (length ts - 1) (omega arith) inside in
      let test : ltb i (length ts - 1) ≡ true = ground arith in
      rw (at_i, compact) (rw (id_of_dead t dead, test, moved))

  IsReady-live : IsReady (suc i) ts → is_live t ≡ true → IsReady i ts
  IsReady-live r live =
      let behind = total-drop-suc dead_one ts i t at_i in
      record {
        behind = ground (arith, r.behind);
        bound = omega (arith, r.bound);
        last = λ e. absurd (omega (arith, r.bound));
      }

  IsReady-dead :
      IsReady (suc i) ts → is_live t ≡ false → (i < length ts - 1) × IsReady i (swap_out i ts)
  IsReady-dead r dead =
      let behind = total-drop-suc dead_one ts i t at_i in
      let inside : i < length ts - 1 = ground (arith, r.last, r.bound) in
      let shorter = length-swap_out ts i t at_i in
      (
        inside,
        record {
          behind = total-drop-swap_out dead_one ts i ∙ r.behind;
          bound = omega arith;
          last = λ e. absurd (omega arith);
        },
      )

-- The loop never faults on such an array; it keeps the live triples and nothing else.
pub compact_lem :
    (i : ℕ) (ts : List Triple)
    → IsReady i ts
    → (ts' : List Triple) × (compact i ts ≡ done ts')
      × (total dead_one ts' ≡ 0)
      × Perm (select is_live ts') (select is_live ts)
unfolding compact
compact_lem zero ts r = (ts, refl, r.behind, Perm.refl _)
compact_lem (suc i) ts r =
    let (t, at_i) = get_elem?-lt ts i (omega (arith, r.bound)) in
    elim (Bool-cases (is_live t)) [
      | inl live ↦
          let (ts', run, clean, same) = compact_lem i ts (IsReady-live i ts t at_i r live) in
          (ts', compact_live i ts t at_i live ∙ run, clean, same)
      | inr dead ↦
          let (inside, ready) = IsReady-dead i ts t at_i r dead in
          let (ts', run, clean, same) = compact_lem i (swap_out i ts) ready in
          (
            ts',
            compact_dead i ts t at_i dead inside ∙ run,
            clean,
            Perm.trans same (select-swap_out is_live ts i t at_i dead),
          )
    ]
