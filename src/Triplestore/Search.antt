-- ===== src/Triplestore/Search.antt =====
-- `triplestore_find_first` and the iteration by `triplestore_find`, against the list of the live
-- triples that match.
use mathlib.Core.List.{head?}
use dlite.Base.{
  ℕ, zero, suc, ◌+◌, ◌<◌, ◌≡◌, refl, sym, ◌∙◌, ap, ◌⊎◌, inl, inr, Bool, ◌&&◌, none, some, List, [],
  ◌∷◌, arith, Bool-cases, length, drop, select, drop-drop, length-drop-suc,
}
use dlite.StringMap.{StringMap}
use dlite.Triple.{Triple}
use dlite.Triplestore.Store.{
  TripleStore, is_live, Criteria, is_match, is_found, scan, triplestore_find_first,
  triplestore_find,
}

-- The live triples that pass a test.
abbrev pub hits : (Triple → Bool) → List Triple → List Triple
hits test = select (λ t. is_live t && test t)

-- Either nothing passes the test and the search ends without a triple, or it returns the first
-- triple that passes, with the position behind it.
abbrev pub Scanned : (Triple → Bool) → List Triple → ℕ → Type 0
Scanned test ts pos =
    ((hits test ts ≡ []) × (scan test ts pos ≡ (none, pos + length ts)))
    ⊎ ((t : Triple) × (k : ℕ) × (k < length ts)
        × (scan test ts pos ≡ (some t, pos + suc k))
        × (hits test ts ≡ t ∷ hits test (drop (suc k) ts)))

pub scan_lem : (test : Triple → Bool) (ts : List Triple) (pos : ℕ) → Scanned test ts pos
unfolding scan
scan_lem test [] pos = inl (refl, ap (λ p. (none, p)) (omega arith))
scan_lem test (t ∷ ts) pos = elim (Bool-cases (is_live t && test t)) [
  | inl hit ↦ inr (t, 0, omega arith, rw (hit, scan) (ap (λ p. (some t, p)) (omega arith)), rw hit)
  | inr miss ↦ elim (scan_lem test ts (pos + 1)) [
    | inl nothing ↦
        inl (rw miss nothing.0, rw (miss, scan) (nothing.1 ∙ ap (λ p. (none, p)) (omega arith)))
    | inr (t', k, inside, found, rest) ↦ inr (
      t',
      suc k,
      omega arith,
      rw (miss, scan) (found ∙ ap (λ p. (some t', p)) (omega arith)),
      rw miss rest,
    )
  ]
]

module _ {M : Type 0} (ops : StringMap M) (ts : TripleStore M) (c : Criteria) where
  -- `triplestore_find_first` returns the first live triple that the criteria match, and none
  -- exactly if there is no such triple.
  pub triplestore_find_first_lem :
      triplestore_find_first ops ts c ≡ head? (hits (is_match c) ts.triples)
  unfolding triplestore_find_first
  triplestore_find_first_lem = elim (scan_lem (is_match c) ts.triples 0) [
    | inl nothing ↦ ap (λ r. r.0) nothing.1 ∙ rw nothing.0
    | inr (t, k, inside, found, rest) ↦ ap (λ r. r.0) found ∙ rw rest
  ]

  -- `while ((t = triplestore_find(&state, s, p, o, d)))`, with fuel: the triples that it visits.
  unfoldable pub find_all : ℕ → ℕ → List Triple
  find_all zero pos = []
  find_all (suc fuel) pos = elim (triplestore_find ops ts pos c).0 [
    | none ↦ []
    | some t ↦ t ∷ find_all fuel (triplestore_find ops ts pos c).1
  ]

  find_all-none :
      (fuel pos : ℕ) → (triplestore_find ops ts pos c).0 ≡ none → find_all (suc fuel) pos ≡ []
  unfolding find_all
  find_all-none fuel pos nothing = rw (nothing, find_all)

  find_all-some :
      (fuel pos pos' : ℕ) (t : Triple)
      → triplestore_find ops ts pos c ≡ (some t, pos')
      → find_all (suc fuel) pos ≡ t ∷ find_all fuel pos'
  unfolding find_all
  find_all-some fuel pos pos' t found = rw (found, find_all) (ap (λ r. t ∷ find_all fuel r.1) found)

  -- Called repeatedly from position `pos` on, `triplestore_find` returns each live triple from
  -- there on that the criteria find, once and in order, and then none; one call more than there
  -- are slots left is enough.
  pub find_all-hits :
      (fuel pos : ℕ)
      → length (drop pos ts.triples) < fuel
      → find_all fuel pos ≡ hits (is_found c) (drop pos ts.triples)
  unfolding triplestore_find
  find_all-hits zero pos h = absurd (omega arith)
  find_all-hits (suc fuel) pos h = elim (scan_lem (is_found c) (drop pos ts.triples) pos) [
    | inl nothing ↦ find_all-none fuel pos (ap (λ r. r.0) nothing.1) ∙ sym nothing.0
    | inr (t, k, inside, found, rest) ↦
        let moved = drop-drop pos (suc k) ts.triples in
        let shorter = length-drop-suc k (drop pos ts.triples) in
        find_all-some fuel pos (pos + suc k) t found
        ∙ ap (◌∷◌ t) (
            find_all-hits fuel (pos + suc k) (omega (arith, ap length moved))
            ∙ ap (hits (is_found c)) moved)
        ∙ sym rest
  ]
