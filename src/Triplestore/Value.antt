-- ===== src/Triplestore/Value.antt =====
-- src/triplestore.c: `triplestore_value`, over the builtin store.
use dlite.Base.{
  ℕ, suc, ◌+◌, ◌-◌, ◌≤◌, ◌≡◌, ◌≢◌, refl, sym, ◌∙◌, ap, inl, inr, Bool, true, false, not, ◌&&◌,
  Option, none, some, List, [], ◌∷◌, arith, Text, Outcome, done, ◌>>=◌, ltb, ◌==◌, if◌then◌else◌,
  length, drop, drop-eq_nil,
}
use dlite.StringMap.{StringMap}
use dlite.Triple.{Triple}
use dlite.Triplestore.Store.{
  TripleStore, Criteria, is_found, scan, triplestore_init_state, triplestore_find,
}
use dlite.Triplestore.Update.{triplestore_deinit_state}
use dlite.Triplestore.Invariant.{IsValid}
use dlite.Triplestore.Search.{hits, scan_lem}

-- The field that is asked for: the one of `s`, `p` and `o` that is NULL, if it is the only one.
unfoldable pub asked : Criteria → Option (Triple → Text)
asked c = elim c.s [
  | none ↦ elim c.p [ none ↦ none | some _ ↦ elim c.o [ none ↦ none | some _ ↦ some (λ t. t.s) ] ]
  | some _ ↦ elim c.p [
    | none ↦ elim c.o [ none ↦ none | some _ ↦ some (λ t. t.p) ]
    | some _ ↦ elim c.o [ none ↦ some (λ t. t.o) | some _ ↦ none ]
  ]
]

abbrev is_some {ℓ} : {A : Type ℓ} → Option A → Bool
is_some none = false
is_some (some _) = true

abbrev count {ℓ} : {A : Type ℓ} → Option A → ℕ
count none = 0
count (some _) = 1

-- How many of subject, predicate and object are given.
abbrev pub given : Criteria → ℕ
given c = count c.s + count c.p + count c.o

asked_s :
    (s p o d : Option Text)
    → s ≡ none
    → 2 ≡ count s + count p + count o
    → asked (record { s = s; p = p; o = o; d = d }) ≡ some (λ t. t.s)
unfolding asked
asked_s none none none d missing two = absurd (ground arith)
asked_s none none (some c) d missing two = absurd (ground arith)
asked_s none (some b) none d missing two = absurd (ground arith)
asked_s none (some b) (some c) d missing two = refl
asked_s (some a) none none d missing two = absurd (ground arith)
asked_s (some a) none (some c) d missing two = absurd (ground arith)
asked_s (some a) (some b) none d missing two = absurd (ground arith)
asked_s (some a) (some b) (some c) d missing two = absurd (ground arith)

asked_p :
    (s p o d : Option Text)
    → p ≡ none
    → 2 ≡ count s + count p + count o
    → asked (record { s = s; p = p; o = o; d = d }) ≡ some (λ t. t.p)
unfolding asked
asked_p none none none d missing two = absurd (ground arith)
asked_p none none (some c) d missing two = absurd (ground arith)
asked_p none (some b) none d missing two = absurd (ground arith)
asked_p none (some b) (some c) d missing two = absurd (ground arith)
asked_p (some a) none none d missing two = absurd (ground arith)
asked_p (some a) none (some c) d missing two = refl
asked_p (some a) (some b) none d missing two = absurd (ground arith)
asked_p (some a) (some b) (some c) d missing two = absurd (ground arith)

asked_o :
    (s p o d : Option Text)
    → o ≡ none
    → 2 ≡ count s + count p + count o
    → asked (record { s = s; p = p; o = o; d = d }) ≡ some (λ t. t.o)
unfolding asked
asked_o none none none d missing two = absurd (ground arith)
asked_o none none (some c) d missing two = absurd (ground arith)
asked_o none (some b) none d missing two = absurd (ground arith)
asked_o none (some b) (some c) d missing two = absurd (ground arith)
asked_o (some a) none none d missing two = absurd (ground arith)
asked_o (some a) none (some c) d missing two = absurd (ground arith)
asked_o (some a) (some b) none d missing two = refl
asked_o (some a) (some b) (some c) d missing two = absurd (ground arith)

asked_unless_two :
    (s p o d : Option Text)
    → 2 ≢ count s + count p + count o
    → asked (record { s = s; p = p; o = o; d = d }) ≡ none
unfolding asked
asked_unless_two none none none d others = refl
asked_unless_two none none (some c) d others = refl
asked_unless_two none (some b) none d others = refl
asked_unless_two none (some b) (some c) d others = absurd (others refl)
asked_unless_two (some a) none none d others = refl
asked_unless_two (some a) none (some c) d others = absurd (others refl)
asked_unless_two (some a) (some b) none d others = absurd (others refl)
asked_unless_two (some a) (some b) (some c) d others = refl

module _ {M : Type 0} (ops : StringMap M) where
  -- The second search: NULL where there is another match and only one is wanted.
  unfoldable pub unless_more : TripleStore M → ℕ → Criteria → Bool → Text → Option Text
  unless_more ts pos c any value =
      if not any && is_some (triplestore_find ops ts pos c).0 then none else some value

  -- What is computed between the start and the end of the iterator.
  unfoldable pub value_of : TripleStore M → ℕ → Criteria → Option Text → Bool → Option Text
  value_of ts pos c fallback any = elim (asked c) [
    | none ↦ none
    | some field ↦ elim (triplestore_find ops ts pos c).0 [
      | none ↦ elim fallback [
        | none ↦ none
        | some value ↦ unless_more ts (triplestore_find ops ts pos c).1 c any value
      ]
      | some t ↦ unless_more ts (triplestore_find ops ts pos c).1 c any (field t)
    ]
  ]

  unfoldable pub triplestore_value :
      TripleStore M → Criteria → Option Text → Bool → Outcome (Option (TripleStore M) × Option Text)
  unfolding asked unless_more value_of triplestore_init_state triplestore_deinit_state
  triplestore_value ts c fallback any = do
    ts' ← triplestore_deinit_state ops (triplestore_init_state ops ts).0
    done (ts', value_of (triplestore_init_state ops ts).0 0 c fallback any)

  -- The value that is promised, from the list of the matches.
  pub promised : (Triple → Text) → Option Text → Bool → List Triple → Option Text
  promised field fallback any [] = fallback
  promised field fallback any (t ∷ []) = some (field t)
  promised field fallback true (t ∷ u ∷ ts) = some (field t)
  promised field fallback false (t ∷ u ∷ ts) = none

  pub init_deinit :
      (ts : TripleStore M)
      → IsValid ops ts
      → ts.freed ≡ false
      → triplestore_deinit_state ops (triplestore_init_state ops ts).0 ≡ done (some ts)
  unfolding triplestore_deinit_state triplestore_init_state
  init_deinit ts v alive =
      let same : ts.niter + 1 - 1 ≡ ts.niter = omega arith in
      let test : ltb 0 (ts.niter + 1) ≡ true = ground arith in
      let still : (ts.niter == 0 && ltb ts.length (length ts.triples)) ≡ false =
        ground (arith, v.settled) in
      rw (test, same, alive, still)

  module _ (ts : TripleStore M) (c : Criteria) (fallback : Option Text) (any : Bool) where
    at_end : (pos : ℕ) → length ts.triples ≤ pos → (triplestore_find ops ts pos c).0 ≡ none
    unfolding triplestore_find scan
    at_end pos h = rw (drop-eq_nil pos ts.triples h)

    value_of-none :
        (field : Triple → Text) (pos : ℕ)
        → asked c ≡ some field
        → triplestore_find ops ts 0 c ≡ (none, pos)
        → (triplestore_find ops ts pos c).0 ≡ none
        → value_of ts 0 c fallback any ≡ fallback
    unfolding value_of unless_more
    value_of-none field pos only first second = rw (only, first, value_of) (ground arith)

    value_of-some :
        (field : Triple → Text) (pos : ℕ) (t : Triple)
        → asked c ≡ some field
        → triplestore_find ops ts 0 c ≡ (some t, pos)
        → value_of ts 0 c fallback any ≡ unless_more ts pos c any (field t)
    unfolding value_of
    value_of-some field pos t only first =
        rw (only, first, value_of) (ap (λ r. unless_more ts r.1 c any (field t)) first)

    -- The second search.
    more_than_one :
        (field : Triple → Text) (k : ℕ) (t : Triple)
        → unless_more ts (suc k) c any (field t)
          ≡ promised field fallback any (t ∷ hits (is_found c) (drop (suc k) ts.triples))
    unfolding unless_more promised triplestore_find
    more_than_one field k t = elim (scan_lem (is_found c) (drop (suc k) ts.triples) (suc k)) [
      | inl nothing ↦ rw (nothing.0, nothing.1) (ground arith)
      | inr (t', _, _, found, rest) ↦ rw (rest, found) (ground arith)
    ]

    value_of-promised :
        (field : Triple → Text)
        → asked c ≡ some field
        → value_of ts 0 c fallback any ≡ promised field fallback any (hits (is_found c) ts.triples)
    unfolding promised triplestore_find
    value_of-promised field only = elim (scan_lem (is_found c) ts.triples 0) [
      | inl nothing ↦
          value_of-none field (0 + length ts.triples) only nothing.1
            (at_end (0 + length ts.triples) (omega arith))
          ∙ rw nothing.0
      | inr (t, k, inside, found, rest) ↦
          let e : 0 + suc k ≡ suc k = omega arith in
          value_of-some field (0 + suc k) t only found
          ∙ ap (λ p. unless_more ts p c any (field t)) e
          ∙ more_than_one field k t
          ∙ ap (promised field fallback any) (sym rest)
    ]

    value_of_running :
        value_of (triplestore_init_state ops ts).0 0 c fallback any ≡ value_of ts 0 c fallback any
    unfolding value_of unless_more triplestore_init_state triplestore_find
    value_of_running = refl

    value_result :
        IsValid ops ts
        → ts.freed ≡ false
        → triplestore_value ts c fallback any ≡ done (some ts, value_of ts 0 c fallback any)
    unfolding triplestore_value
    value_result v alive =
        ap (λ m. m >>= λ r. done (r, value_of (triplestore_init_state ops ts).0 0 c fallback any))
          (init_deinit ts v alive)
        ∙ ap (λ r. done (some ts, r)) value_of_running

    value_of_unasked : asked c ≡ none → value_of ts 0 c fallback any ≡ none
    unfolding value_of
    value_of_unasked no_field = rw (no_field, value_of)

    -- Of a valid store that is not to be freed, `triplestore_value` leaves the store as it was. If
    -- not exactly two of subject, predicate and object are given it returns NULL. Otherwise it
    -- returns the fallback where no live triple matches; where there is one match or `any` is set,
    -- the subject, the predicate or the object of the first match, namely the one that was not
    -- given; and NULL where there are more.
    pub triplestore_value_lem :
        IsValid ops ts
        → ts.freed ≡ false
        → (2 ≢ given c → triplestore_value ts c fallback any ≡ done (some ts, none))
          × (c.s ≡ none
              → 2 ≡ given c
              → triplestore_value ts c fallback any
                ≡ done (some ts, promised (λ t. t.s) fallback any (hits (is_found c) ts.triples)))
          × (c.p ≡ none
              → 2 ≡ given c
              → triplestore_value ts c fallback any
                ≡ done (some ts, promised (λ t. t.p) fallback any (hits (is_found c) ts.triples)))
          × (c.o ≡ none
              → 2 ≡ given c
              → triplestore_value ts c fallback any
                ≡ done (some ts, promised (λ t. t.o) fallback any (hits (is_found c) ts.triples)))
    triplestore_value_lem v alive =
        let answer = λ (field : Triple → Text) (only : asked c ≡ some field).
          value_result v alive ∙ ap (λ r. done (some ts, r)) (value_of-promised field only) in
        (
          λ others.
              value_result v alive
              ∙ ap (λ r. done (some ts, r))
                  (value_of_unasked (asked_unless_two c.s c.p c.o c.d others)),
          λ missing two. answer (λ t. t.s) (asked_s c.s c.p c.o c.d missing two),
          λ missing two. answer (λ t. t.p) (asked_p c.s c.p c.o c.d missing two),
          λ missing two. answer (λ t. t.o) (asked_o c.s c.p c.o c.d missing two),
        )
