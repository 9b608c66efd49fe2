-- ===== src/Triplestore/Defects.antt =====
-- Two ways in which the builtin store mistakes one triple for another.
use mathlib.Core.List.{append-nil}
use dlite.Base.{
  ℕ, ◌≡◌, refl, sym, ◌∙◌, ap, inl, inr, true, false, Option, none, some, List, [], ◌∷◌, ◌++◌, arith,
  Text, text_eq_iff, done, ◌>>=◌, get_elem?-append_left, get_elem?, Bool-cases, total-append_one,
}
use dlite.StringMap.{StringMap}
use dlite.Triple.{
  Triple, TripleGlobals, Sha1, triple_get_id, triple_digest, namespace_or,
  triple_get_default_namespace, hex_bytes,
}
use dlite.Triplestore.Store.{TripleStore, is_live, triplestore_get}
use dlite.Triplestore.Update.{id_for, add_one, add_loop, triplestore_add_triples, triplestore_add}
use dlite.Triplestore.Invariant.{IsValid, with_id}
use dlite.Triplestore.Add.{
  id_text, is_stored, new_triples, new_triples_known, new_triples_new, triplestore_add_triples_lem,
  appended, add_one_new, make_space_lem,
}

-- The triple that `triplestore_add` hands on.
abbrev given : Text → Text → Text → Option Text → Triple
given s p o d = record { s = s; p = p; o = o; d = d; id = none }

-- The texts of a triple without anything between them, with the datatype where there is one.
abbrev pub joined : Text → Text → Text → Option Text → Text
joined s p o none = (s ++ p) ++ o
joined s p o (some d) = ((s ++ p) ++ o) ++ d

module _ {C : Type 0} (sha : Sha1 C) (g : Option TripleGlobals) where
  digest_joined :
      (s p o : Text) (d : Option Text)
      → triple_digest sha s p o d ≡ sha.final (sha.update sha.init (joined s p o d))
  unfolding triple_digest
  digest_joined s p o none = ap sha.final (
      ap (λ c. sha.update c o) (sha.update-append sha.init s p)
      ∙ sha.update-append sha.init (s ++ p) o)
  digest_joined s p o (some d) = ap sha.final (
      ap (λ c. sha.update c d)
        (ap (λ c. sha.update c o) (sha.update-append sha.init s p)
          ∙ sha.update-append sha.init (s ++ p) o)
      ∙ sha.update-append sha.init ((s ++ p) ++ o) d)

  id_text-joined :
      (s p o : Text) (d : Option Text) (s' p' o' : Text) (d' : Option Text)
      → joined s p o d ≡ joined s' p' o' d'
      → id_text sha g (given s p o d) ≡ id_text sha g (given s' p' o' d')
  unfolding id_for triple_get_id
  id_text-joined s p o d s' p' o' d' same =
      ap (λ h. namespace_or none (triple_get_default_namespace g).1 ++ hex_bytes h)
        (digest_joined s p o d
          ∙ ap (λ t. sha.final (sha.update sha.init t)) same
          ∙ sym (digest_joined s' p' o' d'))

  new_triples_nil : (known : List Triple) → new_triples sha g known [] ≡ []
  unfolding new_triples
  new_triples_nil known = refl

  stored_after :
      (t : Triple) (known : List Triple)
      → is_stored (id_text sha g t) (known ++ new_triples sha g known (t ∷ [])) ≡ true
  stored_after t known =
      let u = record t { id = some (id_text sha g t) } in
      elim (Bool-cases (is_stored (id_text sha g t) known)) [
        | inl stored ↦
            rw (new_triples_known sha g known t [] stored, new_triples_nil known, append-nil known)
              stored
        | inr new ↦
            rw (new_triples_new sha g known t [] new, new_triples_nil (known ++ u ∷ []))
              (ground (
                arith,
                text_eq_iff (id_text sha g t) (id_text sha g t),
                total-append_one (with_id (id_text sha g t)) known u,
              ))
      ]

  module _ {M : Type 0} (ops : StringMap M) where
    add_one-stored :
        (t : Triple) (ts : TripleStore M)
        → IsValid ops ts
        → (ts' : TripleStore M) × (triplestore_add_triples ops sha g ts (t ∷ []) ≡ done (ts', 0))
          × IsValid ops ts'
          × (is_stored (id_text sha g t) ts'.triples ≡ true)
    add_one-stored t ts v =
        let u = record t { id = some (id_text sha g t) } in
        let (ts', added, valid, _, _, all) = triplestore_add_triples_lem sha g ops (t ∷ []) ts v in
        (ts', added, valid, rw all (stored_after t ts.triples))

    -- After a triple is added to a valid store, a triple whose texts, with the datatype where there
    -- is one, run together to the same text is taken for it: to add that one succeeds and leaves the
    -- triples as they are. The same holds of the very triple that was added.
    pub add-add_joined :
        (s p o : Text) (d : Option Text) (s' p' o' : Text) (d' : Option Text) (ts : TripleStore M)
        → IsValid ops ts
        → joined s p o d ≡ joined s' p' o' d'
        → (ts₁ : TripleStore M) × (ts₂ : TripleStore M) × (triplestore_add ops sha g ts s p o d
            ≡ done (ts₁, 0))
          × (triplestore_add ops sha g ts₁ s' p' o' d' ≡ done (ts₂, 0))
          × (ts₂.triples ≡ ts₁.triples)
    unfolding triplestore_add
    add-add_joined s p o d s' p' o' d' ts v same =
        let (ts₁, first, valid, stored) = add_one-stored (given s p o d) ts v in
        let (ts₂, second, _, _, _, all) =
          triplestore_add_triples_lem sha g ops (given s' p' o' d' ∷ []) ts₁ valid in
        let joined = id_text-joined s p o d s' p' o' d' same in
        let known : is_stored (id_text sha g (given s' p' o' d')) ts₁.triples ≡ true =
          ap (λ k. is_stored k ts₁.triples) (sym joined) ∙ stored in
        (
          ts₁,
          ts₂,
          first,
          second,
          all
              ∙ ap (◌++◌ ts₁.triples) (
                  new_triples_known sha g ts₁.triples (given s' p' o' d') [] known
                  ∙ new_triples_nil ts₁.triples)
              ∙ append-nil ts₁.triples,
        )

    add_loop_one :
        (t : Triple) (ts ts' : TripleStore M)
        → add_one ops sha g ts 0 t ≡ some ts'
        → add_loop ops sha g ts 0 (t ∷ []) ≡ (ts', 0)
    unfolding add_loop
    add_loop_one t ts ts' added = rw (added, add_loop)

    get_stored :
        (ts : TripleStore M) (k : Text) (n : ℕ) (t : Triple)
        → ops.get ts.index k ≡ some n
        → get_elem? ts.triples n ≡ some t
        → is_live t ≡ true
        → triplestore_get ops ts k ≡ done (some t)
    unfolding triplestore_get
    get_stored ts k n t at_k at_n live = rw (at_k, triplestore_get) (rw at_n (rw live))

    add_new :
        (t : Triple) (ts : TripleStore M)
        → IsValid ops ts
        → is_stored (id_text sha g t) ts.triples ≡ false
        → (size : ℕ) × (triplestore_add_triples ops sha g ts (t ∷ [])
            ≡ done (appended sha g ops (record ts { size = size }) 0 t, 0))
    unfolding triplestore_add_triples add_loop
    add_new t ts v new =
        let (size, space, enough, grown) = make_space_lem ops ts 1 v in
        let roomy : IsValid ops (record ts { size = size }) = record {
          live_length = v.live_length;
          settled = v.settled;
          capacity = omega (arith, v.capacity);
          indexed = v.indexed;
        } in
        let one = add_one_new sha g ops (record ts { size = size }) 0 t roomy new in
        (
          size,
          ap (λ m. m >>= λ (u : TripleStore M). done (add_loop ops sha g u 0 (t ∷ []))) space
              ∙ ap done (add_loop_one t (record ts { size = size }) _ one),
        )

    -- In a valid store whose first slot is live, a triple that is added under a new identifier
    -- cannot be read by that identifier: `triplestore_get` returns the triple of the first slot.
    pub get-add_first :
        (t first : Triple) (ts : TripleStore M)
        → IsValid ops ts
        → get_elem? ts.triples 0 ≡ some first
        → is_live first ≡ true
        → is_stored (id_text sha g t) ts.triples ≡ false
        → (ts' : TripleStore M) × (triplestore_add_triples ops sha g ts (t ∷ []) ≡ done (ts', 0))
          × (triplestore_get ops ts' (id_text sha g t) ≡ done (some first))
    get-add_first t first ts v at_0 live new =
        let (size, added) = add_new t ts v new in
        let k = id_text sha g t in
        let found : ops.get (ops.set ts.index k 0) k ≡ some 0 =
          ops.get-set ts.index k k 0 ∙ rw ((text_eq_iff k k).1 refl) in
        let slot = get_elem?-append_left ts.triples _ 0 first at_0 in
        (
          appended sha g ops (record ts { size = size }) 0 t,
          added,
          get_stored (appended sha g ops (record ts { size = size }) 0 t) k 0 first found slot live,
        )
