-- ===== src/JsonStore/Refinement.antt =====
-- The JSON store of src/utils/jstore.c as a function from keys to values.
use dlite.Base.{
  Returns, Returns-done, Returns-map, Returns-bind, ◌+◌, ◌≡◌, ◌≤◌, refl, ◌∙◌, sym, ap, inl, inr,
  Bool, true, false, List, [], ◌∷◌, Option, none, some, Option-cases, Bool-cases, Text, text_eq,
  text_eq_iff, Outcome, done, ◌>>=◌, total, of_bool, arith, ltb, if◌then◌else◌,
}
use dlite.StringMap.{StringMapOf, KeysOf}
use dlite.JsonStore.{
  JStore, jstore_open, jstore_add, jstore_get, jstore_remove, update_loop, jstore_update,
  jstore_iter_init,
}

-- The calls that change the values, and their meaning for a function from keys to values.
module _ {M : Type 0} (ops : StringMapOf Text M) where
  pub data Call : Type 0 where
    add : Text → Text → Call
    remove : Text → Call
    update : JStore M → Call

  unfoldable pub meant : Call → (Text → Option Text) → Text → Option Text
  unfolding jstore_get
  meant (Call.add key value) d k = if text_eq key k then some value else d k
  meant (Call.remove key) d k = if text_eq key k then none else d k
  meant (Call.update other) d k = elim (jstore_get ops other k) [ some v ↦ some v | none ↦ d k ]

  unfoldable pub meant_all : List Call → (Text → Option Text) → Text → Option Text
  unfolding meant
  meant_all [] d = d
  meant_all (c ∷ cs) d = meant_all cs (meant c d)

  module _ (iter : KeysOf Text M ops) where
    unfoldable pub call : Call → JStore M → Outcome (JStore M)
    unfolding jstore_add jstore_remove jstore_update
    call (Call.add key value) js = done (jstore_add ops js key value)
    call (Call.remove key) js = done ((jstore_remove ops js key).0)
    call (Call.update other) js = jstore_update ops iter js other

    unfoldable pub call_all : List Call → JStore M → Outcome (JStore M)
    unfolding call
    call_all [] js = done js
    call_all (c ∷ cs) js = call c js >>= call_all cs

    -- The store has the values of the function.
    abbrev pub Has : JStore M → (Text → Option Text) → Type 0
    Has js d = (k : Text) → jstore_get ops js k ≡ d k

    jstore_get-jstore_add :
        (js : JStore M) (key value k : Text)
        → jstore_get ops (jstore_add ops js key value) k
          ≡ (if text_eq key k then some value else jstore_get ops js k)
    unfolding jstore_get jstore_add
    jstore_get-jstore_add js key value k = ops.get-set js.store key k value

    jstore_get-jstore_remove :
        (js : JStore M) (key k : Text)
        → jstore_get ops ((jstore_remove ops js key).0) k
          ≡ (if text_eq key k then none else jstore_get ops js k)
    unfolding jstore_get jstore_remove
    jstore_get-jstore_remove js key k = elim (Option-cases (ops.get js.store key)) [
      | inr (v, e) ↦ rw (e, jstore_remove) (ops.get-remove js.store key k)
      | inl new ↦
          rw (new, jstore_remove)
            (elim (Bool-cases (text_eq key k)) [
              | inl same ↦ rw same (ap (ops.get js.store) (sym ((text_eq_iff key k).0 same)) ∙ new)
              | inr other ↦ rw other refl
            ])
    ]

    -- Every key that an iterator has left is in the store.
    abbrev Live : List Text → M → Type 0
    Live keys m =
        (k : Text)
        → total (λ j. of_bool (text_eq k j)) keys ≤ total (λ j. of_bool (text_eq k j)) (iter.keys m)

    value_of_first :
        (key : Text) (keys : List Text) (m : M)
        → Live (key ∷ keys) m
        → (v : Text) × (ops.get m key ≡ some v)
    unfolding total
    value_of_first key keys m live = elim (Option-cases (ops.get m key)) [
      | inr found ↦ found
      | inl new ↦ absurd (
          let counted = rw new at (iter.count-keys m key) in
          let self = (text_eq_iff key key).1 refl in
          let most = rw self at (live key) in omega (arith, counted, most))
    ]

    tail_is_stored : (key : Text) (keys : List Text) (m : M) → Live (key ∷ keys) m → Live keys m
    unfolding total
    tail_is_stored key keys m live k = omega (arith, live k)

    -- What the loop makes of the values of `js`.
    abbrev Updated : JStore M → JStore M → List Text → JStore M → Type 0
    Updated js other keys t =
        (k : Text)
        → jstore_get ops t k ≡ (
            if ltb 0 (total (λ j. of_bool (text_eq k j)) keys)
            then jstore_get ops other k
            else jstore_get ops js k)

    either : (b : Bool) (o : Option Text) → (if b then o else o) ≡ o
    either true o = refl
    either false o = refl

    differ : (a b : Text) → text_eq a b ≡ false → text_eq b a ≡ false
    differ a b h = ground (arith, text_eq_iff a b, text_eq_iff b a)

    chosen :
        (key : Text) (keys : List Text) (js other : JStore M) (v k : Text)
        → jstore_get ops other key ≡ some v
        → (if ltb 0 (total (λ j. of_bool (text_eq k j)) keys)
            then jstore_get ops other k
            else jstore_get ops (jstore_add ops js key v) k)
          ≡ (if ltb 0 (total (λ j. of_bool (text_eq k j)) (key ∷ keys))
              then jstore_get ops other k
              else jstore_get ops js k)
    unfolding total
    chosen key keys js other v k got = elim (Bool-cases (text_eq key k)) [
      | inl same ↦
          let at = (text_eq_iff key k).0 same in
          let here : text_eq k key ≡ true = (text_eq_iff k key).1 (sym at) in
          let value : jstore_get ops other k ≡ some v = ap (jstore_get ops other) (sym at) ∙ got in
          let more : ltb 0 (1 + total (λ j. of_bool (text_eq k j)) keys) ≡ true = ground arith in
          rw (jstore_get-jstore_add js key v k, same, here, more, value) (either _ _)
      | inr different ↦
          let away = differ key k different in
          let same : 0 + total (λ j. of_bool (text_eq k j)) keys
              ≡ total (λ j. of_bool (text_eq k j)) keys =
            omega arith in
          rw (jstore_get-jstore_add js key v k, different, away, same) refl
    ]

    update_loop-Updated :
        (keys : List Text) (js other : JStore M)
        → Live keys other.store
        → Returns (update_loop ops iter keys js other) (Updated js other keys)
    unfolding total update_loop
    update_loop-Updated [] js other live = Returns-done _ _ λ k. refl
    update_loop-Updated (key ∷ keys) js other live =
        let (v, e) = value_of_first key keys other.store live in
        let got : jstore_get ops other key ≡ some v = unfold jstore_get in e in
        rw (got, update_loop)
          (Returns-map _ _ _
            (update_loop-Updated keys (jstore_add ops js key v) other
              (tail_is_stored key keys other.store live))
            λ t h k. h k ∙ chosen key keys js other v k got)

    opened : (k : Text) → jstore_get ops (jstore_open ops) k ≡ none
    unfolding jstore_get jstore_open
    opened k = ops.get-empty k

    read_over :
        (other js : JStore M) (d : Text → Option Text) (k : Text)
        → jstore_get ops js k ≡ d k
        → (if ltb 0 (total (λ j. of_bool (text_eq k j)) (iter.keys other.store))
            then jstore_get ops other k
            else jstore_get ops js k)
          ≡ elim (jstore_get ops other k) as (λ _. Option Text) [ some v ↦ some v | none ↦ d k ]
    unfolding jstore_get
    read_over other js d k h = elim (Option-cases (ops.get other.store k)) [
      | inl new ↦ let counted = rw new at (iter.count-keys other.store k) in rw (counted, new) h
      | inr (v, e) ↦ let counted = rw e at (iter.count-keys other.store k) in rw (counted, e) refl
    ]

    jstore_update-Has :
        (js other : JStore M) (d : Text → Option Text)
        → Has js d
        → Returns (jstore_update ops iter js other) (λ t. Has t (meant (Call.update other) d))
    unfolding jstore_update meant jstore_iter_init
    jstore_update-Has js other d h =
        Returns-map _ _ _ (update_loop-Updated (iter.keys other.store) js other λ k. omega arith)
          λ t updated k. updated k ∙ read_over other js d k (h k)

    call-Has :
        (c : Call) (js : JStore M) (d : Text → Option Text)
        → Has js d
        → Returns (call c js) (λ t. Has t (meant c d))
    unfolding call meant
    call-Has (Call.add key value) js d h = Returns-done _ _ λ k.
        jstore_get-jstore_add js key value k
        ∙ ap (λ o. if text_eq key k then some value else o) (h k)
    call-Has (Call.remove key) js d h =
        Returns-done _ _
          λ k. jstore_get-jstore_remove js key k ∙ ap (λ o. if text_eq key k then none else o) (h k)
    call-Has (Call.update other) js d h = jstore_update-Has js other d h

    call_all-Has :
        (cs : List Call) (js : JStore M) (d : Text → Option Text)
        → Has js d
        → Returns (call_all cs js) (λ t. Has t (meant_all cs d))
    unfolding call_all meant_all
    call_all-Has [] js d h = Returns-done _ _ h
    call_all-Has (c ∷ cs) js d h =
        Returns-bind _ _ _ _ (call-Has c js d h) λ t g. call_all-Has cs t (meant c d) g

    -- Whatever values are added to and removed from a new store, and whatever stores it is updated
    -- from, no assert fails and the store has the values of the function from keys to values that
    -- the calls mean, in their order.
    pub call_all-meant_all :
        (cs : List Call)
        → Returns
            (call_all cs (jstore_open ops))
            (λ t. (k : Text) → jstore_get ops t k ≡ meant_all cs (λ _. none) k)
    call_all-meant_all cs = call_all-Has cs (jstore_open ops) (λ _. none) opened
