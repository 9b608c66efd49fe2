-- ===== src/InstanceStore/Balance.antt =====
-- The references that the store of instances owns.
use dlite.Base.{
  ℕ, suc, ◌+◌, ◌-◌, ◌≤◌, ◌≡◌, refl, sym, ap, ◌∙◌, true, false, Option, none, some, Text, text_eq,
  text_eq_iff, leb, arith, done, ◌>>=◌, Option-cases, Bool-cases, inl, inr,
}
use dlite.StringMap.{StringMapOf}
use dlite.InstanceStore.Store.{
  Item, Stored, with_refs, dlite_instance_incref, dlite_instance_decref, counted, add,
  dlite_store_add, uncounted, released, dlite_store_pop, dlite_store_remove,
}

text_eq_same : (k : Text) → text_eq k k ≡ true
text_eq_same k = (text_eq_iff k k).1 refl

refs_one :
    (refs : Text → ℕ) (uuid : Text) → with_refs refs uuid (refs uuid + 1) uuid ≡ suc (refs uuid)
refs_one refs uuid = rw (text_eq_same uuid) (omega arith)

refs_back :
    (refs : Text → ℕ) (uuid k : Text)
    → with_refs (with_refs refs uuid (refs uuid + 1)) uuid (refs uuid) k ≡ refs k
refs_back refs uuid k = elim (Bool-cases (text_eq uuid k)) [
  | inl same ↦ rw same (ap refs ((text_eq_iff uuid k).0 same))
  | inr other ↦ rw other refl
]

module _ {M : Type 0} (ops : StringMapOf Item M) where
  -- Each item is stored under its UUID and has been added at least once.
  abbrev pub IsStored : Stored M → Type 0
  IsStored s =
      (k : Text) (item : Item) → ops.get s.map k ≡ some item → (item.inst ≡ k) × (1 ≤ item.refcount)

  -- Both have the same items and the same reference counts.
  abbrev pub Same : Stored M → Stored M → Type 0
  Same s s' = (k : Text) → (ops.get s.map k ≡ ops.get s'.map k) × (s.refs k ≡ s'.refs k)

  counted-new :
      (map : M) (uuid : Text)
      → ops.get map uuid ≡ none
      → counted ops map uuid ≡ ops.set map uuid (record { inst = uuid; refcount = 1 })
  unfolding counted
  counted-new map uuid h = rw (h, counted) refl

  counted-known :
      (map : M) (uuid : Text) (item : Item)
      → ops.get map uuid ≡ some item
      → counted ops map uuid ≡ ops.set map uuid (record item { refcount = item.refcount + 1 })
  unfolding counted
  counted-known map uuid item h = rw (h, counted) refl

  get-set_same :
      (map : M) (uuid : Text) (item : Item) → ops.get (ops.set map uuid item) uuid ≡ some item
  get-set_same map uuid item = rw (ops.get-set map uuid uuid item, text_eq_same uuid) refl

  decref-suc :
      (s : Stored M) (uuid : Text) (n : ℕ)
      → s.refs uuid ≡ suc n
      → dlite_instance_decref s uuid ≡ done (record s { refs = with_refs s.refs uuid n })
  unfolding dlite_instance_decref
  decref-suc s uuid n h = rw (h, dlite_instance_decref) refl

module _ {M : Type 0} (ops : StringMapOf Item M) (get_uuid : Text → Option Text) where
  pop-item :
      (s : Stored M) (id uuid : Text) (item : Item)
      → get_uuid id ≡ some uuid
      → ops.get s.map uuid ≡ some item
      → dlite_store_pop ops get_uuid s id ≡ (uncounted ops get_uuid s uuid item, some item.inst)
  unfolding dlite_store_pop
  pop-item s id uuid item h e = rw (h, dlite_store_pop) (rw (e, dlite_store_pop) refl)

  remove-pop :
      (s s' s'' : Stored M) (id inst : Text)
      → dlite_store_pop ops get_uuid s id ≡ (s', some inst)
      → dlite_instance_decref s' inst ≡ done s''
      → dlite_store_remove ops get_uuid s id ≡ done (s'', 0)
  unfolding dlite_store_remove released
  remove-pop s s' s'' id inst h e =
      ap (released ops get_uuid) h ∙ ap (λ o. o >>= λ t. done (t, 0)) e

  uncounted-last :
      (s : Stored M) (uuid : Text) (item : Item)
      → item.refcount ≡ 1
      → uncounted ops get_uuid s uuid item ≡ record s { map = ops.remove s.map uuid }
  unfolding uncounted
  uncounted-last s uuid item h =
      let last : leb (item.refcount - 1) 0 ≡ true = ground (arith, h) in rw (last, uncounted) refl

  uncounted-more :
      (s : Stored M) (uuid : Text) (item : Item)
      → 2 ≤ item.refcount
      → uncounted ops get_uuid s uuid item
        ≡ record s { map = ops.set s.map uuid (record item { refcount = item.refcount - 1 }) }
  unfolding uncounted
  uncounted-more s uuid item h =
      let more : leb (item.refcount - 1) 0 ≡ false = ground (arith, h) in rw (more, uncounted) refl

  -- The store after an addition and a removal.
  removed-Same :
      (s : Stored M) (uuid : Text) (map : M)
      → ((k : Text) → ops.get map k ≡ ops.get s.map k)
      → Same ops
          (record {
            map = map;
            refs = with_refs (with_refs s.refs uuid (s.refs uuid + 1)) uuid (s.refs uuid);
          })
          s
  removed-Same s uuid map h k = (h k, refs_back s.refs uuid k)

  get-remove-set :
      (map : M) (uuid k : Text) (item : Item)
      → ops.get map uuid ≡ none
      → ops.get (ops.remove (ops.set map uuid item) uuid) k ≡ ops.get map k
  get-remove-set map uuid k item absent =
      rw (ops.get-remove (ops.set map uuid item) uuid k, ops.get-set map uuid k item)
        (elim (Bool-cases (text_eq uuid k)) [
          | inl same ↦ rw same (sym (ap (ops.get map) (sym ((text_eq_iff uuid k).0 same)) ∙ absent))
          | inr other ↦ rw other refl
        ])

  get-set-set :
      (map : M) (uuid k : Text) (item item' : Item)
      → ops.get map uuid ≡ some item
      → ops.get (ops.set (ops.set map uuid item') uuid item) k ≡ ops.get map k
  get-set-set map uuid k item item' known =
      rw (ops.get-set (ops.set map uuid item') uuid k item, ops.get-set map uuid k item')
        (elim (Bool-cases (text_eq uuid k)) [
          | inl same ↦ rw same (sym (ap (ops.get map) (sym ((text_eq_iff uuid k).0 same)) ∙ known))
          | inr other ↦ rw other refl
        ])

  -- An addition to a valid store is undone by a removal under an id of the instance: the removal
  -- succeeds, and the items of the store and all reference counts are what they were.
  pub dlite_store_remove-dlite_store_add :
      (s : Stored M) (id uuid : Text)
      → IsStored ops s
      → get_uuid id ≡ some uuid
      → (s' : Stored M) × ((dlite_store_remove ops get_uuid (dlite_store_add ops s uuid) id
            ≡ done (s', 0))
          × Same ops s' s)
  unfolding dlite_store_add add dlite_instance_incref
  dlite_store_remove-dlite_store_add s id uuid valid h = elim (Option-cases (ops.get s.map uuid)) [
    | inl absent ↦
        let s₁ = dlite_store_add ops s uuid in
        let item : Item = record { inst = uuid; refcount = 1 } in
        let map_is = counted-new ops s.map uuid absent in
        let s₂ : Stored M = record s₁ { map = ops.remove s₁.map uuid } in
        (
          record s₂ { refs = with_refs s₂.refs uuid (s.refs uuid) },
          (
            remove-pop s₁ s₂ _ id uuid
                (pop-item s₁ id uuid item h
                    (ap (λ m. ops.get m uuid) map_is ∙ get-set_same ops s.map uuid item)
                  ∙ ap (λ t. (t, some uuid)) (uncounted-last s₁ uuid item refl))
                (decref-suc ops s₂ uuid (s.refs uuid) (refs_one s.refs uuid)),
            removed-Same s uuid (ops.remove s₁.map uuid) (λ k.
                ap (λ m. ops.get (ops.remove m uuid) k) map_is
                ∙ get-remove-set s.map uuid k item absent),
          ),
        )
    | inr (item, known) ↦
        let s₁ = dlite_store_add ops s uuid in
        let more : Item = record item { refcount = item.refcount + 1 } in
        let less : Item = record item { refcount = item.refcount + 1 - 1 } in
        let map_is = counted-known ops s.map uuid item known in
        let s₂ : Stored M = record s₁ { map = ops.set s₁.map uuid less } in
        let same : item.inst ≡ uuid = (valid uuid item known).0 in
        let count : item.refcount + 1 - 1 ≡ item.refcount = omega arith in
        (
          record s₂ { refs = with_refs s₂.refs uuid (s.refs uuid) },
          (
            remove-pop s₁ s₂ _ id uuid
                (pop-item s₁ id uuid more h
                    (ap (λ m. ops.get m uuid) map_is ∙ get-set_same ops s.map uuid more)
                  ∙ ap (λ t. (t, some item.inst))
                      (uncounted-more s₁ uuid more (omega (arith, (valid uuid item known).1)))
                  ∙ ap (λ i. (s₂, some i)) same)
                (decref-suc ops s₂ uuid (s.refs uuid) (refs_one s.refs uuid)),
            removed-Same s uuid (ops.set s₁.map uuid less) (λ k.
                ap (λ m. ops.get (ops.set m uuid less) k) map_is
                ∙ ap
                    (λ n.
                      ops.get
                        (ops.set (ops.set s.map uuid more) uuid (record item { refcount = n })) k)
                    count
                ∙ get-set-set s.map uuid k item more known),
          ),
        )
  ]
