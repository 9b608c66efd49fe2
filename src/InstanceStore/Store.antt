-- ===== src/InstanceStore/Store.antt =====
-- The operations of src/dlite-store.c on single instances. An instance is known by its UUID; its
-- reference count is kept outside the store.
use dlite.Base.{
  ℕ, zero, suc, ◌+◌, ◌-◌, Bool, true, false, Option, none, some, Text, text_eq, leb, if◌then◌else◌,
  Outcome, done, fault, ◌>>=◌,
}
use dlite.StringMap.{StringMapOf}

-- The instance, and how often it has been added.
pub record Item : Type 0 where
  pub inst : Text
  pub refcount : ℕ

-- The map of the store, and the reference counts of all instances.
pub record Stored (M : Type 0) : Type 0 where
  pub map : M
  pub refs : Text → ℕ

-- The counts with another one for `uuid`.
abbrev pub with_refs : (Text → ℕ) → Text → ℕ → Text → ℕ
with_refs refs uuid n k = if text_eq uuid k then n else refs k

module _ {M : Type 0} where
  unfoldable pub dlite_instance_incref : Stored M → Text → Stored M
  dlite_instance_incref s uuid = record s { refs = with_refs s.refs uuid (s.refs uuid + 1) }

  -- An instance that is counted down to zero is freed.
  unfoldable pub dlite_instance_decref : Stored M → Text → Outcome (Stored M)
  dlite_instance_decref s uuid = elim (s.refs uuid) [
    | zero ↦ fault
    | suc count ↦ done (record s { refs = with_refs s.refs uuid count })
  ]

module _ {M : Type 0} (ops : StringMapOf Item M) where
  -- The map after an addition.
  unfoldable pub counted : M → Text → M
  counted map uuid = elim (ops.get map uuid) [
    | some item ↦ ops.set map uuid (record item { refcount = item.refcount + 1 })
    | none ↦ ops.set map uuid (record { inst = uuid; refcount = 1 })
  ]

  unfoldable pub add : Stored M → Text → Bool → Stored M
  unfolding counted dlite_instance_incref
  add s uuid steel = elim steel [
    | true ↦ record s { map = counted s.map uuid }
    | false ↦ dlite_instance_incref (record s { map = counted s.map uuid }) uuid
  ]

  unfoldable pub dlite_store_add : Stored M → Text → Stored M
  unfolding add
  dlite_store_add s uuid = add s uuid false

  unfoldable pub dlite_store_add_new : Stored M → Text → Stored M
  unfolding add
  dlite_store_add_new s uuid = add s uuid true

-- `get_uuid` is none for an id that is no UUID and cannot be converted to one.
module _ {M : Type 0} (ops : StringMapOf Item M) (get_uuid : Text → Option Text) where
  -- The store after a removal of one addition.
  unfoldable pub uncounted : Stored M → Text → Item → Stored M
  uncounted s uuid item = elim (leb (item.refcount - 1) 0) [
    | true ↦ record s { map = ops.remove s.map uuid }
    | false ↦ record s { map = ops.set s.map uuid (record item { refcount = item.refcount - 1 }) }
  ]

  -- The store, and the instance or none for NULL.
  unfoldable pub dlite_store_pop : Stored M → Text → Stored M × Option Text
  unfolding uncounted
  dlite_store_pop s id = elim (get_uuid id) [
    | none ↦ (s, none)
    | some uuid ↦ elim (ops.get s.map uuid) [
      | none ↦ (s, none)
      | some item ↦ (uncounted s uuid item, some item.inst)
    ]
  ]

  unfoldable pub dlite_store_pop_all : Stored M → Text → Stored M × Option Text
  dlite_store_pop_all s id = elim (get_uuid id) [
    | none ↦ (s, none)
    | some uuid ↦ elim (ops.get s.map uuid) [
      | none ↦ (s, none)
      | some item ↦ (record s { map = ops.remove s.map uuid }, some item.inst)
    ]
  ]

  -- What `dlite_store_remove` does with the result of `dlite_store_pop`.
  unfoldable pub released : Stored M × Option Text → Outcome (Stored M × ℕ)
  unfolding dlite_instance_decref
  released (s, none) = done (s, 1)
  released (s, some inst) = dlite_instance_decref s inst >>= λ s'. done (s', 0)

  -- The store, and non-zero on an error.
  unfoldable pub dlite_store_remove : Stored M → Text → Outcome (Stored M × ℕ)
  unfolding dlite_store_pop released
  dlite_store_remove s id = released (dlite_store_pop s id)

  unfoldable pub dlite_store_get : Stored M → Text → Option Text
  dlite_store_get s id = elim (get_uuid id) [
    | none ↦ none
    | some uuid ↦ elim (ops.get s.map uuid) [ none ↦ none | some item ↦ some item.inst ]
  ]
