-- ===== src/Collection/Relations.antt =====
-- src/dlite-collection.c: the relations of a collection, and the labels of its instances. What the
-- functions do with the instances themselves is not modelled here.
use dlite.Base.{
  ℕ, zero, suc, ◌+◌, Bool, true, false, Option, none, some, Text, codes, Outcome, done, ◌>>=◌, ◌==◌,
  if◌then◌else◌, length,
}
use dlite.StringMap.{StringMap}
use dlite.Triple.{Triple, TripleGlobals, Sha1}
use dlite.Triplestore.Store.{
  TripleStore, Criteria, triplestore_find_first, triplestore_length, triplestore_init_state,
  triplestore_find,
}
use dlite.Triplestore.Update.{triplestore_add, triplestore_remove, triplestore_deinit_state}
use dlite.Triplestore.Value.{triplestore_value}

-- The triple store, the dimension `nrelations` and the dimension of the property `relations`.
pub record DLiteCollection (M : Type 0) : Type 0 where
  pub rstore : TripleStore M
  pub nrelations : ℕ
  pub prop_dim : ℕ

abbrev pub is_a_instance : Text → Criteria
is_a_instance label = record {
  s = some label;
  p = some (codes "_is-a");
  o = some (codes "Instance");
  d = none;
}

abbrev pub has_uuid : Text → Criteria
has_uuid label = record { s = some label; p = some (codes "_has-uuid"); o = none; d = none }

-- `*_count` asks for instances whatever their label.
abbrev pub instances : Criteria
instances = record { s = none; p = some (codes "_is-a"); o = some (codes "Instance"); d = none }

module _ {M C : Type 0} (ops : StringMap M) (sha : Sha1 C) (g : Option TripleGlobals) where
  -- The collection, and non-zero on an error.
  unfoldable pub dlite_collection_add_relation :
      DLiteCollection M → Text → Text → Text → Option Text → Outcome (DLiteCollection M × ℕ)
  unfolding triplestore_add
  dlite_collection_add_relation coll s p o d = do
    r ← triplestore_add ops sha g coll.rstore s p o d
    done (
      record coll { rstore = r.0; prop_dim = if r.1 == 0 then coll.nrelations else coll.prop_dim },
      r.1,
    )

  abbrev pub add_instance : DLiteCollection M → Text → Text → Text → Outcome (DLiteCollection M × ℕ)
  add_instance coll label uuid uri = do
    r₁ ← dlite_collection_add_relation coll label (codes "_is-a") (codes "Instance") none
    r₂ ←
        dlite_collection_add_relation r₁.0 label (codes "_has-uuid") uuid
          (some (codes "xsd:anyURI"))
    r₃ ← dlite_collection_add_relation r₂.0 label (codes "_has-meta") uri none
    done (r₃.0, 0)

  -- The instance is given by its uuid and the uri of its metadata.
  unfoldable pub dlite_collection_add_new :
      DLiteCollection M → Text → Text → Text → Outcome (DLiteCollection M × ℕ)
  unfolding dlite_collection_add_relation triplestore_find_first
  dlite_collection_add_new coll label uuid uri =
      elim (triplestore_find_first ops coll.rstore (is_a_instance label)) [
        | some _ ↦ done (coll, 1)
        | none ↦ add_instance coll label uuid uri
      ]

module _ {M : Type 0} (ops : StringMap M) where
  -- The collection, and the number of relations removed.
  unfoldable pub dlite_collection_remove_relations :
      DLiteCollection M → Criteria → Outcome (DLiteCollection M × ℕ)
  unfolding triplestore_remove
  dlite_collection_remove_relations coll c = do
    r ← triplestore_remove ops coll.rstore c
    done (record coll { rstore = r.0; prop_dim = coll.nrelations }, r.1)

  unfoldable pub dlite_collection_find_first : DLiteCollection M → Criteria → Option Triple
  unfolding triplestore_find_first
  dlite_collection_find_first coll c = triplestore_find_first ops coll.rstore c

  unfoldable pub dlite_collection_has : DLiteCollection M → Text → Bool
  unfolding dlite_collection_find_first
  dlite_collection_has coll label = elim (dlite_collection_find_first coll (has_uuid label)) [
    | none ↦ false
    | some _ ↦ true
  ]

  -- `dlite_collection_getdim`: none for -1.
  unfoldable pub dlite_collection_getdim : DLiteCollection M → ℕ → Option ℕ
  unfolding triplestore_length
  dlite_collection_getdim coll i =
      if i == 0 then some (triplestore_length ops coll.rstore) else none

  -- The loop of `dlite_collection_count` on fuel, from a position on.
  unfoldable pub count_loop : ℕ → TripleStore M → ℕ → ℕ
  unfolding triplestore_find
  count_loop zero ts pos = 0
  count_loop (suc fuel) ts pos = elim (triplestore_find ops ts pos instances).0 [
    | none ↦ 0
    | some _ ↦ count_loop fuel ts (triplestore_find ops ts pos instances).1 + 1
  ]

  -- The collection, none where its store was released, and the count; each round moves on by a
  -- slot, so that one round more than there are slots is enough.
  unfoldable pub dlite_collection_count : DLiteCollection M → Outcome (Option (TripleStore M) × ℕ)
  unfolding count_loop triplestore_init_state triplestore_deinit_state
  dlite_collection_count coll = do
    ts ← triplestore_deinit_state ops (triplestore_init_state ops coll.rstore).0
    done (
      ts,
      count_loop (suc (length coll.rstore.triples)) (triplestore_init_state ops coll.rstore).0 0,
    )

  unfoldable pub dlite_collection_value :
      DLiteCollection M
      → Criteria
      → Option Text
      → Bool
      → Outcome (Option (TripleStore M) × Option Text)
  unfolding triplestore_value
  dlite_collection_value coll c fallback any = triplestore_value ops coll.rstore c fallback any
