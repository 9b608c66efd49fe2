-- ===== src/Tests/Collections.antt =====
-- Runs on collections, and the theorems on them.
use dlite.Base.{
  ◌≡◌, refl, false, [], ◌∷◌, ◌++◌, none, some, codes, done, arith, total, text_eq, text_eq_iff,
}
use dlite.Triple.{Triple}
use dlite.Triplestore.Store.{triplestore_create, triplestore_find_first}
use dlite.Triplestore.Invariant.{IsValid}
use dlite.Triplestore.Release.{emptied}
use dlite.Triplestore.Add.{new_triples}
use dlite.Collection.Relations.{
  DLiteCollection, is_a_instance, dlite_collection_add_new, dlite_collection_has,
  dlite_collection_count,
}
use dlite.Collection.Labels.{labelled, dlite_collection_add_new_lem}
use dlite.Tests.Instances.{Entries, entries_map, plain_sha1}

abbrev empty_collection : DLiteCollection Entries
empty_collection = record { rstore = emptied entries_map 0 false; nrelations = 0; prop_dim = 0 }

empty-IsValid : IsValid entries_map empty_collection.rstore
unfolding total triplestore_create
empty-IsValid = record {
  live_length = refl;
  settled = λ _. refl;
  capacity = omega arith;
  indexed = λ k. refl;
}

nothing_labelled : dlite_collection_has entries_map empty_collection (codes "bee") ≡ false
unfolding dlite_collection_has triplestore_create
nothing_labelled = refl

dlite_collection_add_new_lem_example :
    ((t : Triple)
      → triplestore_find_first entries_map empty_collection.rstore (is_a_instance (codes "bee"))
        ≡ some t
      → dlite_collection_add_new entries_map plain_sha1 none empty_collection
          (codes "bee")
          (codes "1")
          (codes "u")
        ≡ done (empty_collection, 1))
    × (triplestore_find_first entries_map empty_collection.rstore (is_a_instance (codes "bee"))
          ≡ none
        → (coll' : DLiteCollection Entries) × (dlite_collection_add_new entries_map plain_sha1 none
              empty_collection
              (codes "bee")
              (codes "1")
              (codes "u")
            ≡ done (coll', 0))
          × IsValid entries_map coll'.rstore
          × (coll'.prop_dim ≡ empty_collection.nrelations)
          × (coll'.rstore.triples
              ≡ empty_collection.rstore.triples
                ++ new_triples plain_sha1 none empty_collection.rstore.triples
                    (labelled (codes "bee") (codes "1") (codes "u"))))
dlite_collection_add_new_lem_example =
    dlite_collection_add_new_lem plain_sha1 none entries_map empty_collection (codes "bee")
      (codes "1") (codes "u") empty-IsValid

-- A collection of one instance with its first relation.
abbrev one_labelled : DLiteCollection Entries
one_labelled = record empty_collection {
  rstore = record empty_collection.rstore {
    triples =
        record {
          s = codes "bee";
          p = codes "_is-a";
          o = codes "Instance";
          d = none;
          id = some (codes "1");
        }
        ∷ [];
    length = 1;
    size = 1024;
    index = (codes "1", 0) ∷ [];
  };
}

one-IsValid : IsValid entries_map one_labelled.rstore
unfolding total triplestore_create
one-IsValid = record {
  live_length = refl;
  settled = λ _. refl;
  capacity = omega arith;
  indexed = λ k. ground (arith, text_eq_iff (codes "1") k);
}

one_counted : dlite_collection_count entries_map one_labelled ≡ done (some one_labelled.rstore, 1)
unfolding dlite_collection_count triplestore_create text_eq
one_counted = refl
