-- ===== src/Tests/StoredInstances.antt =====
-- Runs of the store of instances of src/dlite-store.c, and its theorem at a concrete store.
use dlite.Base.{◌≡◌, refl, [], Option, none, some, Text, codes, arith, done, text_eq}
use dlite.InstanceStore.Store.{
  Item, Stored, dlite_store_add, dlite_store_pop_all, dlite_store_remove, dlite_store_get,
}
use dlite.InstanceStore.Balance.{Same, IsStored, dlite_store_remove-dlite_store_add}
use dlite.Tests.Instances.{EntriesOf, map_of_entries}

-- Every id is a UUID.
abbrev as_uuid : Text → Option Text
as_uuid id = some id

abbrev nothing_stored : Stored (EntriesOf Item)
nothing_stored = record { map = []; refs = λ k. 1 }

abbrev twice : Stored (EntriesOf Item)
twice =
    dlite_store_add map_of_entries (dlite_store_add map_of_entries nothing_stored (codes "a"))
      (codes "a")

two_references : (twice).refs (codes "a") ≡ 3
unfolding dlite_store_add text_eq
two_references = refl

found : dlite_store_get map_of_entries as_uuid twice (codes "a") ≡ some (codes "a")
unfolding dlite_store_get dlite_store_add text_eq
found = refl

-- The two references that the store owned are left.
all_popped : (dlite_store_pop_all map_of_entries as_uuid twice (codes "a")).0.refs (codes "a") ≡ 3
unfolding dlite_store_pop_all dlite_store_add text_eq
all_popped = refl

all_gone :
    dlite_store_get map_of_entries as_uuid
      (dlite_store_pop_all map_of_entries as_uuid twice (codes "a")).0
      (codes "a")
    ≡ none
unfolding dlite_store_get dlite_store_pop_all dlite_store_add text_eq
all_gone = refl

nothing_stored-IsStored : IsStored map_of_entries nothing_stored
nothing_stored-IsStored k item h = ground (arith, h)

dlite_store_remove-dlite_store_add_example :
    (s' : Stored (EntriesOf Item)) × ((dlite_store_remove map_of_entries as_uuid
          (dlite_store_add map_of_entries nothing_stored (codes "a"))
          (codes "a")
        ≡ done (s', 0))
      × Same map_of_entries s' nothing_stored)
dlite_store_remove-dlite_store_add_example =
    dlite_store_remove-dlite_store_add map_of_entries as_uuid nothing_stored (codes "a") (codes "a")
      nothing_stored-IsStored refl
