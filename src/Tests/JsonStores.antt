-- ===== src/Tests/JsonStores.antt =====
-- Examples of JSON stores.
use dlite.Base.{
  Returns, ◌≡◌, refl, List, [], ◌∷◌, ◌++◌, none, some, Text, text_eq, codes, done, ◌>>=◌,
}
use dlite.JsonStore.{
  JStore, jstore_open, jstore_addn, jstore_get, jstore_count, jstore_get_single_key,
  jstore_set_label, jstore_set_labeln, jstore_get_label, jstore_to_string,
}
use dlite.JsonStore.Refinement.{Call, call_all, meant_all, call_all-meant_all}
use dlite.Tests.Instances.{EntriesOf, map_of_entries, keys_of_entries}

abbrev of_pi : JStore (EntriesOf Text)
of_pi = record { store = (codes "pi", codes "3.14") ∷ []; labels = [] }

abbrev calls : List (Call map_of_entries)
calls =
    Call.add (codes "pi") (codes "3")
    ∷ Call.add (codes "no") (codes "null")
    ∷ Call.update of_pi
    ∷ Call.remove (codes "no")
    ∷ []

printed :
    (call_all map_of_entries keys_of_entries calls (jstore_open map_of_entries) >>= λ js.
    done (jstore_to_string map_of_entries keys_of_entries js))
    ≡ done (some (codes "{" ++ (10 ∷ codes "  \"pi\": 3.14" ++ 10 ∷ codes "}" ++ 10 ∷ [])))
unfolding call_all jstore_open jstore_to_string text_eq
printed = refl

single : jstore_get_single_key map_of_entries keys_of_entries of_pi ≡ some (codes "pi")
unfolding jstore_get_single_key
single = refl

counted : jstore_count map_of_entries keys_of_entries of_pi ≡ 1
unfolding jstore_count text_eq
counted = refl

labelled :
    jstore_get_label map_of_entries
      (jstore_set_labeln map_of_entries
        (jstore_set_label map_of_entries of_pi (codes "pi") (codes "old"))
        (codes "pi")
        (codes "newer")
        (some 3))
      (codes "pi")
    ≡ some (codes "new")
unfolding jstore_get_label jstore_set_label text_eq
labelled = refl

-- A value of length 0 is taken for one that ends at the NUL.
takes_the_rest :
    jstore_get map_of_entries
      (jstore_addn map_of_entries of_pi (codes "e") 1 (codes "\", \"f\": 1}") 0)
      (codes "e")
    ≡ some (codes "\", \"f\": 1}")
unfolding jstore_get jstore_addn text_eq
takes_the_rest = refl

call_all-meant_all_example :
    Returns (call_all map_of_entries keys_of_entries calls (jstore_open map_of_entries)) (λ t.
      (k : Text) → jstore_get map_of_entries t k ≡ meant_all map_of_entries calls (λ _. none) k)
call_all-meant_all_example = call_all-meant_all map_of_entries keys_of_entries calls
