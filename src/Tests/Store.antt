-- ===== src/Tests/Store.antt =====
-- Runs of the triple store, and the theorems on it at a store with two triples.
use mathlib.Core.List.{head?}
use mathlib.Core.List.Perm
use dlite.Base.{
  ℕ, ◌≡◌, ◌≢◌, refl, true, false, List, [], ◌∷◌, ◌++◌, Option, none, some, Text, codes, arith, done,
  Perm, length, drop, select, total, text_eq, text_eq_iff, ◌≤◌, suc,
}
use dlite.Triple.{Triple, TripleGlobals}
use dlite.Triplestore.Store.{
  TripleStore, is_live, Criteria, is_match, is_found, triplestore_create, triplestore_init_state,
  triplestore_find_first, triplestore_get,
}
use dlite.Triplestore.Update.{
  id_for, triplestore_add, triplestore_add_triples, triplestore_remove, triplestore_deinit_state,
  triplestore_free,
}
use dlite.Triplestore.Value.{given, triplestore_value, promised, triplestore_value_lem}
use dlite.Triplestore.Invariant.{IsValid}
use dlite.Triplestore.Remove.{goes, stays, triplestore_remove_lem}
use dlite.Triplestore.Release.{
  emptied, deinit_times, init_state-IsValid, triplestore_deinit_state_lem, triplestore_free_lem,
}
use dlite.Triplestore.Add.{id_text, new_triples, triplestore_add_triples_lem}
use dlite.Triplestore.Search.{hits, find_all, find_all-hits, triplestore_find_first_lem}
use dlite.Triplestore.Refinement.{Call, Holds, run, apply_all, run-Holds}
use dlite.Triplestore.Defects.{add-add_joined, get-add_first}
use dlite.Tests.Instances.{Entries, entries_map, plain_sha1}

abbrev no_globals : Option TripleGlobals
no_globals = none

abbrev named : Text → Text → Text → Text → Triple
named s p o id = record { s = s; p = p; o = o; d = none; id = some id }

abbrev bee : Triple
bee = named (codes "bee") (codes "is-a") (codes "insect") (codes "1")

abbrev ant : Triple
ant = named (codes "ant") (codes "is-a") (codes "insect") (codes "2")

abbrev insects : Criteria
insects = record { s = none; p = some (codes "is-a"); o = some (codes "insect"); d = none }

abbrev empty_store : TripleStore Entries
empty_store = emptied entries_map 0 false

abbrev two : TripleStore Entries
two = record empty_store {
  triples = bee ∷ ant ∷ [];
  length = 2;
  size = 1024;
  index = (codes "2", 1) ∷ (codes "1", 0) ∷ [];
}

two_added :
    triplestore_add_triples entries_map plain_sha1 no_globals empty_store (bee ∷ ant ∷ bee ∷ [])
    ≡ done (two, 0)
unfolding triplestore_add_triples triplestore_create text_eq
two_added = refl

two_removed :
    triplestore_remove entries_map two insects ≡ done (record empty_store { size = 1024 }, 2)
unfolding triplestore_remove triplestore_create text_eq
two_removed = refl

two-IsValid : IsValid entries_map two
unfolding total triplestore_create
two-IsValid = record {
  live_length = refl;
  settled = λ _. refl;
  capacity = omega arith;
  indexed = λ k. ground (arith, text_eq_iff (codes "1") k, text_eq_iff (codes "2") k);
}

-- One iterator runs.
abbrev running : TripleStore Entries
running = (triplestore_init_state entries_map two).0

running-IsValid : IsValid entries_map running
running-IsValid = init_state-IsValid entries_map two two-IsValid

triplestore_remove_lem_example :
    (ts' : TripleStore Entries) × (triplestore_remove entries_map two insects
      ≡ done (ts', length (select (goes insects) two.triples)))
    × IsValid entries_map ts'
    × (ts'.niter ≡ two.niter)
    × (ts'.freed ≡ two.freed)
    × Perm (select is_live ts'.triples) (select (stays insects) two.triples)
triplestore_remove_lem_example = triplestore_remove_lem entries_map insects two two-IsValid

triplestore_add_triples_lem_example :
    (ts' : TripleStore Entries) × (triplestore_add_triples entries_map plain_sha1 no_globals two
        (bee ∷ [])
      ≡ done (ts', 0))
    × IsValid entries_map ts'
    × (ts'.niter ≡ two.niter)
    × (ts'.freed ≡ two.freed)
    × (ts'.triples ≡ two.triples ++ new_triples plain_sha1 no_globals two.triples (bee ∷ []))
triplestore_add_triples_lem_example =
    triplestore_add_triples_lem plain_sha1 no_globals entries_map (bee ∷ []) two two-IsValid

triplestore_deinit_state_lem_example :
    (ts' : TripleStore Entries) × (triplestore_deinit_state entries_map running ≡ done (some ts'))
    × IsValid entries_map ts'
    × (suc ts'.niter ≡ running.niter)
    × (ts'.freed ≡ false)
    × Perm (select is_live ts'.triples) (select is_live running.triples)
unfolding triplestore_init_state
triplestore_deinit_state_lem_example =
    triplestore_deinit_state_lem entries_map running running-IsValid (omega arith) refl

triplestore_free_lem_example :
    (running.niter ≡ 0 → triplestore_free entries_map running ≡ done none)
    × ((n : ℕ)
        → running.niter ≡ suc n
        → (ts' : TripleStore Entries) × (triplestore_free entries_map running ≡ done (some ts'))
          × ((k : ℕ)
              → k ≤ n
              → (u : TripleStore Entries) × (deinit_times entries_map k ts' ≡ done (some u)))
          × (deinit_times entries_map (suc n) ts' ≡ done none))
unfolding triplestore_init_state
triplestore_free_lem_example = triplestore_free_lem entries_map running running-IsValid refl

find_all-hits_example :
    find_all entries_map two insects 3 0 ≡ hits (is_found insects) (drop 0 two.triples)
find_all-hits_example = find_all-hits entries_map two insects 3 0 (omega arith)

triplestore_find_first_lem_example :
    triplestore_find_first entries_map two insects ≡ head? (hits (is_match insects) two.triples)
triplestore_find_first_lem_example = triplestore_find_first_lem entries_map two insects

triplestore_value_lem_example :
    (2 ≢ given insects
      → triplestore_value entries_map two insects none true ≡ done (some two, none))
    × (insects.s ≡ none
        → 2 ≡ given insects
        → triplestore_value entries_map two insects none true
          ≡ done (
            some two,
            promised entries_map (λ t. t.s) none true (hits (is_found insects) two.triples),
          ))
    × (insects.p ≡ none
        → 2 ≡ given insects
        → triplestore_value entries_map two insects none true
          ≡ done (
            some two,
            promised entries_map (λ t. t.p) none true (hits (is_found insects) two.triples),
          ))
    × (insects.o ≡ none
        → 2 ≡ given insects
        → triplestore_value entries_map two insects none true
          ≡ done (
            some two,
            promised entries_map (λ t. t.o) none true (hits (is_found insects) two.triples),
          ))
triplestore_value_lem_example =
    triplestore_value_lem entries_map two insects none true two-IsValid refl

two-Holds : Holds plain_sha1 no_globals entries_map two 0 (bee ∷ ant ∷ [])
two-Holds = record { valid = two-IsValid; niter = refl; kept = refl; contents = Perm.refl _ }

-- An iterator runs while the insects are removed.
abbrev calls : List Call
calls = Call.init_state ∷ Call.remove insects ∷ Call.deinit_state ∷ Call.add_triples (ant ∷ []) ∷ []

run-Holds_example :
    (ts' : TripleStore Entries) × (n' : ℕ) × (run plain_sha1 no_globals entries_map two calls
      ≡ done (some ts'))
    × Holds plain_sha1 no_globals entries_map ts' n'
        (apply_all plain_sha1 no_globals (bee ∷ ant ∷ []) calls)
run-Holds_example =
    run-Holds plain_sha1 no_globals entries_map calls two 0 (bee ∷ ant ∷ []) (omega arith, tt)
      two-Holds

-- The second triple has its object as a datatype.
add-add_joined_example :
    (ts₁ : TripleStore Entries) × (ts₂ : TripleStore Entries) × (triplestore_add entries_map
        plain_sha1 no_globals two
        (codes "ab")
        (codes "c")
        (codes "d")
        none
      ≡ done (ts₁, 0))
    × (triplestore_add entries_map plain_sha1 no_globals ts₁
          (codes "a")
          (codes "bc")
          []
          (some (codes "d"))
        ≡ done (ts₂, 0))
    × (ts₂.triples ≡ ts₁.triples)
add-add_joined_example =
    add-add_joined plain_sha1 no_globals entries_map (codes "ab") (codes "c") (codes "d") none
      (codes "a") (codes "bc") [] (some (codes "d")) two two-IsValid refl

abbrev wasp : Triple
wasp = named (codes "wasp") (codes "is-a") (codes "insect") (codes "3")

get-add_first_example :
    (ts' : TripleStore Entries) × (triplestore_add_triples entries_map plain_sha1 no_globals two
        (wasp ∷ [])
      ≡ done (ts', 0))
    × (triplestore_get entries_map ts' (id_text plain_sha1 no_globals wasp) ≡ done (some bee))
unfolding total text_eq id_for
get-add_first_example =
    get-add_first plain_sha1 no_globals entries_map wasp bee two two-IsValid refl refl refl
