-- ===== src/Tests/Instances.antt =====
-- Concrete values of the parameters: a map as an association list, and a digest that is the text.
use mathlib.Core.List.{append_assoc}
use dlite.Base.{
  ℕ, ◌≡◌, refl, List, [], ◌∷◌, ◌++◌, Option, none, some, Text, text_eq, text_eq_iff, arith, total,
  of_bool, if◌then◌else◌,
}
use dlite.StringMap.{StringMap, StringMapOf, KeysOf}
use dlite.Triple.{Sha1}

abbrev pub EntriesOf : Type 0 → Type 0
EntriesOf V = List (Text × V)

abbrev pub Entries : Type 0
Entries = EntriesOf ℕ

module _ {V : Type 0} where
  abbrev pub find : EntriesOf V → Text → Option V
  find [] k = none
  find ((j, v) ∷ m) k = if text_eq j k then some v else find m k

  abbrev pub forget : EntriesOf V → Text → EntriesOf V
  forget [] k = []
  forget ((j, v) ∷ m) k = if text_eq k j then forget m k else (j, v) ∷ forget m k

  pub find-forget :
      (m : EntriesOf V) (k j : Text)
      → find (forget m k) j ≡ (if text_eq k j then none else find m j)
  find-forget [] k j = ground arith
  find-forget ((i, v) ∷ m) k j =
      ground (arith, text_eq_iff k i, text_eq_iff k j, text_eq_iff i j, find-forget m k j)

  abbrev pub map_of_entries : StringMapOf V (EntriesOf V)
  map_of_entries = record {
    empty = [];
    get = find;
    set = λ m k v. (k, v) ∷ m;
    remove = forget;
    get-empty = λ k. refl;
    get-set = λ m k j v. refl;
    get-remove = find-forget;
  }

-- A list of keys without `k`.
abbrev pub without : Text → List Text → List Text
without k [] = []
without k (j ∷ ks) = if text_eq k j then without k ks else j ∷ without k ks

count-without :
    (i k : Text) (ks : List Text)
    → total (λ j. of_bool (text_eq k j)) (without i ks)
      ≡ (if text_eq k i then 0 else total (λ j. of_bool (text_eq k j)) ks)
unfolding total
count-without i k [] = ground arith
count-without i k (j ∷ ks) =
    ground (arith, text_eq_iff k i, text_eq_iff k j, text_eq_iff i j, count-without i k ks)

module _ {V : Type 0} where
  abbrev pub entry_keys : EntriesOf V → List Text
  entry_keys [] = []
  entry_keys ((i, v) ∷ m) = i ∷ without i (entry_keys m)

  pub count-entry_keys :
      (m : EntriesOf V) (k : Text)
      → total (λ j. of_bool (text_eq k j)) (entry_keys m)
        ≡ elim (find m k) as (λ _. ℕ) [ none ↦ 0 | some v ↦ 1 ]
  unfolding total
  count-entry_keys [] k = refl
  count-entry_keys ((i, v) ∷ m) k = ground (
    arith,
    text_eq_iff k i,
    text_eq_iff i k,
    count-without i k (entry_keys m),
    count-entry_keys m k,
  )

  abbrev pub keys_of_entries : KeysOf V (EntriesOf V) map_of_entries
  keys_of_entries = record { keys = entry_keys; count-keys = count-entry_keys }

abbrev pub entries_map : StringMap Entries
entries_map = map_of_entries

abbrev pub plain_sha1 : Sha1 Text
plain_sha1 = record {
  init = [];
  update = λ c a. c ++ a;
  final = λ c. c;
  update-append = λ c a b. append_assoc c a b;
}
