-- ===== src/StringMap.antt =====
-- src/utils/map.h: the string map that the stores of triples and of instances are kept in. The map is
-- the library of rxi under src/utils/map.c, copied into the repository; it is a parameter of the
-- model, with the documented behaviour of its calls as laws.
use dlite.Base.{ℕ, ◌≡◌, Option, none, some, List, Text, text_eq, if◌then◌else◌, total, of_bool}

pub record StringMapOf (V M : Type 0) : Type 0 where
  pub empty : M
  pub get : M → Text → Option V
  pub set : M → Text → V → M
  pub remove : M → Text → M
  pub get-empty : (k : Text) → get empty k ≡ none
  pub get-set :
      (m : M) (k j : Text) (v : V) → get (set m k v) j ≡ (if text_eq k j then some v else get m j)
  pub get-remove :
      (m : M) (k j : Text) → get (remove m k) j ≡ (if text_eq k j then none else get m j)

-- A map to numbers.
abbrev pub StringMap : Type 0 → Type 0
StringMap M = StringMapOf ℕ M

-- Iteration: the keys that `map_next` gives, each key of the map once.
pub record KeysOf (V M : Type 0) (ops : StringMapOf V M) : Type 0 where
  pub keys : M → List Text
  pub count-keys :
      (m : M) (k : Text)
      → total (λ j. of_bool (text_eq k j)) (keys m)
        ≡ elim (ops.get m k) as (λ _. ℕ) [ none ↦ 0 | some v ↦ 1 ]
