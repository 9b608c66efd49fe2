-- ===== src/Strutils/StringList.antt =====
-- The allocated string lists of src/utils/strutils.c. A list that is not NULL has its strings and
-- room for some number of them before the terminating NULL; `n` is one more.
use dlite.Base.{
  ℕ, zero, suc, ◌+◌, ◌-◌, List, [], ◌∷◌, Option, none, some, Text, Outcome, done, fault, ℤ, ◌+ℤ◌,
  is_negative, ltb, if◌then◌else◌, length,
}

pub record StringList : Type 0 where
  pub strings : List Text
  pub room : ℕ

-- `CHUNK_SIZE`
abbrev pub chunk_size : ℕ
chunk_size = 32

abbrev pub insert_at : ℕ → Text → List Text → List Text
insert_at zero s xs = s ∷ xs
insert_at (suc k) s [] = s ∷ []
insert_at (suc k) s (x ∷ xs) = x ∷ insert_at k s xs

-- The position that `i` means to `_strlst_insert`.
abbrev pub insert_position : ℕ → ℤ → ℕ
insert_position len i = elim (if is_negative i then i +ℤ ℤ.pos len else i) [
  | ℤ.pos k ↦ if ltb len k then len else k
  | ℤ.negsuc _ ↦ len
]

abbrev pub strings_of : Option StringList → List Text
strings_of none = []
strings_of (some l) = l.strings

-- The allocated length that `_strlst_insert` arrives at.
abbrev pub grown : Option StringList → ℕ → ℕ
grown none len = chunk_size
grown (some l) len = if ltb (l.room + 1) (len + 1) then l.room + 1 + chunk_size else l.room + 1

-- `_strlst_insert`
unfoldable pub insert_counted : Option StringList → Text → ℤ → ℕ → Outcome StringList
insert_counted l s i len =
    if ltb (len + 1) (grown l len)
    then done (record {
      strings = insert_at (insert_position len i) s (strings_of l);
      room = grown l len - 1;
    })
    else fault

unfoldable pub strlst_count : Option StringList → ℕ
strlst_count l = length (strings_of l)

unfoldable pub strlst_insert : Option StringList → Text → ℤ → Outcome StringList
unfolding insert_counted strlst_count
strlst_insert l s i = insert_counted l s i (strlst_count l)

unfoldable pub strlst_append : Option StringList → Text → Outcome StringList
unfolding insert_counted strlst_count
strlst_append l s = insert_counted l s (ℤ.pos (strlst_count l)) (strlst_count l)

-- The index that `i` means to the other functions.
abbrev pub from_end : ℕ → ℤ → ℤ
from_end len i = if is_negative i then i +ℤ ℤ.pos len else i

-- The loop of `strlst_get`, and the element then.
abbrev pub get_loop : ℕ → List Text → Option Text
get_loop i [] = none
get_loop zero (x ∷ xs) = some x
get_loop (suc i) (x ∷ xs) = get_loop i xs

unfoldable pub strlst_get : Option StringList → ℤ → Outcome (Option Text)
unfolding strlst_count
strlst_get l i = elim (from_end (strlst_count l) i) [
  | ℤ.negsuc _ ↦ done none
  | ℤ.pos k ↦ elim l [ none ↦ fault | some x ↦ done (get_loop k x.strings) ]
]

-- The strings but the `i`-th.
abbrev pub remove_at : ℕ → List Text → List Text
remove_at i [] = []
remove_at zero (x ∷ xs) = xs
remove_at (suc i) (x ∷ xs) = x ∷ remove_at i xs

-- The list, and the string or NULL.
unfoldable pub strlst_pop : Option StringList → ℤ → Outcome (Option StringList × Option Text)
unfolding strlst_count
strlst_pop l i = elim (from_end (strlst_count l) i) [
  | ℤ.negsuc _ ↦ done (l, none)
  | ℤ.pos k ↦ elim l [
    | none ↦ fault
    | some x ↦ done (some (record x { strings = remove_at k x.strings }), get_loop k x.strings)
  ]
]

abbrev pub code_of : Option Text → ℕ
code_of none = 1
code_of (some _) = 0

-- The list, and non-zero where the index is out of range.
unfoldable pub strlst_remove : Option StringList → ℤ → Outcome (Option StringList × ℕ)
unfolding strlst_count
strlst_remove l i = elim (from_end (strlst_count l) i) [
  | ℤ.negsuc _ ↦ done (l, 1)
  | ℤ.pos k ↦ elim l [
    | none ↦ fault
    | some x ↦
        done (some (record x { strings = remove_at k x.strings }), code_of (get_loop k x.strings))
  ]
]
