-- ===== src/Tests/StringLists.antt =====
-- Runs on string lists, categories and hexadecimal texts, and the theorems on them.
use dlite.Base.{
  ◌≤◌, ◌<◌, ◌≡◌, refl, [], ◌∷◌, none, some, Text, codes, done, fault, ℤ, length, replicate,
}
use dlite.Strutils.StringList.{StringList, chunk_size, strlst_get, strlst_remove}
use dlite.Strutils.ListLimit.{append_all, strlst_append_lem}
use dlite.Strutils.Category.{StrCategory, strcatjspn}
use dlite.Strutils.Hex.{strhex_decode}

abbrev pair : StringList
pair = record { strings = codes "one" ∷ codes "two" ∷ []; room = 31 }

last_got : strlst_get (some pair) (ℤ.negsuc 0) ≡ done (some (codes "two"))
unfolding strlst_get
last_got = refl

last_removed :
    strlst_remove (some pair) (ℤ.negsuc 0)
    ≡ done (some (record pair { strings = codes "one" ∷ [] }), 0)
unfolding strlst_remove
last_removed = refl

strlst_append_lem_example :
    (length (codes "one" ∷ replicate 31 []) < chunk_size
      → (l : StringList) × (append_all none (codes "one" ∷ replicate 31 []) ≡ done (some l))
        × (l.strings ≡ codes "one" ∷ replicate 31 []))
    × (chunk_size ≤ length (codes "one" ∷ replicate 31 [])
        → append_all none (codes "one" ∷ replicate 31 []) ≡ fault)
strlst_append_lem_example = strlst_append_lem (codes "one") (replicate 31 [])

abbrev path : Text
path = codes "ab1/c"

path_start : strcatjspn path StrCategory.digit ≡ 3
unfolding strcatjspn
path_start = refl

upper_case_read : strhex_decode (0 ∷ []) (codes "Fe") none ≡ some (254 ∷ [], 1)
unfolding strhex_decode
upper_case_read = refl
