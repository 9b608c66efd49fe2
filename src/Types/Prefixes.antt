-- ===== src/Types/Prefixes.antt =====
-- Which words without digits src/dlite-type.c takes for types.
use mathlib.Core.List.{append-nil}
use dlite.Base.{
  ℕ, ◌≡◌, refl, ap, ◌∙◌, Bool, true, false, ◌&&◌, ◌||◌, Option, none, some, Text, List, [], ◌∷◌,
  ◌++◌, codes, arith, ◌==◌, is_alpha, is_digit, Bool-cases, inl, inr,
}
use dlite.Types.Decimal.{Every, span-all}
use dlite.Types.Table.{DLiteType, Build, TypeDescr, type_table}
use dlite.Types.Names.{
  is_metaref, span, starts_with, table_loop, sized_type, lookup_type, lookup_parts,
  dlite_type_set_dtype_and_size, dlite_is_type,
}

-- Whether a name in the table starts with `word`.
abbrev pub starts_any : List TypeDescr → Text → Bool
starts_any [] word = false
starts_any (t ∷ table) word = starts_with word t.typename || starts_any table word

starts_with-colon :
    (xs ys letters : Text) → Every is_alpha letters → starts_with (xs ++ b':' ∷ ys) letters ≡ false
unfolding starts_with
starts_with-colon [] ys [] h = refl
starts_with-colon [] ys (c ∷ letters) (hc, h) =
    let other : (b':' == c) ≡ false = ground (arith, hc) in rw other refl
starts_with-colon (x ∷ xs) ys [] h = refl
starts_with-colon (x ∷ xs) ys (c ∷ letters) (hc, h) =
    rw (starts_with-colon xs ys letters h) (and-false (x == c))
  where
    and-false : (b : Bool) → (b && false) ≡ false
    and-false true = refl
    and-false false = refl

is_metaref-alpha : (letters : Text) → Every is_alpha letters → is_metaref letters ≡ false
unfolding is_metaref
is_metaref-alpha letters h =
    rw
      (
        starts_with-colon (codes "http") (codes "//") letters h,
        starts_with-colon (codes "https") (codes "//") letters h,
        starts_with-colon (codes "ftp") (codes "//") letters h,
      )
      refl

is_type_of : Option (DLiteType × ℕ) → Bool
is_type_of none = false
is_type_of (some r) = true

table_loop-starts_any :
    (table : List TypeDescr) (word : Text)
    → is_type_of (table_loop table word) ≡ starts_any table word
unfolding table_loop is_type_of
table_loop-starts_any [] word = refl
table_loop-starts_any (t ∷ table) word = elim (Bool-cases (starts_with word t.typename)) [
  | inl here ↦ rw (here, table_loop) refl
  | inr later ↦ rw (later, table_loop) (table_loop-starts_any table word)
]

is_type_of-set_dtype :
    (build : Build) (name : Text) (o : Option (DLiteType × ℕ))
    → dlite_type_set_dtype_and_size build name ≡ o
    → dlite_is_type build name ≡ is_type_of o
unfolding dlite_is_type is_type_of
is_type_of-set_dtype build name none h = rw (h, dlite_is_type) refl
is_type_of-set_dtype build name (some r) h = rw (h, dlite_is_type) refl

set_dtype-letters :
    (build : Build) (letters : Text)
    → Every is_alpha letters
    → dlite_type_set_dtype_and_size build letters ≡ lookup_type build letters []
unfolding dlite_type_set_dtype_and_size lookup_parts
set_dtype-letters build letters h =
    rw (is_metaref-alpha letters h, dlite_type_set_dtype_and_size)
      (ap (λ parts. lookup_parts build (parts.0) (span is_digit (parts.1)))
        (span-all is_alpha letters h))

listed_only :
    (o : Option (DLiteType × ℕ))
    → is_type_of (elim o as (λ _. Option (DLiteType × ℕ)) [ some r ↦ some r | none ↦ none ])
      ≡ is_type_of o
listed_only none = refl
listed_only (some r) = refl

is_type_of-lookup_type :
    (build : Build) (c : ℕ) (cs : Text)
    → is_type_of (lookup_type build (c ∷ cs) [])
      ≡ is_type_of (table_loop (type_table build) ((c ∷ cs) ++ []))
unfolding lookup_type sized_type
is_type_of-lookup_type build c cs = listed_only (table_loop (type_table build) ((c ∷ cs) ++ []))

-- A word of letters is taken for a type exactly if the name of a fix-sized type starts with it.
pub dlite_is_type-starts_any :
    (build : Build) (c : ℕ) (cs : Text)
    → Every is_alpha (c ∷ cs)
    → dlite_is_type build (c ∷ cs) ≡ starts_any (type_table build) (c ∷ cs)
dlite_is_type-starts_any build c cs h =
    is_type_of-set_dtype build (c ∷ cs) _ (set_dtype-letters build (c ∷ cs) h)
    ∙ is_type_of-lookup_type build c cs
    ∙ ap (λ word. is_type_of (table_loop (type_table build) word)) (append-nil (c ∷ cs))
    ∙ table_loop-starts_any (type_table build) (c ∷ cs)
