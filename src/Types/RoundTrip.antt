-- ===== src/Types/RoundTrip.antt =====
-- The names of types that src/dlite-type.c writes are read back.
use dlite.Base.{
  ℕ, zero, suc, ◌+◌, ◌-◌, ◌%◌, ◌^◌, ◌≤◌, ◌<◌, ◌≡◌, refl, sym, ap, ◌∙◌, ◌⊎◌, inl, inr, Bool, true,
  false, none, some, Text, List, [], ◌∷◌, ◌++◌, codes, arith, length, take, cons_if, text_eq,
  is_alpha, is_digit, read_digits, saturate,
}
use dlite.Types.Decimal.{Every, decimal-Digits, span-append, span-all, span-digit}
use dlite.Types.Table.{DLiteType, Build, TypeDescr, type_table, long_floats, other_types}
use dlite.Types.Names.{
  is_metaref, decimal, formatted_typename, dlite_type_set_typename, span, table_loop, sized_type,
  starts_with, lookup_type, lookup_parts, dlite_type_set_dtype_and_size,
}

set_dtype-lookup_type :
    (build : Build) (letters : Text) (d : ℕ) (ds : Text)
    → Every is_alpha letters
    → Every is_digit (d ∷ ds)
    → is_metaref (letters ++ d ∷ ds) ≡ false
    → dlite_type_set_dtype_and_size build (letters ++ d ∷ ds) ≡ lookup_type build letters (d ∷ ds)
unfolding dlite_type_set_dtype_and_size lookup_parts
set_dtype-lookup_type build letters d ds alpha digits plain =
    let s₁ = span-append is_alpha letters (d ∷ ds) alpha (span-digit d ds (digits.0)) in
    let s₂ = span-all is_digit (d ∷ ds) digits in
    rw (plain, dlite_type_set_dtype_and_size)
      (ap (λ parts. lookup_parts build (parts.0) (span is_digit (parts.1))) s₁
        ∙ ap (lookup_parts build letters) s₂)

table_loop-pass :
    (b : Bool) (t : TypeDescr) (rest : List TypeDescr) (word : Text)
    → starts_with word t.typename ≡ false
    → table_loop (cons_if b t rest) word ≡ table_loop rest word
unfolding table_loop
table_loop-pass true t rest word h = rw (h, table_loop) refl
table_loop-pass false t rest word h = refl

-- A name that is none of the long floats.
table_loop-long_floats :
    (build : Build) (rest : List TypeDescr) (word : Text)
    → starts_with word (codes "float80") ≡ false
    → starts_with word (codes "float96") ≡ false
    → starts_with word (codes "float128") ≡ false
    → table_loop (long_floats build rest) word ≡ table_loop rest word
table_loop-long_floats build rest word h80 h96 h128 =
    table_loop-pass build.have_float80 _ _ word h80
    ∙ table_loop-pass build.have_float96 _ _ word h96
    ∙ table_loop-pass build.have_float128 _ _ word h128

blob_unlisted :
    (build : Build) (d : ℕ) (ds : Text)
    → table_loop (type_table build) (codes "blob" ++ d ∷ ds) ≡ none
unfolding table_loop type_table starts_with
blob_unlisted build d ds = table_loop-long_floats build other_types _ refl refl refl

string_unlisted :
    (build : Build) (d : ℕ) (ds : Text)
    → table_loop (type_table build) (codes "string" ++ d ∷ ds) ≡ none
unfolding table_loop type_table starts_with
string_unlisted build d ds = table_loop-long_floats build other_types _ refl refl refl

lookup-blob :
    (build : Build) (d : ℕ) (ds : Text)
    → lookup_type build (codes "blob") (d ∷ ds)
      ≡ some (DLiteType.blob, saturate ((read_digits 10 0 (d ∷ ds)).0))
unfolding lookup_type sized_type text_eq
lookup-blob build d ds = rw (blob_unlisted build d ds, lookup_type) refl

lookup-string :
    (build : Build) (d : ℕ) (ds : Text)
    → lookup_type build (codes "string") (d ∷ ds)
      ≡ some (DLiteType.fix_string, saturate ((read_digits 10 0 (d ∷ ds)).0) + 1)
unfolding lookup_type sized_type text_eq
lookup-string build d ds = rw (string_unlisted build d ds, lookup_type) refl

read-blob :
    (build : Build) (n : ℕ)
    → n < 9223372036854775808
    → dlite_type_set_dtype_and_size build (codes "blob" ++ decimal n) ≡ some (DLiteType.blob, n)
unfolding is_metaref starts_with
read-blob build n h =
    let r = decimal-Digits n h in
    ap (λ t. dlite_type_set_dtype_and_size build (codes "blob" ++ t)) r.same
    ∙ set_dtype-lookup_type build (codes "blob") r.d r.ds (refl, (refl, (refl, (refl, tt))))
        r.digits refl
    ∙ lookup-blob build r.d r.ds
    ∙ ap (λ k. some (DLiteType.blob, k)) r.read

read-string :
    (build : Build) (n : ℕ)
    → n < 9223372036854775808
    → dlite_type_set_dtype_and_size build (codes "string" ++ decimal n)
      ≡ some (DLiteType.fix_string, n + 1)
unfolding is_metaref starts_with
read-string build n h =
    let r = decimal-Digits n h in
    ap (λ t. dlite_type_set_dtype_and_size build (codes "string" ++ t)) r.same
    ∙ set_dtype-lookup_type build (codes "string") r.d r.ds
        (refl, (refl, (refl, (refl, (refl, (refl, tt)))))) r.digits refl
    ∙ lookup-string build r.d r.ds
    ∙ ap (λ k. some (DLiteType.fix_string, k + 1)) r.read

abbrev pub IsIntSize : ℕ → Type 0
IsIntSize size = (size ≡ 1) ⊎ ((size ≡ 2) ⊎ ((size ≡ 4) ⊎ (size ≡ 8)))

abbrev pub IsFloatSize : Build → ℕ → Type 0
IsFloatSize build size =
    (size ≡ 4)
    ⊎ ((size ≡ 8)
        ⊎ (((size ≡ 10) × (build.have_float80 ≡ true))
            ⊎ (((size ≡ 12) × (build.have_float96 ≡ true))
                ⊎ ((size ≡ 16) × (build.have_float128 ≡ true)))))

-- The sizes that there are for a type.
abbrev pub IsSized : Build → DLiteType → ℕ → Type 0
IsSized build DLiteType.blob size = size < 9223372036854775808
IsSized build DLiteType.bool size = size ≡ 1
IsSized build DLiteType.int size = IsIntSize size
IsSized build DLiteType.uint size = IsIntSize size
IsSized build DLiteType.float size = IsFloatSize build size
IsSized build DLiteType.fix_string size = (1 ≤ size) × (size ≤ 9223372036854775808)
IsSized build DLiteType.string_ptr size = size ≡ 8
IsSized build DLiteType.ref size = size ≡ 8
IsSized build DLiteType.dimension size = size ≡ 16
IsSized build DLiteType.property size = size ≡ 64
IsSized build DLiteType.relation size = size ≡ 40

-- The name of a type with its size is read as the type and the size.
abbrev Reads : Build → DLiteType → ℕ → Type 0
Reads build dtype size =
    (t : Text) × ((formatted_typename dtype size ≡ some t)
      × (dlite_type_set_dtype_and_size build t ≡ some (dtype, size)))

int-Reads : (build : Build) (size : ℕ) → IsIntSize size → Reads build DLiteType.int size
unfolding formatted_typename dlite_type_set_dtype_and_size
int-Reads build size (inl e) = rw e (_, (refl, refl))
int-Reads build size (inr (inl e)) = rw e (_, (refl, refl))
int-Reads build size (inr (inr (inl e))) = rw e (_, (refl, refl))
int-Reads build size (inr (inr (inr e))) = rw e (_, (refl, refl))

uint-Reads : (build : Build) (size : ℕ) → IsIntSize size → Reads build DLiteType.uint size
unfolding formatted_typename dlite_type_set_dtype_and_size
uint-Reads build size (inl e) = rw e (_, (refl, refl))
uint-Reads build size (inr (inl e)) = rw e (_, (refl, refl))
uint-Reads build size (inr (inr (inl e))) = rw e (_, (refl, refl))
uint-Reads build size (inr (inr (inr e))) = rw e (_, (refl, refl))

lookup-listed :
    (build : Build) (c : ℕ) (cs digits : Text) (r : DLiteType × ℕ)
    → table_loop (type_table build) ((c ∷ cs) ++ digits) ≡ some r
    → lookup_type build (c ∷ cs) digits ≡ some r
unfolding lookup_type
lookup-listed build c cs digits r h = rw (h, lookup_type) refl

table_loop-take :
    (b : Bool) (t : TypeDescr) (rest : List TypeDescr) (word : Text)
    → b ≡ true
    → starts_with word t.typename ≡ true
    → table_loop (cons_if b t rest) word ≡ some (t.dtype, t.size)
unfolding table_loop
table_loop-take true t rest word e h = rw (h, table_loop) refl
table_loop-take false t rest word e h = ground (arith, e)

float80_listed :
    (build : Build)
    → build.have_float80 ≡ true
    → table_loop (type_table build) (codes "float80") ≡ some (DLiteType.float, 10)
unfolding table_loop type_table starts_with
float80_listed build e = table_loop-take build.have_float80 _ _ (codes "float80") e refl

float96_listed :
    (build : Build)
    → build.have_float96 ≡ true
    → table_loop (type_table build) (codes "float96") ≡ some (DLiteType.float, 12)
unfolding table_loop type_table starts_with
float96_listed build e =
    table_loop-pass build.have_float80 _ _ (codes "float96") refl
    ∙ table_loop-take build.have_float96 _ _ (codes "float96") e refl

float128_listed :
    (build : Build)
    → build.have_float128 ≡ true
    → table_loop (type_table build) (codes "float128") ≡ some (DLiteType.float, 16)
unfolding table_loop type_table starts_with
float128_listed build e =
    table_loop-pass build.have_float80 _ _ (codes "float128") refl
    ∙ (table_loop-pass build.have_float96 _ _ (codes "float128") refl
        ∙ table_loop-take build.have_float128 _ _ (codes "float128") e refl)

float-Reads : (build : Build) (size : ℕ) → IsFloatSize build size → Reads build DLiteType.float size
unfolding formatted_typename dlite_type_set_dtype_and_size
float-Reads build size (inl e) = rw e (_, (refl, refl))
float-Reads build size (inr (inl e)) = rw e (_, (refl, refl))
float-Reads build size (inr (inr (inl (e, have)))) =
    rw e (
      _,
      (refl, lookup-listed build b'f' (codes "loat") (codes "80") _ (float80_listed build have)),
    )
float-Reads build size (inr (inr (inr (inl (e, have))))) =
    rw e (
      _,
      (refl, lookup-listed build b'f' (codes "loat") (codes "96") _ (float96_listed build have)),
    )
float-Reads build size (inr (inr (inr (inr (e, have))))) = rw e (
  _,
  (refl, lookup-listed build b'f' (codes "loat") (codes "128") _ (float128_listed build have)),
)

plain_listed :
    (build : Build)
    → (table_loop (type_table build) (codes "string") ≡ some (DLiteType.string_ptr, 8))
      × ((table_loop (type_table build) (codes "ref") ≡ some (DLiteType.ref, 8))
          × ((table_loop (type_table build) (codes "dimension") ≡ some (DLiteType.dimension, 16))
              × ((table_loop (type_table build) (codes "property") ≡ some (DLiteType.property, 64))
                  × (table_loop (type_table build) (codes "relation")
                      ≡ some (DLiteType.relation, 40)))))
unfolding table_loop type_table starts_with
plain_listed build = (
  table_loop-long_floats build other_types (codes "string") refl refl refl,
  (
    table_loop-long_floats build other_types (codes "ref") refl refl refl,
    (
      table_loop-long_floats build other_types (codes "dimension") refl refl refl,
      (
        table_loop-long_floats build other_types (codes "property") refl refl refl,
        table_loop-long_floats build other_types (codes "relation") refl refl refl,
      ),
    ),
  ),
)

size_before :
    (size : ℕ) → 1 ≤ size → size ≤ 9223372036854775808 → (size + (2 ^ 64 - 1)) % 2 ^ 64 ≡ size - 1
size_before size h k = omega arith

type-Reads :
    (build : Build) (dtype : DLiteType) (size : ℕ)
    → IsSized build dtype size
    → Reads build dtype size
unfolding formatted_typename dlite_type_set_dtype_and_size
type-Reads build DLiteType.blob size h = (_, (refl, read-blob build size h))
type-Reads build DLiteType.bool size h = rw h (_, (refl, refl))
type-Reads build DLiteType.int size h = int-Reads build size h
type-Reads build DLiteType.uint size h = uint-Reads build size h
type-Reads build DLiteType.float size h = float-Reads build size h
type-Reads build DLiteType.fix_string size (low, high) =
    let back : size - 1 + 1 ≡ size = omega arith in
    (
      codes "string" ++ decimal (size - 1),
      (
        ap (λ k. some (codes "string" ++ decimal k)) (size_before size low high),
        read-string build (size - 1) (omega arith) ∙ ap (λ k. some (DLiteType.fix_string, k)) back,
      ),
    )
type-Reads build DLiteType.string_ptr size h =
    rw h (_, (refl, lookup-listed build b's' (codes "tring") [] _ ((plain_listed build).0)))
type-Reads build DLiteType.ref size h =
    rw h (_, (refl, lookup-listed build b'r' (codes "ef") [] _ ((plain_listed build).1.0)))
type-Reads build DLiteType.dimension size h =
    rw h (_, (refl, lookup-listed build b'd' (codes "imension") [] _ ((plain_listed build).1.1.0)))
type-Reads build DLiteType.property size h =
    rw h (_, (refl, lookup-listed build b'p' (codes "roperty") [] _ ((plain_listed build).1.1.1.0)))
type-Reads build DLiteType.relation size h =
    rw h (_, (refl, lookup-listed build b'r' (codes "elation") [] _ ((plain_listed build).1.1.1.1)))

take-short : (m : ℕ) (t : Text) → length (take m t) < m → take m t ≡ t
take-short zero t h = absurd (omega arith)
take-short (suc m) [] h = refl
take-short (suc m) (c ∷ t) h = ap (◌∷◌ c) (take-short m t (omega arith))

set_typename-formatted_typename :
    (dtype : DLiteType) (size n : ℕ) (t : Text)
    → formatted_typename dtype size ≡ some t
    → dlite_type_set_typename dtype size n ≡ some (take (n - 1) t)
unfolding dlite_type_set_typename
set_typename-formatted_typename dtype size n t h = rw (h, dlite_type_set_typename) refl

-- The name that `dlite_type_set_typename` writes for a type with a size that there is for it is
-- read back as that type and size, if the name does not fill the buffer.
pub set_dtype_and_size-set_typename :
    (build : Build) (dtype : DLiteType) (size n : ℕ) (name : Text)
    → IsSized build dtype size
    → dlite_type_set_typename dtype size n ≡ some name
    → length name < n - 1
    → dlite_type_set_dtype_and_size build name ≡ some (dtype, size)
set_dtype_and_size-set_typename build dtype size n name h e short =
    let (t, (formatted, read)) = type-Reads build dtype size h in
    let cut : take (n - 1) t ≡ name =
      ap (λ o. elim o as (λ _. Text) [ none ↦ [] | some text ↦ text ])
        (sym (set_typename-formatted_typename dtype size n t formatted) ∙ e) in
    let whole : take (n - 1) t ≡ t = take-short (n - 1) t (omega (arith, short, ap length cut)) in
    ap (dlite_type_set_dtype_and_size build) (sym cut ∙ whole) ∙ read
