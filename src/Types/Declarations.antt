-- ===== src/Types/Declarations.antt =====
-- The functions of src/dlite-type.c that write types for Fortran and C.
use mathlib.Core.List.{append_assoc}
use dlite.Base.{
  ◌≡◌, ◌⊎◌, inl, inr, ap, ◌∙◌, ℕ, ◌+◌, ◌-◌, ◌*◌, ◌%◌, ◌^◌, Bool, true, false, Option, none, some,
  Text, ◌∷◌, ◌++◌, codes, ltb, ◌==◌, if◌then◌else◌, length, take, replicate,
}
use dlite.Types.Table.{DLiteType, Build}
use dlite.Types.Names.{decimal, formatted_typename}

-- A format with a number between two texts.
abbrev number_between : Text → ℕ → Text → Text
number_between before n after = before ++ (decimal n ++ after)

unfoldable pub formatted_ftype : DLiteType → ℕ → Option Text
unfolding decimal
formatted_ftype DLiteType.blob size = some (codes "blob")
formatted_ftype DLiteType.bool size = if size == 1 then some (codes "logical") else none
formatted_ftype DLiteType.int size = some (number_between (codes "integer(") size (codes ")"))
formatted_ftype DLiteType.uint size = some (number_between (codes "integer(") size (codes ")"))
formatted_ftype DLiteType.float size = some (number_between (codes "real(") size (codes ")"))
formatted_ftype DLiteType.fix_string size =
    some (number_between (codes "character(len=") ((size + (2 ^ 64 - 1)) % 2 ^ 64) (codes ")"))
formatted_ftype DLiteType.string_ptr size = some (codes "character(*)")
formatted_ftype DLiteType.ref size = some (codes "type(DLiteInstance)")
formatted_ftype DLiteType.dimension size = some (codes "type(DLiteDimension)")
formatted_ftype DLiteType.property size = some (codes "type(DLiteProperty)")
formatted_ftype DLiteType.relation size = some (codes "type(DLiteRelation)")

-- What a buffer of `n` bytes, `n` not zero, holds of a text.
abbrev in_buffer : ℕ → Option Text → Option Text
in_buffer n none = none
in_buffer n (some text) = some (take (n - 1) text)

unfoldable pub dlite_type_set_ftype : DLiteType → ℕ → ℕ → Option Text
unfolding formatted_ftype
dlite_type_set_ftype dtype size n = in_buffer n (formatted_ftype dtype size)

-- `long` has 8 bytes, and `long long` no other size.
unfoldable pub dlite_type_get_native_typename : Build → DLiteType → ℕ → Option Text
dlite_type_get_native_typename build DLiteType.int size =
    if size == 1
    then some (codes "char")
    else if size == 2
    then some (codes "short")
    else if size == 4
    then some (codes "int")
    else if size == 8
    then some (codes "long")
    else none
dlite_type_get_native_typename build DLiteType.uint size =
    if size == 1
    then some (codes "unsigned char")
    else if size == 2
    then some (codes "unsigned short")
    else if size == 4
    then some (codes "unsigned int")
    else if size == 8
    then some (codes "unsigned long")
    else none
dlite_type_get_native_typename build DLiteType.float size =
    if size == 4
    then some (codes "float")
    else if size == 8
    then some (codes "double")
    else if size == build.long_double_size
    then some (codes "long double")
    else none
dlite_type_get_native_typename build _ size = none

-- What `%s` writes of a NULL pointer is up to the C library; this is what glibc writes.
abbrev text_or_null : Option Text → Text
text_or_null none = codes "(null)"
text_or_null (some text) = text

unfoldable pub formatted_isoctype : DLiteType → ℕ → Option Text → Option Text
formatted_isoctype DLiteType.blob size native = some (codes "blob")
formatted_isoctype DLiteType.bool size native =
    if size == 1 then some (codes "logical(c_bool)") else none
formatted_isoctype DLiteType.int size native =
    some (codes "integer(c_" ++ (text_or_null native ++ codes ")"))
formatted_isoctype DLiteType.uint size native =
    some (codes "integer(c_" ++ (text_or_null native ++ codes ")"))
formatted_isoctype DLiteType.float size native =
    some (codes "real(c_" ++ (text_or_null native ++ codes ")"))
formatted_isoctype DLiteType.fix_string size native = some (codes "character(kind=c_char)")
formatted_isoctype DLiteType.string_ptr size native = some (codes "character(kind=c_char)")
formatted_isoctype DLiteType.ref size native = some (codes "type(c_ptr)")
formatted_isoctype DLiteType.dimension size native = some (codes "type(c_ptr)")
formatted_isoctype DLiteType.property size native = some (codes "type(c_ptr)")
formatted_isoctype DLiteType.relation size native = some (codes "type(c_ptr)")

unfoldable pub dlite_type_set_isoctype : Build → DLiteType → ℕ → ℕ → Option Text
unfolding formatted_isoctype dlite_type_get_native_typename
dlite_type_set_isoctype build dtype size n =
    in_buffer n (formatted_isoctype dtype size (dlite_type_get_native_typename build dtype size))

-- A type with its native name, where that is asked for and there is one.
abbrev native_or : Bool → Option Text → Text → Text → Text
native_or true (some native) portable declared = native ++ (b' ' ∷ declared)
native_or true none portable declared = portable ++ declared
native_or false native portable declared = portable ++ declared

-- `declared` is the name of the variable behind the extra stars.
unfoldable pub formatted_cdecl : DLiteType → ℕ → Text → Bool → Option Text → Option Text
unfolding decimal
formatted_cdecl DLiteType.blob size declared native name =
    some (codes "uint8_t " ++ (declared ++ number_between (codes "[") size (codes "]")))
formatted_cdecl DLiteType.bool size declared native name =
    if size == 1 then some (codes "bool " ++ declared) else none
formatted_cdecl DLiteType.int size declared native name = some (
    native_or native name (number_between (codes "int") (size * 8 % 2 ^ 64) (codes "_t ")) declared)
formatted_cdecl DLiteType.uint size declared native name = some (
    native_or native name (number_between (codes "uint") (size * 8 % 2 ^ 64) (codes "_t "))
      declared)
formatted_cdecl DLiteType.float size declared native name = some (
    native_or native name (number_between (codes "float") (size * 8 % 2 ^ 64) (codes "_t "))
      declared)
formatted_cdecl DLiteType.fix_string size declared native name =
    some (codes "char " ++ (declared ++ number_between (codes "[") size (codes "]")))
formatted_cdecl DLiteType.string_ptr size declared native name =
    if size == 8 then some (codes "char *" ++ declared) else none
formatted_cdecl DLiteType.ref size declared native name =
    if size == 8 then some (codes "DLiteInstance *" ++ declared) else none
formatted_cdecl DLiteType.dimension size declared native name =
    if size == 16 then some (codes "DLiteDimension " ++ declared) else none
formatted_cdecl DLiteType.property size declared native name =
    if size == 64 then some (codes "DLiteProperty " ++ declared) else none
formatted_cdecl DLiteType.relation size declared native name =
    if size == 40 then some (codes "DLiteRelation " ++ declared) else none

-- The declaration in the buffer and the length that it has without the buffer's end; none for -1.
unfoldable pub dlite_type_set_cdecl :
    Build → DLiteType → ℕ → Text → ℕ → ℕ → Bool → Option (Text × ℕ)
unfolding formatted_cdecl dlite_type_get_native_typename
dlite_type_set_cdecl build dtype size name nref n native =
    if ltb nref 32
    then elim (formatted_cdecl dtype size (replicate nref b'*' ++ name) native
          (dlite_type_get_native_typename build dtype size))
        as (λ _. Option (Text × ℕ)) [
          | none ↦ none
          | some text ↦ some (take (n - 1) text, length text)
        ]
    else none

-- The numeric types.
abbrev pub IsNumber : DLiteType → Type 0
IsNumber dtype = (dtype ≡ DLiteType.int) ⊎ ((dtype ≡ DLiteType.uint) ⊎ (dtype ≡ DLiteType.float))

declared_as : Text → Option Text → Option Text
declared_as declared none = none
declared_as declared (some typename) = some (typename ++ (codes "_t " ++ declared))

cdecl-declared_as :
    (dtype : DLiteType) (size : ℕ) (declared : Text) (name : Option Text)
    → IsNumber dtype
    → formatted_cdecl dtype size declared false name
      ≡ declared_as declared (formatted_typename dtype size)
unfolding formatted_cdecl formatted_typename declared_as
cdecl-declared_as dtype size declared name (inl e) = rw e (ap some (simp append_assoc))
cdecl-declared_as dtype size declared name (inr (inl e)) = rw e (ap some (simp append_assoc))
cdecl-declared_as dtype size declared name (inr (inr e)) = rw e (ap some (simp append_assoc))

-- Without the native name, a variable of a numeric type is declared with the name of the type that
-- `dlite_type_set_typename` writes and `_t`.
pub formatted_cdecl-formatted_typename :
    (dtype : DLiteType) (size : ℕ) (declared typename : Text) (name : Option Text)
    → IsNumber dtype
    → formatted_typename dtype size ≡ some typename
    → formatted_cdecl dtype size declared false name ≡ some (typename ++ (codes "_t " ++ declared))
unfolding declared_as
formatted_cdecl-formatted_typename dtype size declared typename name h e =
    cdecl-declared_as dtype size declared name h ∙ ap (declared_as declared) e
