-- ===== src/Types/Table.antt =====
-- The types of src/dlite-type.h and the table of fix-sized types of src/dlite-type.c, for a host
-- with 64-bit pointers and `size_t`. Which of the long floats there are, and the size of
-- `long double`, are found out by the build.
use dlite.Base.{ℕ, Bool, Text, List, [], ◌∷◌, codes, cons_if}

pub data DLiteType : Type 0 where
  blob : DLiteType
  bool : DLiteType
  int : DLiteType
  uint : DLiteType
  float : DLiteType
  fix_string : DLiteType
  string_ptr : DLiteType
  ref : DLiteType
  dimension : DLiteType
  property : DLiteType
  relation : DLiteType

-- The value of the enumeration.
unfoldable pub dtype_number : DLiteType → ℕ
dtype_number DLiteType.blob = 0
dtype_number DLiteType.bool = 1
dtype_number DLiteType.int = 2
dtype_number DLiteType.uint = 3
dtype_number DLiteType.float = 4
dtype_number DLiteType.fix_string = 5
dtype_number DLiteType.string_ptr = 6
dtype_number DLiteType.ref = 7
dtype_number DLiteType.dimension = 8
dtype_number DLiteType.property = 9
dtype_number DLiteType.relation = 10

-- What the build finds out.
pub record Build : Type 0 where
  pub have_float80 : Bool
  pub have_float96 : Bool
  pub have_float128 : Bool
  pub float80_alignment : ℕ
  pub float96_alignment : ℕ
  pub float128_alignment : ℕ
  pub long_double_size : ℕ
  pub long_double_alignment : ℕ

pub record TypeDescr : Type 0 where
  pub typename : Text
  pub dtype : DLiteType
  pub size : ℕ
  pub alignment : ℕ

abbrev pub descr : Text → DLiteType → ℕ → ℕ → TypeDescr
descr typename dtype size alignment = record {
  typename = typename;
  dtype = dtype;
  size = size;
  alignment = alignment;
}

-- The table up to the long floats.
abbrev pub short_types : Build → List TypeDescr → List TypeDescr
short_types build rest =
    descr (codes "bool") DLiteType.bool 1 1
    ∷ descr (codes "int") DLiteType.int 8 8
    ∷ descr (codes "integer") DLiteType.int 8 8
    ∷ descr (codes "int8") DLiteType.int 1 1
    ∷ descr (codes "int16") DLiteType.int 2 2
    ∷ descr (codes "int32") DLiteType.int 4 4
    ∷ descr (codes "int64") DLiteType.int 8 8
    ∷ descr (codes "uint") DLiteType.uint 8 8
    ∷ descr (codes "uint8") DLiteType.uint 1 1
    ∷ descr (codes "uint16") DLiteType.uint 2 2
    ∷ descr (codes "uint32") DLiteType.uint 4 4
    ∷ descr (codes "uint64") DLiteType.uint 8 8
    ∷ descr (codes "float") DLiteType.float 8 8
    ∷ descr (codes "single") DLiteType.float 4 4
    ∷ descr (codes "double") DLiteType.float 8 8
    ∷ descr (codes "longdouble") DLiteType.float build.long_double_size build.long_double_alignment
    ∷ descr (codes "float32") DLiteType.float 4 4
    ∷ descr (codes "float64") DLiteType.float 8 8
    ∷ rest

abbrev pub long_floats : Build → List TypeDescr → List TypeDescr
long_floats build rest =
    cons_if build.have_float80 (descr (codes "float80") DLiteType.float 10 build.float80_alignment)
      (cons_if build.have_float96
        (descr (codes "float96") DLiteType.float 12 build.float96_alignment)
        (cons_if build.have_float128
          (descr (codes "float128") DLiteType.float 16 build.float128_alignment) rest))

abbrev pub other_types : List TypeDescr
other_types =
    descr (codes "string") DLiteType.string_ptr 8 8
    ∷ descr (codes "str") DLiteType.string_ptr 8 8
    ∷ descr (codes "ref") DLiteType.ref 8 8
    ∷ descr (codes "dimension") DLiteType.dimension 16 8
    ∷ descr (codes "property") DLiteType.property 64 8
    ∷ descr (codes "relation") DLiteType.relation 40 8
    ∷ []

unfoldable pub type_table : Build → List TypeDescr
type_table build = short_types build (long_floats build other_types)
