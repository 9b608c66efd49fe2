-- ===== src/Types/Dtypes.antt =====
-- The names of the types themselves in src/dlite-type.c.
use dlite.Base.{◌≡◌, refl, some}
use dlite.Types.Table.{DLiteType}
use dlite.Types.Names.{dlite_type_get_dtypename, dlite_type_get_dtype}

-- The name of each type is read as the type.
pub get_dtype-get_dtypename :
    (dtype : DLiteType) → dlite_type_get_dtype (dlite_type_get_dtypename dtype) ≡ some dtype
unfolding dlite_type_get_dtype dlite_type_get_dtypename
get_dtype-get_dtypename DLiteType.blob = refl
get_dtype-get_dtypename DLiteType.bool = refl
get_dtype-get_dtypename DLiteType.int = refl
get_dtype-get_dtypename DLiteType.uint = refl
get_dtype-get_dtypename DLiteType.float = refl
get_dtype-get_dtypename DLiteType.fix_string = refl
get_dtype-get_dtypename DLiteType.string_ptr = refl
get_dtype-get_dtypename DLiteType.ref = refl
get_dtype-get_dtypename DLiteType.dimension = refl
get_dtype-get_dtypename DLiteType.property = refl
get_dtype-get_dtypename DLiteType.relation = refl
