-- ===== src/Tests/Types.antt =====
-- Runs of the functions on types, layouts and URIs of metadata, and the theorems at concrete inputs.
use dlite.Base.{
  ℕ, ◌+◌, List, get_elem?, ◌*◌, ◌<◌, ◌≤◌, ◌≡◌, refl, true, false, none, some, Text, [], ◌∷◌, codes,
  arith, inl, inr, done, fault,
}
use dlite.Infix.Operators.{value}
use dlite.Infix.Calc.{infixcalc}
use dlite.Entity.Dims.{dimension_variables, instance_propdims_eval, propdiminds_loop}
use dlite.Entity.Shapes.{
  all_sizes, any_last_fails, shape_sizes, unless_fails, instance_propdims_eval_lem,
  propdiminds-instance_propdims_eval,
}
use dlite.MetaUri.{
  dlite_join_meta_uri, dlite_split_meta_uri, dlite_split_meta_uri-dlite_join_meta_uri,
}
use dlite.Types.Table.{DLiteType, Build}
use dlite.Types.Names.{
  dlite_type_set_typename, dlite_type_set_dtype_and_size, dlite_is_type, dlite_type_get_dtype,
}
use dlite.Types.Alignment.{dlite_type_get_alignment, dlite_type_get_member_offset}
use dlite.Types.RoundTrip.{set_dtype_and_size-set_typename}
use dlite.Types.Padding.{IsNextMultiple}
use dlite.Entity.Layout.{DLiteMeta, Layout, init_layout, dlite_instance_size}
use dlite.Entity.Segments.{Follow, segments_of, last_end, sizeof_relation, init_layout-segments_of}

abbrev pub linux : Build
linux = record {
  have_float80 = false;
  have_float96 = false;
  have_float128 = true;
  float80_alignment = 16;
  float96_alignment = 16;
  float128_alignment = 16;
  long_double_size = 16;
  long_double_alignment = 16;
}

named : dlite_type_set_typename DLiteType.fix_string 11 20 ≡ some (codes "string10")
unfolding dlite_type_set_typename
named = refl

cut_short : dlite_type_set_typename DLiteType.int 4 4 ≡ some (codes "int")
unfolding dlite_type_set_typename
cut_short = refl

read_sized :
    dlite_type_set_dtype_and_size linux (codes "str10[3]") ≡ some (DLiteType.fix_string, 11)
unfolding dlite_type_set_dtype_and_size
read_sized = refl

read_uri :
    dlite_type_set_dtype_and_size linux (codes "http://onto.org/0.1/Item") ≡ some (DLiteType.ref, 8)
unfolding dlite_type_set_dtype_and_size
read_uri = refl

read_prefix : dlite_type_set_dtype_and_size linux (codes "uint1") ≡ some (DLiteType.uint, 2)
unfolding dlite_type_set_dtype_and_size
read_prefix = refl

no_size : dlite_type_set_dtype_and_size linux (codes "blob") ≡ none
unfolding dlite_type_set_dtype_and_size
no_size = refl

described : dlite_type_get_dtype (codes "fixstring") ≡ some DLiteType.fix_string
unfolding dlite_type_get_dtype
described = refl

placed : dlite_type_get_member_offset linux 8 5 DLiteType.float 8 ≡ some 16
unfolding dlite_type_get_member_offset
placed = refl

set_dtype_and_size-set_typename_example :
    dlite_type_set_dtype_and_size linux (codes "string10") ≡ some (DLiteType.fix_string, 11)
unfolding dlite_type_set_typename
set_dtype_and_size-set_typename_example =
    set_dtype_and_size-set_typename linux DLiteType.fix_string 11 20 (codes "string10")
      (omega arith, omega arith) refl (omega arith)

prefix_taken : dlite_is_type linux (codes "sin") ≡ true
unfolding dlite_is_type
prefix_taken = refl

-- Two dimensions, a Boolean, an array of floats and a fixed string.
abbrev person : DLiteMeta
person = record {
  headersize = 72;
  ndimensions = 2;
  properties =
      record { type = DLiteType.bool; size = 1; ndims = 0 }
      ∷ record { type = DLiteType.float; size = 8; ndims = 2 }
      ∷ record { type = DLiteType.fix_string; size = 3; ndims = 0 }
      ∷ [];
  nrelations = 1;
}

laid_out :
    init_layout linux person 0
    ≡ some (record {
      dimoffset = 72;
      propoffsets = 88 ∷ 96 ∷ 104 ∷ [];
      reloffset = 112;
      propdimsoffset = 120;
      propdimindsoffset = 136;
    })
unfolding init_layout
laid_out = refl

abbrev unrelated : DLiteMeta
unrelated = record person { nrelations = 0 }

init_layout-segments_of_example :
    (layout : Layout) × ((init_layout linux unrelated 0 ≡ some layout)
      × ((unrelated.nrelations ≡ 0
            → Follow 72 (segments_of linux unrelated layout none) (last_end unrelated layout none)
              × (last_end unrelated layout none ≤ dlite_instance_size layout none))
          × (0 < unrelated.nrelations
              → (layout.propdimsoffset < layout.reloffset + unrelated.nrelations * sizeof_relation)
                × IsNextMultiple 8
                    (layout.reloffset + unrelated.nrelations * 8)
                    layout.propdimsoffset)))
unfolding dlite_type_get_alignment
init_layout-segments_of_example =
    init_layout-segments_of linux unrelated 0 none
      (inl refl, (inr (inr (inr (inl refl))), (inl refl, tt)))

only_slash : dlite_split_meta_uri (codes "/Item") ≡ fault
unfolding dlite_split_meta_uri
only_slash = refl

dlite_split_meta_uri-dlite_join_meta_uri_example :
    (uri : Text) × ((dlite_join_meta_uri
          (some (codes "Item"))
          (some (codes "0.1"))
          (some (codes "http://onto.org"))
        ≡ some uri)
      × (dlite_split_meta_uri uri
          ≡ done (some (codes "Item", (codes "0.1", codes "http://onto.org")))))
dlite_split_meta_uri-dlite_join_meta_uri_example =
    dlite_split_meta_uri-dlite_join_meta_uri b'h' (codes "ttp://onto.org") (codes "0.1")
      (codes "Item") (refl, (refl, (refl, tt))) (refl, (refl, (refl, (refl, tt))))

abbrev matrix_dims : List (Text × ℕ)
matrix_dims = (codes "N", 2) ∷ (codes "M", 3) ∷ []

abbrev matrix_shapes : List (List Text)
matrix_shapes = (codes "N" ∷ codes "M+1" ∷ []) ∷ [] ∷ (codes "N*M" ∷ []) ∷ []

evaluated : instance_propdims_eval matrix_dims matrix_shapes ≡ value (some (2 ∷ 4 ∷ 6 ∷ []))
unfolding instance_propdims_eval
evaluated = refl

lost_error :
    instance_propdims_eval matrix_dims ((codes "K" ∷ codes "M" ∷ []) ∷ [])
    ≡ value (some (18446744071562067968 ∷ 3 ∷ []))
unfolding instance_propdims_eval
lost_error = refl

instance_propdims_eval_lem_example :
    instance_propdims_eval matrix_dims ((codes "K" ∷ codes "M" ∷ []) ∷ [])
    ≡ value (
        unless_fails
          (any_last_fails (dimension_variables matrix_dims) ((codes "K" ∷ codes "M" ∷ []) ∷ []))
          (all_sizes (dimension_variables matrix_dims) ((codes "K" ∷ codes "M" ∷ []) ∷ [])))
unfolding infixcalc dimension_variables
instance_propdims_eval_lem_example =
    instance_propdims_eval_lem matrix_dims ((codes "K" ∷ codes "M" ∷ []) ∷ [])
      ((refl, (refl, tt)), tt)

propdiminds-instance_propdims_eval_example :
    get_elem? (2 ∷ 4 ∷ 6 ∷ []) (2 + 0)
    ≡ get_elem? (shape_sizes (dimension_variables matrix_dims) (codes "N*M" ∷ [])) 0
unfolding infixcalc dimension_variables instance_propdims_eval propdiminds_loop
propdiminds-instance_propdims_eval_example =
    propdiminds-instance_propdims_eval matrix_dims matrix_shapes (2 ∷ 4 ∷ 6 ∷ []) 2 2 0
      (codes "N*M" ∷ []) ((refl, (refl, tt)), (tt, ((refl, tt), tt))) refl refl refl (omega arith)
