-- ===== src/Entity/Layout.antt =====
-- The part of `dlite_meta_init` of src/dlite-entity.c that lays out the memory of an instance, and
-- the size that is allocated for it.
use dlite.Base.{ℕ, ◌+◌, ◌*◌, true, false, Option, none, some, List, [], ◌∷◌, ◌==◌}
use dlite.Types.Table.{DLiteType, Build}
use dlite.Types.Alignment.{padding, dlite_type_padding_at}

-- The fields of a property that the layout depends on.
pub record DLiteProperty : Type 0 where
  pub type : DLiteType
  pub size : ℕ
  pub ndims : ℕ

-- The fields of the metadata that the layout depends on.
pub record DLiteMeta : Type 0 where
  pub headersize : ℕ
  pub ndimensions : ℕ
  pub properties : List DLiteProperty
  pub nrelations : ℕ

-- The offsets that `dlite_meta_init` assigns.
pub record Layout : Type 0 where
  pub dimoffset : ℕ
  pub propoffsets : List ℕ
  pub reloffset : ℕ
  pub propdimsoffset : ℕ
  pub propdimindsoffset : ℕ

abbrev pub npropdims : List DLiteProperty → ℕ
npropdims [] = 0
npropdims (p ∷ properties) = p.ndims + npropdims properties

-- Where a property is placed behind `size` bytes; none for a failed assertion.
unfoldable pub property_offset : Build → DLiteProperty → ℕ → Option ℕ
unfolding padding dlite_type_padding_at
property_offset build p size = elim (p.ndims == 0) [
  | false ↦ some (size + padding 8 size)
  | true ↦ elim (dlite_type_padding_at build p.type p.size size) [
    | none ↦ none
    | some k ↦ some (size + k)
  ]
]

-- An array is a pointer to its values.
abbrev pub property_size : DLiteProperty → ℕ
property_size p = elim (p.ndims == 0) [ false ↦ 8 | true ↦ p.size ]

-- The loop over the properties: their offsets, and the size behind them.
unfoldable pub propoffsets_loop : Build → List DLiteProperty → ℕ → Option (List ℕ × ℕ)
unfolding property_offset
propoffsets_loop build [] size = some ([], size)
propoffsets_loop build (p ∷ properties) size = elim (property_offset build p size) [
  | none ↦ none
  | some offset ↦ elim (propoffsets_loop build properties (offset + property_size p)) [
    | none ↦ none
    | some r ↦ some (offset ∷ r.0, r.1)
  ]
]

-- The size behind the dimensions; an instance without dimensions has none.
unfoldable pub dimensions_end : DLiteMeta → ℕ
unfolding padding
dimensions_end meta = elim (meta.ndimensions == 0) [
  | true ↦ meta.headersize
  | false ↦ meta.headersize + padding 8 meta.headersize + meta.ndimensions * 8
]

unfoldable pub relations_offset : DLiteMeta → ℕ → ℕ
unfolding padding
relations_offset meta size = elim (meta.nrelations == 0) [
  | true ↦ size
  | false ↦ size + padding 8 size
]

unfoldable pub propdims_offset : DLiteMeta → ℕ → ℕ
unfolding padding
propdims_offset meta reloffset = let size = reloffset + meta.nrelations * 8 in size + padding 8 size

unfoldable pub propdiminds_offset : DLiteMeta → ℕ → ℕ
unfolding padding
propdiminds_offset meta propdimsoffset =
    let size = propdimsoffset + npropdims meta.properties * 8 in size + padding 8 size

-- The offsets, with those of the properties and the size behind them. `dimoffset` stays as it was
-- where there are no dimensions.
unfoldable pub layout_of : DLiteMeta → ℕ → List ℕ → ℕ → Layout
unfolding padding relations_offset propdims_offset propdiminds_offset
layout_of meta dimoffset propoffsets end = record {
  dimoffset = elim (meta.ndimensions == 0) [
    | true ↦ dimoffset
    | false ↦ meta.headersize + padding 8 meta.headersize
  ];
  propoffsets = propoffsets;
  reloffset = relations_offset meta end;
  propdimsoffset = propdims_offset meta (relations_offset meta end);
  propdimindsoffset = propdiminds_offset meta (propdims_offset meta (relations_offset meta end));
}

unfoldable pub init_layout : Build → DLiteMeta → ℕ → Option Layout
unfolding propoffsets_loop dimensions_end layout_of
init_layout build meta dimoffset =
    elim (propoffsets_loop build meta.properties (dimensions_end meta)) [
      | none ↦ none
      | some r ↦ some (layout_of meta dimoffset (r.0) (r.1))
    ]

-- `nproperties` is the number of properties of an instance that is metadata itself, none for a data
-- instance.
unfoldable pub dlite_instance_size : Layout → Option ℕ → ℕ
unfolding padding
dlite_instance_size layout none = layout.propdimindsoffset + padding 8 layout.propdimindsoffset
dlite_instance_size layout (some nproperties) =
    let size = layout.propdimindsoffset + 2 * nproperties * 8 in size + padding 8 size

-- DLITE_PROPOFFSETSOFFSET for metadata with that many properties.
abbrev pub propoffsets_offset : Layout → ℕ → ℕ
propoffsets_offset layout nproperties = layout.propdimindsoffset + nproperties * 8
