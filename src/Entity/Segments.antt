-- ===== src/Entity/Segments.antt =====
-- The segments of the memory of an instance.
use dlite.Base.{
  ℕ, ◌+◌, ◌*◌, ◌≤◌, ◌<◌, ◌≡◌, refl, inl, inr, Bool, true, false, Option, none, some, List, [], ◌∷◌,
  ◌++◌, arith, ◌==◌,
}
use dlite.Types.Table.{Build}
use dlite.Types.Alignment.{padding, dlite_type_padding_at, dlite_type_get_alignment}
use dlite.Types.Members.{padding_at-cases}
use dlite.Types.Padding.{IsAlignment, IsNextMultiple, padding-IsNextMultiple}
use dlite.Entity.Layout.{
  DLiteProperty, DLiteMeta, Layout, npropdims, property_offset, property_size, propoffsets_loop,
  dimensions_end, relations_offset, propdims_offset, propdiminds_offset, init_layout, layout_of,
  dlite_instance_size, propoffsets_offset,
}

pub record Segment : Type 0 where
  pub offset : ℕ
  pub size : ℕ
  pub alignment : ℕ

abbrev pub segment : ℕ → ℕ → ℕ → Segment
segment offset size alignment = record { offset = offset; size = size; alignment = alignment }

-- From `from` on, each segment starts at the first place behind the one before that its alignment
-- allows, and the last one ends at `to`.
abbrev pub Follow : ℕ → List Segment → ℕ → Type 0
Follow from [] to = from ≡ to
Follow from (s ∷ segments) to =
    IsNextMultiple s.alignment from s.offset × Follow (s.offset + s.size) segments to

pub Follow-append :
    (xs ys : List Segment) (from middle to : ℕ)
    → Follow from xs middle
    → Follow middle ys to
    → Follow from (xs ++ ys) to
Follow-append [] ys from middle to e h = rw e h
Follow-append (x ∷ xs) ys from middle to (here, rest) h =
    (here, Follow-append xs ys (x.offset + x.size) middle to rest h)

abbrev pub property_alignment : Build → DLiteProperty → ℕ
property_alignment build p = elim (p.ndims == 0) [
  | false ↦ 8
  | true ↦ dlite_type_get_alignment build p.type p.size
]

-- The types of scalar properties have an alignment.
abbrev pub Known : Build → List DLiteProperty → Type 0
Known build [] = Unit {0}
Known build (p ∷ properties) = IsAlignment (property_alignment build p) × Known build properties

abbrev pub property_segments : Build → List DLiteProperty → List ℕ → List Segment
property_segments build [] offsets = []
property_segments build (p ∷ properties) [] = []
property_segments build (p ∷ properties) (offset ∷ offsets) =
    segment offset (property_size p) (property_alignment build p)
    ∷ property_segments build properties offsets

offset_step :
    (b : Bool) (build : Build) (p : DLiteProperty) (size : ℕ)
    → IsAlignment
        (elim b as (λ _. ℕ) [ false ↦ 8 | true ↦ dlite_type_get_alignment build p.type p.size ])
    → elim b as (λ _. Option ℕ) [
      | false ↦ some (size + padding 8 size)
      | true ↦ elim (dlite_type_padding_at build p.type p.size size) as (λ _. Option ℕ) [
        | none ↦ none
        | some k ↦ some (size + k)
      ]
    ]
      ≡ some (
          size
          + padding
              (elim b as (λ _. ℕ) [
                | false ↦ 8
                | true ↦ dlite_type_get_alignment build p.type p.size
              ])
              size)
offset_step true build p size h = rw (padding_at-cases build p.type p.size size h) refl
offset_step false build p size h = refl

property_offset-padding :
    (build : Build) (p : DLiteProperty) (size : ℕ)
    → IsAlignment (property_alignment build p)
    → property_offset build p size ≡ some (size + padding (property_alignment build p) size)
unfolding property_offset
property_offset-padding build p size h = offset_step (p.ndims == 0) build p size h

propoffsets_loop-Follow :
    (build : Build) (properties : List DLiteProperty) (size : ℕ)
    → Known build properties
    → (offsets : List ℕ) × ((end : ℕ) × ((propoffsets_loop build properties size
            ≡ some (offsets, end))
          × Follow size (property_segments build properties offsets) end))
unfolding propoffsets_loop
propoffsets_loop-Follow build [] size h = ([], (size, (refl, refl)))
propoffsets_loop-Follow build (p ∷ properties) size (h, rest) =
    let offset = size + padding (property_alignment build p) size in
    let (offsets, (end, (e, follow))) =
      propoffsets_loop-Follow build properties (offset + property_size p) rest in
    (
      offset ∷ offsets,
      (
        end,
        (
          rw (property_offset-padding build p size h, propoffsets_loop)
              (rw (e, propoffsets_loop) refl),
          (padding-IsNextMultiple _ size h, follow),
        ),
      ),
    )

eight : IsAlignment 8
eight = inr (inr (inr (inl refl)))

-- The segments of the numbers that only metadata has.
abbrev pub index_segments : Layout → Option ℕ → List Segment
index_segments layout none = []
index_segments layout (some nproperties) =
    segment layout.propdimindsoffset (nproperties * 8) 8
    ∷ segment (propoffsets_offset layout nproperties) (nproperties * 8) 8
    ∷ []

abbrev pub array_unless : Bool → ℕ → ℕ → ℕ → List Segment
array_unless true offset count width = []
array_unless false offset count width = segment offset (count * width) 8 ∷ []

-- An array of elements of the width, which is left out where it has none.
abbrev pub array_segments : ℕ → ℕ → ℕ → List Segment
array_segments offset count width = array_unless (count == 0) offset count width

-- `sizeof(DLiteRelation)`, five pointers.
abbrev pub sizeof_relation : ℕ
sizeof_relation = 40

-- All segments behind the header: the dimensions, the properties, the relations, the sizes of the
-- dimensions of properties, and for metadata the indices and the offsets of the properties.
abbrev pub segments_of : Build → DLiteMeta → Layout → Option ℕ → List Segment
segments_of build meta layout nproperties =
    array_segments layout.dimoffset meta.ndimensions 8
    ++ (property_segments build meta.properties layout.propoffsets
        ++ (array_segments layout.reloffset meta.nrelations sizeof_relation
            ++ (segment layout.propdimsoffset (npropdims meta.properties * 8) 8
                ∷ index_segments layout nproperties)))

-- An array of `count` numbers behind `size` bytes, or nothing.
array_unless-Follow :
    (b : Bool) (size count offset start : ℕ)
    → offset ≡ elim b as (λ _. ℕ) [ true ↦ start | false ↦ size + padding 8 size ]
    → Follow size
        (array_unless b offset count 8)
        (elim b as (λ _. ℕ) [ true ↦ size | false ↦ size + padding 8 size + count * 8 ])
array_unless-Follow true size count offset start e = refl
array_unless-Follow false size count offset start e =
    rw e (padding-IsNextMultiple 8 size eight, refl)

dimensions-Follow :
    (meta : DLiteMeta) (start : ℕ)
    → Follow meta.headersize
        (array_segments
          (elim (meta.ndimensions == 0) as (λ _. ℕ) [
            | true ↦ start
            | false ↦ meta.headersize + padding 8 meta.headersize
          ])
          meta.ndimensions
          8)
        (dimensions_end meta)
unfolding dimensions_end
dimensions-Follow meta start =
    array_unless-Follow (meta.ndimensions == 0) meta.headersize meta.ndimensions _ start refl

-- Without relations nothing lies between the properties and the sizes of the dimensions.
relations-Follow :
    (meta : DLiteMeta) (size : ℕ)
    → meta.nrelations ≡ 0
    → Follow size
        (array_segments (relations_offset meta size) meta.nrelations sizeof_relation)
        (relations_offset meta size + meta.nrelations * 8)
unfolding relations_offset
relations-Follow meta size h = rw h (omega arith)

propdims-IsNextMultiple :
    (meta : DLiteMeta) (reloffset : ℕ)
    → IsNextMultiple 8 (reloffset + meta.nrelations * 8) (propdims_offset meta reloffset)
unfolding propdims_offset
propdims-IsNextMultiple meta reloffset = padding-IsNextMultiple 8 _ eight

propdiminds-IsNextMultiple :
    (meta : DLiteMeta) (propdimsoffset : ℕ)
    → IsNextMultiple 8
        (propdimsoffset + npropdims meta.properties * 8)
        (propdiminds_offset meta propdimsoffset)
unfolding propdiminds_offset
propdiminds-IsNextMultiple meta propdimsoffset = padding-IsNextMultiple 8 _ eight

-- Where the last segment ends.
abbrev pub last_end : DLiteMeta → Layout → Option ℕ → ℕ
last_end meta layout none = layout.propdimsoffset + npropdims meta.properties * 8
last_end meta layout (some nproperties) = propoffsets_offset layout nproperties + nproperties * 8

index-Follow :
    (meta : DLiteMeta) (layout : Layout) (nproperties : Option ℕ)
    → IsNextMultiple 8
        (layout.propdimsoffset + npropdims meta.properties * 8)
        layout.propdimindsoffset
    → Follow
        (layout.propdimsoffset + npropdims meta.properties * 8)
        (index_segments layout nproperties)
        (last_end meta layout nproperties)
index-Follow meta layout none h = refl
index-Follow meta layout (some n) h = (h, ((omega (arith, h), (omega arith, omega arith)), refl))

le_add : (x y k : ℕ) → x ≤ y → x ≤ y + k
le_add x y k h = omega (arith, h)

twice : (start n k : ℕ) → start + n * 8 + n * 8 ≤ start + 2 * n * 8 + k
twice start n k = omega arith

size-last_end :
    (meta : DLiteMeta) (layout : Layout) (nproperties : Option ℕ)
    → IsNextMultiple 8
        (layout.propdimsoffset + npropdims meta.properties * 8)
        layout.propdimindsoffset
    → last_end meta layout nproperties ≤ dlite_instance_size layout nproperties
unfolding dlite_instance_size
size-last_end meta layout none h = le_add _ _ _ (omega (arith, h))
size-last_end meta layout (some n) h = twice layout.propdimindsoffset n _

-- The place for the relations ends before the relations do.
relations_overlap :
    (meta : DLiteMeta) (reloffset : ℕ)
    → 0 < meta.nrelations
    → propdims_offset meta reloffset < reloffset + meta.nrelations * sizeof_relation
relations_overlap meta reloffset h =
    let next = propdims-IsNextMultiple meta reloffset in omega (arith, h, next)

-- With metadata whose scalar properties have types of known alignment: if it has no relations, the
-- segments of an instance follow one another behind the header without overlap, each at the first
-- place that its alignment allows, and they end within the size that is allocated. For an instance
-- that is metadata with a number of properties, the segments are also those of the indices and
-- offsets of its properties. If it has relations, of `sizeof(DLiteRelation)` bytes each, they
-- overlap the sizes of the dimensions of properties, which are placed behind 8 bytes for each.
pub init_layout-segments_of :
    (build : Build) (meta : DLiteMeta) (dimoffset : ℕ) (nproperties : Option ℕ)
    → Known build meta.properties
    → (layout : Layout) × ((init_layout build meta dimoffset ≡ some layout)
        × ((meta.nrelations ≡ 0
              → Follow meta.headersize
                  (segments_of build meta layout nproperties)
                  (last_end meta layout nproperties)
                × (last_end meta layout nproperties ≤ dlite_instance_size layout nproperties))
            × (0 < meta.nrelations
                → (layout.propdimsoffset < layout.reloffset + meta.nrelations * sizeof_relation)
                  × IsNextMultiple 8
                      (layout.reloffset + meta.nrelations * 8)
                      layout.propdimsoffset)))
unfolding init_layout layout_of
init_layout-segments_of build meta dimoffset nproperties h =
    let (offsets, (end, (e, follow))) =
      propoffsets_loop-Follow build meta.properties (dimensions_end meta) h in
    let reloffset = relations_offset meta end in
    let propdimsoffset = propdims_offset meta reloffset in
    let inds = propdiminds-IsNextMultiple meta propdimsoffset in
    (
      layout_of meta dimoffset offsets end,
      (
        rw (e, init_layout) refl,
        (
          λ no_relations. (
            Follow-append _ _ meta.headersize (dimensions_end meta) _
                (dimensions-Follow meta dimoffset)
                (Follow-append _ _ (dimensions_end meta) end _ follow (
                  Follow-append _ _ end (reloffset + meta.nrelations * 8) _
                    (relations-Follow meta end no_relations)
                    (
                      propdims-IsNextMultiple meta reloffset,
                      index-Follow meta (layout_of meta dimoffset offsets end) nproperties inds,
                    ))),
            size-last_end meta (layout_of meta dimoffset offsets end) nproperties inds,
          ),
          λ relations.
              (relations_overlap meta reloffset relations, propdims-IsNextMultiple meta reloffset),
        ),
      ),
    )
