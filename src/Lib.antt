-- ===== src/Lib.antt =====
-- dlite: the core of the C library, modelled from its sources.
--
-- Parts of the program.
-- Base and its children: shared names, C strings as byte lists (Text), calls that may fault
--   (Outcome), sums and permutations of lists.
-- StringMap: the interface of the map under src/utils/map.h, a parameter with its laws,
--   and the iteration over its keys.
-- Triple: src/triple.c. Triplestore and its children: src/triplestore-builtin.c and
--   src/triplestore.c. Store has the data and the reading operations, Update the operations that
--   change a store, Value triplestore_value; Invariant, Remove, Compact, Release, Add, Search,
--   Refinement, Datatypes and Defects have the theorems.
-- Strutils and its children: src/utils/strutils.c. Buffer and Append have writes to a bounded
--   buffer, Quote the quoting and unquoting functions, Escape and RoundTrip their theorems;
--   StringList has the allocated string lists and ListLimit their theorems; Category and Hex have
--   the character categories and strhex_decode with theirs; Version has the comparison of versions,
--   VersionOrder what it returns where it decides, and VersionLoop the theorems on its loop, whose
--   fuel is one more than there are bytes.
-- Arrays and its children: src/dlite-arrays.c. Array has the functions, Layout, Iterator and Views
--   their theorems. Pointers are integers (Base.Integers), strides and indices those that an
--   int holds.
-- Collection and its children: src/dlite-collection.c on the triple store. Relations has the
--   functions, Labels their theorems.
-- Bson and its children: src/utils/bson.c. Memory has reads and writes of bytes, Types the sizes,
--   Write and Parts the functions that build documents, Read those that read them; Layout has the
--   bytes of a document, and Append, Scan, Place, Find and Counting the theorems.
-- Infix and its children: src/utils/infixcalc.c. Operators has the table of operators and their
--   evaluation, Parse the tokens, Calc the stacks and loops; Tree has the expressions,
--   Meaning their values in the integers, Precedence, Brackets and Depend the theorems. The loops
--   are recursions on the text and the stacks.
-- Types and its children: src/dlite-type.c. Table has the types and their table, Names the reading
--   and writing of names, Declarations those for Fortran and C, Alignment the offsets of members;
--   Decimal, RoundTrip, Prefixes, Padding, Members and Dtypes have theorems. What the build finds
--   out of the long floats is the parameter Build.
-- Entity and its children: src/dlite-entity.c, the layout of an instance and the dimensions of its
--   properties, which Infix evaluates. Layout and Dims have the functions, Segments and Shapes the
--   theorems. MetaUri: the URIs of metadata of src/dlite-misc.c.
-- InstanceStore and its children: src/dlite-store.c on the string map. Store has the functions,
--   Balance the theorem on its references.
-- Url and its children: src/utils/urlsplit.c. Percent has percent-encoding and decoding, Span the
--   segments that jspn finds on fuel, one more than there are bytes, Split and Join the components
--   of a URL; Encode and Decode have the theorems on percent-encoding.
-- Mapping and its children: src/dlite-mapping.c. Mapping has the search for a tree of mappings,
--   Create the functions above it, Apply the use of a tree on instances with their reference
--   counts, Whole its deallocation and dlite_mapping; Ends, Valid, Steps, Choice, Trees, Answer,
--   Makes, Metadata and Release have the theorems. The recursion of the search is on fuel, one more
--   than there are plugins, and none of it is used up. What the mappers of plugins do is a parameter.
-- JsonStore and its child: src/utils/jstore.c on the string map; Refinement has the theorem.
-- Tests and its children: runs and theorems at concrete inputs.
--
-- A C struct is a record and a C function a function of the same name on it; a pointer that may be
-- NULL is an Option. A failed assert and a read outside an array are Outcome.fault. Loops over an
-- array are recursions on the slots that are left. Allocation is taken to succeed and counters to
-- stay below the size of their C types, except where it is written out what happens at the limit:
-- the strides, offsets and products of Arrays wrap around in an int, and an overflow that C leaves
-- undefined is Calc.undefined in Infix, Outcome.fault in the comparison of versions and Bson.stop in
-- the sizes of documents.
-- Not modelled: the storage plugins, the language bindings and the libraries that are copied into
-- the repository.
pub mod Arrays
pub mod Base
pub mod Bson
pub mod Collection
pub mod Entity
pub mod Infix
pub mod InstanceStore
pub mod JsonStore
pub mod Mapping
pub mod MetaUri
pub mod StringMap
pub mod Strutils
pub mod Tests
pub mod Triple
pub mod Triplestore
pub mod Types
pub mod Url
