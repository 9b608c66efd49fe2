-- ===== src/Triplestore/Store.antt =====
-- src/triplestore-builtin.c: the builtin triple store, an array of triples with an index from
-- identifiers and a count of running iterators; the operations that only read triples.
use dlite.Base.{
  ℕ, zero, suc, ◌+◌, Bool, true, false, ◌&&◌, List, [], ◌∷◌, Option, none, some, Text, text_eq,
  if◌then◌else◌, length, get_elem?, drop, Outcome, done, fault,
}
use dlite.StringMap.{StringMap}
use dlite.Triple.{Triple}

-- The list `triples` holds the first `true_length` slots of the array, so that `true_length` is
-- its length; `size` counts the slots that are allocated.
pub record TripleStore (M : Type 0) : Type 0 where
  pub triples : List Triple
  pub length : ℕ
  pub size : ℕ
  pub index : M
  pub niter : ℕ
  pub freed : Bool
  pub ns : Option Text

abbrev pub true_length {ℓ} : {A : Type ℓ} → List A → ℕ
true_length = length

abbrev pub chunksize : ℕ
chunksize = 1024

-- `n - 1` on a `size_t`
abbrev pub decrement : ℕ → ℕ
decrement zero = 18446744073709551615
decrement (suc n) = n

-- `t->id` is not NULL.
abbrev pub is_live : Triple → Bool
is_live t = elim t.id [ none ↦ false | some _ ↦ true ]

-- The criteria of a search; one that is none matches everything.
pub record Criteria : Type 0 where
  pub s : Option Text
  pub p : Option Text
  pub o : Option Text
  pub d : Option Text

-- `!s || strcmp(s, t->s) == 0`
unfoldable pub matches_text : Option Text → Text → Bool
matches_text none t = true
matches_text (some s) t = text_eq s t

-- `!d || (t->d && strcmp(d, t->d) == 0)`
unfoldable pub matches_datatype : Option Text → Option Text → Bool
matches_datatype none t = true
matches_datatype (some d) none = false
matches_datatype (some d) (some t) = text_eq d t

-- As above, and an empty `d` matches what has no datatype.
unfoldable pub finds_datatype : Option Text → Option Text → Bool
finds_datatype none t = true
finds_datatype (some []) none = true
finds_datatype (some (c ∷ d)) none = false
finds_datatype (some d) (some t) = text_eq d t

-- The test of `triplestore_remove` and `triplestore_find_first`.
unfoldable pub is_match : Criteria → Triple → Bool
is_match c t =
    matches_text c.s t.s
    && (matches_text c.p t.p && (matches_text c.o t.o && matches_datatype c.d t.d))

-- The test of `triplestore_find`.
unfoldable pub is_found : Criteria → Triple → Bool
is_found c t =
    matches_text c.s t.s
    && (matches_text c.p t.p && (matches_text c.o t.o && finds_datatype c.d t.d))

-- The loops of the searches, over the slots from `pos` on: the triple and the position behind it.
unfoldable pub scan : (Triple → Bool) → List Triple → ℕ → Option Triple × ℕ
scan test [] pos = (none, pos)
scan test (t ∷ ts) pos = elim (is_live t && test t) [
  | true ↦ (some t, pos + 1)
  | false ↦ scan test ts (pos + 1)
]

-- The loop of `triplestore_poll`, which stays at the triple that it returns.
unfoldable pub scan_poll : List Triple → ℕ → Option Triple × ℕ
scan_poll [] pos = (none, pos)
scan_poll (t ∷ ts) pos = elim (is_live t) [ true ↦ (some t, pos) | false ↦ scan_poll ts (pos + 1) ]

module _ {M : Type 0} (ops : StringMap M) where
  unfoldable pub triplestore_create : TripleStore M
  triplestore_create = record {
    triples = [];
    length = 0;
    size = 0;
    index = ops.empty;
    niter = 0;
    freed = false;
    ns = none;
  }

  unfoldable pub triplestore_length : TripleStore M → ℕ
  triplestore_length ts = ts.length

  unfoldable pub triplestore_set_namespace : TripleStore M → Option Text → TripleStore M
  triplestore_set_namespace ts ns = record ts { ns = ns }

  unfoldable pub triplestore_get_namespace : TripleStore M → Option Text
  triplestore_get_namespace ts = ts.ns

  -- A slot behind the triples of the list holds what is left there, or is outside the array: it is
  -- a fault to read it.
  unfoldable pub triplestore_get : TripleStore M → Text → Outcome (Option Triple)
  triplestore_get ts id = elim (ops.get ts.index id) [
    | none ↦ done none
    | some n ↦ elim (get_elem? ts.triples n) [
      | none ↦ fault
      | some t ↦ if is_live t then done (some t) else done none
    ]
  ]

  unfoldable pub triplestore_find_first : TripleStore M → Criteria → Option Triple
  unfolding scan is_match matches_text matches_datatype
  triplestore_find_first ts c = (scan (is_match c) ts.triples 0).0

  -- A search state is its position; the store that it points to is passed along.
  unfoldable pub triplestore_init_state : TripleStore M → TripleStore M × ℕ
  triplestore_init_state ts = (record ts { niter = ts.niter + 1 }, 0)

  unfoldable pub triplestore_reset_state : ℕ → ℕ
  triplestore_reset_state pos = 0

  unfoldable pub triplestore_next : TripleStore M → ℕ → Option Triple × ℕ
  unfolding scan
  triplestore_next ts pos = scan (λ _. true) (drop pos ts.triples) pos

  unfoldable pub triplestore_poll : TripleStore M → ℕ → Option Triple × ℕ
  unfolding scan_poll
  triplestore_poll ts pos = scan_poll (drop pos ts.triples) pos

  unfoldable pub triplestore_find : TripleStore M → ℕ → Criteria → Option Triple × ℕ
  unfolding scan is_found matches_text finds_datatype
  triplestore_find ts pos c = scan (is_found c) (drop pos ts.triples) pos
