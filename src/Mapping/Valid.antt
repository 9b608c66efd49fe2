-- ===== src/Mapping/Valid.antt =====
-- What a tree of mappings from src/dlite-mapping.c is, independently of the search for it, and
-- what one call of the search keeps.
use dlite.Base.{
  ℕ, ◌≡◌, ◌⊎◌, ◌∙◌, Bool, true, false, ◌||◌, text_eq, sym, List, [], ◌∷◌, Option, none, some, Text,
  ℤ, ◌+ℤ◌, get_elem?, total, of_bool, not,
}
use dlite.StringMap.{StringMapOf}
use dlite.Mapping.{Plugin, Mapping, Inputs, Search, output_uri_of, cost_of, is_some}

module _ (plugins : List Plugin) (given : Text → Bool) where
  -- A tree: every mapping is that of a plugin, its inputs are those that the plugin declares, an
  -- input instance wherever there is one and a tree otherwise, and its cost is the plugin's with
  -- those of its subtrees.
  abbrev mutual
    pub Valid : Mapping → Type 0
    Valid (Mapping.mapping none uri ins cost) = ⊥
    Valid (Mapping.mapping (some p) uri ins cost) =
        ((i : ℕ) × (get_elem? plugins i ≡ some p))
        × (uri ≡ p.output_uri)
        × ValidInputs p.cost ins p.input_uris cost

    pub ValidInputs : ℤ → Inputs → List Text → ℤ → Type 0
    ValidInputs cost Inputs.end [] sum = cost ≡ sum
    ValidInputs cost Inputs.end (v ∷ vs) sum = ⊥
    ValidInputs cost (Inputs.input_uri uri ins) [] sum = ⊥
    ValidInputs cost (Inputs.input_uri uri ins) (v ∷ vs) sum =
        (uri ≡ v) × (given v ≡ true) × ValidInputs cost ins vs sum
    ValidInputs cost (Inputs.input_map m ins) [] sum = ⊥
    ValidInputs cost (Inputs.input_map m ins) (v ∷ vs) sum =
        (output_uri_of m ≡ v)
        × (given v ≡ false)
        × Valid m
        × ValidInputs (cost +ℤ cost_of m) ins vs sum

mutual
  Valid-congr :
      (plugins : List Plugin) (given other : Text → Bool)
      → ((k : Text) → given k ≡ other k)
      → (m : Mapping) → Valid plugins given m
      → Valid plugins other m
  Valid-congr plugins given other h (Mapping.mapping none uri ins cost) v = absurd v
  Valid-congr plugins given other h (Mapping.mapping (some p) uri ins cost) (at, e, v) =
      (at, e, ValidInputs-congr plugins given other h p.cost ins p.input_uris cost v)

  ValidInputs-congr :
      (plugins : List Plugin) (given other : Text → Bool)
      → ((k : Text) → given k ≡ other k)
      → (cost : ℤ) (ins : Inputs) (uris : List Text) (sum : ℤ)
      → ValidInputs plugins given cost ins uris sum
      → ValidInputs plugins other cost ins uris sum
  ValidInputs-congr plugins given other h cost Inputs.end [] sum v = v
  ValidInputs-congr plugins given other h cost Inputs.end (u ∷ us) sum v = absurd v
  ValidInputs-congr plugins given other h cost (Inputs.input_uri uri ins) [] sum v = absurd v
  ValidInputs-congr plugins given other h cost (Inputs.input_uri uri ins) (u ∷ us) sum (e, at, v) =
      (e, sym (h u) ∙ at, ValidInputs-congr plugins given other h cost ins us sum v)
  ValidInputs-congr plugins given other h cost (Inputs.input_map m ins) [] sum v = absurd v
  ValidInputs-congr plugins given other h cost (Inputs.input_map m ins) (u ∷ us) sum
        (e, at, tree, v) =
      (
        e,
        sym (h u) ∙ at,
        Valid-congr plugins given other h m tree,
        ValidInputs-congr plugins given other h (cost +ℤ cost_of m) ins us sum v,
      )

-- The same trees, where the same inputs are given.
pub tree_of_same :
    (plugins : List Plugin) (given other : Text → Bool)
    → ((k : Text) → given k ≡ other k)
    → (m : Mapping) → Valid plugins given m
    → Valid plugins other m
tree_of_same = Valid-congr

-- Whether `uri` is listed.
abbrev pub is_listed : List Text → Text → Bool
is_listed [] uri = false
is_listed (u ∷ uris) uri = text_eq u uri || is_listed uris uri

-- What a search for `uri` may return.
unfoldable pub Answer : List Plugin → Text → (Text → Bool) → Mapping → Type 0
Answer plugins uri given m =
    (output_uri_of m ≡ uri)
    × (((given uri ≡ true)
          × (m ≡ Mapping.mapping none uri (Inputs.input_uri uri Inputs.end) (ℤ.pos 0)))
        ⊎ ((given uri ≡ false) × Valid plugins given m))

module _ {I M : Type 0} (sets : StringMapOf (Option Text) I)
    (ops : StringMapOf (Option Mapping) M) where
  -- What a call keeps: the visited URIs, what has been created, and that nothing is created for a
  -- visited URI.
  pub record Kept (s t : Search M) : Type 0 where
    pub visited : (k : Text) → ops.get t.visited k ≡ ops.get s.visited k
    pub created :
        (k : Text) (o : Option Mapping)
        → ops.get s.created k ≡ some o
        → ops.get t.created k ≡ some o
    pub guarded :
        (k : Text) (o : Option Mapping)
        → ops.get s.visited k ≡ some o
        → ops.get t.created k ≡ ops.get s.created k

  -- Whether there is an input instance.
  abbrev pub given_by : I → Text → Bool
  given_by inputs uri = is_some (sets.get inputs uri)

  -- The created mappings are trees for their keys.
  abbrev pub Sound : List Plugin → I → M → Type 0
  Sound plugins inputs created =
      (k : Text) (m : Mapping)
      → ops.get created k ≡ some (some m)
      → (output_uri_of m ≡ k) × Valid plugins (given_by inputs) m

  -- The cost with that of all inputs, which are instances or created.
  abbrev pub Priced : I → M → ℤ → List Text → ℤ → Type 0
  Priced inputs created cost [] sum = cost ≡ sum
  Priced inputs created cost (v ∷ vs) sum =
      ((is_some (sets.get inputs v) ≡ true) × Priced inputs created cost vs sum)
      ⊎ ((m : Mapping) × (sets.get inputs v ≡ none)
          × (ops.get created v ≡ some (some m))
          × Priced inputs created (cost +ℤ cost_of m) vs sum)

  -- The number of plugins whose output has not been visited.
  abbrev pub unvisited : List Plugin → M → ℕ
  unvisited plugins visited =
      total (λ p. of_bool (not (is_some (ops.get visited p.output_uri)))) plugins

  -- What a successful search for `uri` returns.
  pub record Found (plugins : List Plugin) (inputs : I) (uri : Text) (created : M) (m : Mapping)
      : Type 0 where
    pub output : output_uri_of m ≡ uri
    pub valid : Valid plugins (given_by inputs) m
    pub kept : ops.get created uri ≡ some (some m)

  -- What a call of the search for `uri` does to `s`.
  abbrev pub Searched : List Plugin → I → Text → Search M → Search M × Option Mapping → Type 0
  Searched plugins inputs uri s (t, o) =
      Kept s t
      × Sound plugins inputs t.created
      × ((m : Mapping) → o ≡ some m → Found plugins inputs uri t.created m)

  -- What the loop over the inputs does.
  abbrev pub Realised : List Plugin → I → ℤ → List Text → Search M → Search M × Option ℤ → Type 0
  Realised plugins inputs cost uris s (t, o) =
      Kept s t
      × Sound plugins inputs t.created
      × ((sum : ℤ) → o ≡ some sum → Priced inputs t.created cost uris sum)

  -- The plugin that is chosen, at its cost.
  pub record Chosen (plugins : List Plugin) (inputs : I) (uri : Text) (created : M) (p : Plugin)
      (cost : ℤ) : Type 0 where
    pub listed : (i : ℕ) × (get_elem? plugins i ≡ some p)
    pub output : uri ≡ p.output_uri
    pub priced : Priced inputs created p.cost p.input_uris cost

  -- What the loop over the plugins does.
  abbrev pub Compared : List Plugin → I → Text → Search M → Search M × Option (Plugin × ℤ) → Type 0
  Compared plugins inputs uri s (t, o) =
      Kept s t
      × Sound plugins inputs t.created
      × ((p : Plugin) (cost : ℤ) → o ≡ some (p, cost) → Chosen plugins inputs uri t.created p cost)
