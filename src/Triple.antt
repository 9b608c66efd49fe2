-- ===== src/Triple.antt =====
-- src/triple.c: subject-predicate-object triples and the identifiers that are made of their texts.
use dlite.Base.{
  ℕ, ◌+◌, ◌-◌, ◌/◌, ◌%◌, ◌≡◌, List, [], ◌∷◌, ◌++◌, Option, none, some, Text, Outcome, done, fault,
  ltb, if◌then◌else◌,
}

-- A stored triple. `id` is none where the store has marked the triple for removal.
pub record Triple : Type 0 where
  pub s : Text
  pub p : Text
  pub o : Text
  pub d : Option Text
  pub id : Option Text

-- The state of the module in the default session.
pub record TripleGlobals : Type 0 where
  pub default_namespace : Option Text

-- `session_get_state` gives no state before the first `triple_get_default_namespace`, and the
-- result is read without a test.
pub triple_set_default_namespace :
    Option TripleGlobals → Option Text → Outcome (Option TripleGlobals)
triple_set_default_namespace none namespace = fault
triple_set_default_namespace (some g) namespace =
    done (some (record g { default_namespace = namespace }))

unfoldable pub triple_get_default_namespace :
    Option TripleGlobals → Option TripleGlobals × Option Text
triple_get_default_namespace none = (some (record { default_namespace = none }), none)
triple_get_default_namespace (some g) = (some g, g.default_namespace)

-- src/utils/sha1.c, the public-domain SHA1 that the repository holds a copy of: a digest of the
-- bytes handed over, in whatever pieces.
pub record Sha1 (C : Type 0) : Type 0 where
  pub init : C
  pub update : C → Text → C
  pub final : C → List ℕ
  pub update-append : (c : C) (a b : Text) → update (update c a) b ≡ update c (a ++ b)

-- A digit of `%x`.
unfoldable pub hex_digit : ℕ → ℕ
hex_digit n = if ltb n 10 then b'0' + n else b'a' + n - 10

-- `%02x` of a byte.
unfoldable pub hex_byte : ℕ → Text
unfolding hex_digit
hex_byte b = hex_digit (b / 16) ∷ hex_digit (b % 16) ∷ []

unfoldable pub hex_bytes : List ℕ → Text
unfolding hex_byte
hex_bytes [] = []
hex_bytes (b ∷ bs) = hex_byte b ++ hex_bytes bs

-- The namespace that is put before a digest: the one given, or else the default one, if any.
unfoldable pub namespace_or : Option Text → Option Text → Text
namespace_or (some ns) default = ns
namespace_or none (some ns) = ns
namespace_or none none = []

-- `(s) ? s : ""`
unfoldable pub text_or_empty : Option Text → Text
text_or_empty none = []
text_or_empty (some s) = s

module _ {C : Type 0} (sha : Sha1 C) where
  -- The four updates of `triple_get_id`, the last one only for a literal's datatype.
  unfoldable pub triple_digest : Text → Text → Text → Option Text → List ℕ
  triple_digest s p o none = sha.final (sha.update (sha.update (sha.update sha.init s) p) o)
  triple_digest s p o (some d) =
      sha.final (sha.update (sha.update (sha.update (sha.update sha.init s) p) o) d)

  unfoldable pub triple_get_id :
      Option TripleGlobals
      → Option Text
      → Option Text
      → Option Text
      → Option Text
      → Option Text
      → Option Text
  unfolding triple_digest namespace_or triple_get_default_namespace hex_bytes
  triple_get_id g namespace (some s) (some p) (some o) d = some (
      namespace_or namespace (triple_get_default_namespace g).1
      ++ hex_bytes (triple_digest s p o d))
  triple_get_id g namespace _ _ _ d = none

  unfoldable pub triple_set :
      Option TripleGlobals
      → Option Text
      → Option Text
      → Option Text
      → Option Text
      → Option Text
      → Triple
  unfolding text_or_empty
  triple_set g s p o d id = record {
    s = text_or_empty s;
    p = text_or_empty p;
    o = text_or_empty o;
    d = d;
    id = elim id [ none ↦ triple_get_id g none s p o d | some i ↦ some i ];
  }
