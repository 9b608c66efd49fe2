-- ===== src/Tests/Strings.antt =====
-- Runs of the functions on strings, and the theorems on them.
use dlite.Base.{ℕ, ◌≡◌, refl, true, false, List, [], ◌∷◌, Text, arith, length, take, replicate}
use dlite.Strutils.Buffer.{c_string, NoNul}
use dlite.Strutils.Quote.{QuoteFlags, no_flags, strquote, strunquote, unquoted}
use dlite.Strutils.Escape.{quoted, strquote_lem}
use dlite.Strutils.RoundTrip.{strunquote-strquote}

-- A quote sign between two letters.
abbrev spoken : Text
spoken = b'a' ∷ b'"' ∷ b'b' ∷ []

abbrev room : List ℕ
room = replicate 7 1

spoken-NoNul : NoNul spoken
spoken-NoNul = (omega arith, (omega arith, (omega arith, tt)))

quote_spoken : strquote (1 ∷ room) spoken ≡ (b'"' ∷ b'a' ∷ 92 ∷ b'"' ∷ b'b' ∷ b'"' ∷ 0 ∷ 1 ∷ [], 6)
unfolding strquote
quote_spoken = refl

quote_cut : c_string (strquote (1 ∷ 1 ∷ 1 ∷ []) spoken).0 ≡ b'"' ∷ b'a' ∷ []
unfolding strquote c_string
quote_cut = refl

strquote_lem_example :
    ((strquote (1 ∷ room) spoken).1 ≡ length (quoted spoken))
    × (c_string (strquote (1 ∷ room) spoken).0 ≡ take (length room) (quoted spoken))
strquote_lem_example = strquote_lem spoken 1 room spoken-NoNul

strunquote-strquote_example :
    (dest : List ℕ) × (strunquote (1 ∷ room) (c_string (strquote (1 ∷ room) spoken).0) no_flags
      ≡ unquoted dest (length spoken) (length (quoted spoken)))
    × (c_string dest ≡ spoken)
unfolding quoted
strunquote-strquote_example =
    strunquote-strquote spoken 1 1 room room spoken-NoNul refl (omega arith) (omega arith)

abbrev folder : Text
folder = b'c' ∷ 92 ∷ []

abbrev no_escapes : QuoteFlags
no_escapes = record { initial_blanks = false; no_quote = false; no_escape = true }
