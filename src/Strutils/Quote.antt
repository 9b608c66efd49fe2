-- ===== src/Strutils/Quote.antt =====
-- `strnquote` and `strnunquote` of src/utils/strutils.c. The length limit `n` is none where the
-- source has a negative one.
use dlite.Base.{
  ℕ, zero, suc, ◌+◌, Bool, true, false, not, ◌&&◌, ◌||◌, List, [], ◌∷◌, Option, none, some, Text,
  leb, ◌==◌, if◌then◌else◌,
}
use dlite.Strutils.Buffer.{Output, emit, terminate}

-- `StrquoteFlags`, a flag for each bit.
pub record QuoteFlags : Type 0 where
  pub initial_blanks : Bool
  pub no_quote : Bool
  pub no_escape : Bool

abbrev pub backslash : ℕ
backslash = 92

-- `isspace` in the C locale.
abbrev pub is_space : ℕ → Bool
is_space c = c == 32 || (leb 9 c && leb c 13)

-- `n < 0 || (int)j < n`, where `n` counts the bytes that are left.
abbrev pub may_read : Option ℕ → Bool
may_read none = true
may_read (some zero) = false
may_read (some (suc n)) = true

abbrev pub one_less : Option ℕ → Option ℕ
one_less none = none
one_less (some zero) = some zero
one_less (some (suc n)) = some n

-- A round of the loop of `strnquote`.
abbrev pub quote_byte : QuoteFlags → Output → ℕ → Output
quote_byte flags out c =
    emit (if c == b'"' && not flags.no_escape then emit out backslash else out) c

unfoldable pub quote_loop : QuoteFlags → Option ℕ → Text → Output → Output
quote_loop flags n [] out = out
quote_loop flags n (c ∷ s) out = elim (may_read n) [
  | true ↦ quote_loop flags (one_less n) s (quote_byte flags out c)
  | false ↦ out
]

-- The quote sign at either end.
abbrev pub quote_sign : QuoteFlags → Output → Output
quote_sign flags out = if flags.no_quote then out else emit out b'"'

-- The buffer, and the number of bytes that the whole result has.
unfoldable pub strnquote : List ℕ → Text → Option ℕ → QuoteFlags → List ℕ × ℕ
unfolding quote_loop terminate
strnquote dest s n flags =
    let out =
      quote_sign flags (quote_loop flags n s (quote_sign flags (record { buf = dest; pos = 0 }))) in
    (terminate out.buf out.pos, out.pos)

abbrev pub no_flags : QuoteFlags
no_flags = record { initial_blanks = false; no_quote = false; no_escape = false }

unfoldable pub strquote : List ℕ → Text → List ℕ × ℕ
unfolding strnquote
strquote dest s = strnquote dest s none no_flags

-- What is left to read, the number of bytes read, and what is written.
pub record Reader : Type 0 where
  pub rest : Text
  pub read : ℕ
  pub out : Output

unfoldable pub skip_blanks : Text → ℕ → Text × ℕ
skip_blanks [] j = ([], j)
skip_blanks (c ∷ s) j = elim (is_space c) [ true ↦ skip_blanks s (j + 1) | false ↦ (c ∷ s, j) ]

-- `n >= 0 && (int)j >= n`
abbrev pub is_spent : Option ℕ → ℕ → Bool
is_spent none j = false
is_spent (some n) j = leb n j

-- The loop of `strnunquote`, which ends at the end of `s`, at an unescaped quote sign and at the
-- length limit.
unfoldable pub unquote_loop : QuoteFlags → Option ℕ → Text → ℕ → Output → Reader
unquote_loop flags n [] j out = record { rest = []; read = j; out = out }
unquote_loop flags n (c ∷ []) j out = elim (not flags.no_quote && c == b'"') [
  | true ↦ record { rest = c ∷ []; read = j; out = out }
  | false ↦ elim (is_spent n j) [
    | true ↦ record { rest = c ∷ []; read = j; out = out }
    | false ↦ record { rest = []; read = j + 1; out = emit out c }
  ]
]
unquote_loop flags n (c ∷ d ∷ s) j out = elim (not flags.no_quote && c == b'"') [
  | true ↦ record { rest = c ∷ d ∷ s; read = j; out = out }
  | false ↦ elim (not flags.no_escape && (c == backslash && d == b'"')) [
    | true ↦ elim (is_spent n (j + 1)) [
      | true ↦ record { rest = d ∷ s; read = j + 1; out = out }
      | false ↦ unquote_loop flags n s (j + 1 + 1) (emit out d)
    ]
    | false ↦ elim (is_spent n j) [
      | true ↦ record { rest = c ∷ d ∷ s; read = j; out = out }
      | false ↦ unquote_loop flags n (d ∷ s) (j + 1) (emit out c)
    ]
  ]
]

-- The result of `strnunquote`: the codes -1 and -2, or the buffer, the number of bytes that the
-- whole result has, and the number of bytes consumed.
pub data Unquoted : Type 0 where
  no_start : Unquoted
  no_end : Unquoted
  unquoted : List ℕ → ℕ → ℕ → Unquoted

abbrev pub consumed : Option ℕ → ℕ → ℕ
consumed none j = j
consumed (some n) j = if leb n j then n else j

-- The test for the final quote sign.
unfoldable pub end_quote : Text → List ℕ → ℕ → ℕ → Unquoted
end_quote [] buf pos j = no_end
end_quote (c ∷ rest) buf pos j = if c == b'"' then unquoted buf pos j else no_end

-- From the byte behind the initial quote sign on.
unfoldable pub unquote_body : List ℕ → Option ℕ → QuoteFlags → Text → ℕ → Unquoted
unfolding unquote_loop terminate end_quote
unquote_body dest n flags s j =
    let r = unquote_loop flags n s j (record { buf = dest; pos = 0 }) in
    if flags.no_quote
    then unquoted (terminate r.out.buf r.out.pos) r.out.pos (consumed n r.read)
    else end_quote r.rest (terminate r.out.buf r.out.pos) r.out.pos (consumed n (r.read + 1))

-- The test for the initial quote sign.
unfoldable pub start_quote : List ℕ → Option ℕ → QuoteFlags → Text × ℕ → Unquoted
unfolding unquote_body
start_quote dest n flags ([], j) =
    if flags.no_quote then unquote_body dest n flags [] j else no_start
start_quote dest n flags (c ∷ s, j) =
    if flags.no_quote
    then unquote_body dest n flags (c ∷ s) j
    else if c == b'"'
    then unquote_body dest n flags s (j + 1)
    else no_start

-- `!(flags && strquoteInitialBlanks)`: blanks are skipped where no flag at all is set.
abbrev pub skips_blanks : QuoteFlags → Bool
skips_blanks flags = not (flags.initial_blanks || (flags.no_quote || flags.no_escape))

unfoldable pub strnunquote : List ℕ → Text → Option ℕ → QuoteFlags → Unquoted
unfolding start_quote skip_blanks
strnunquote dest s n flags =
    start_quote dest n flags (if skips_blanks flags then skip_blanks s 0 else (s, 0))

unfoldable pub strunquote : List ℕ → Text → QuoteFlags → Unquoted
unfolding strnunquote
strunquote dest s flags = strnunquote dest s none flags
