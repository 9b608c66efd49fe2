-- ===== src/Strutils/RoundTrip.antt =====
-- What `strquote` writes and `strunquote` reads back.
use mathlib.Core.List.{append_assoc, append-nil}
use dlite.Base.{
  ℕ, ◌+◌, ◌≤◌, ◌≡◌, sym, ◌∙◌, ap, true, false, List, [], ◌∷◌, ◌++◌, Option, none, Text, arith, ◌==◌,
  length, length-append, take, take-all,
}
use dlite.Strutils.Buffer.{
  Output, emit_all, terminate, c_string, NoNul, pos-emit_all, c_string-emit_all,
}
use dlite.Strutils.Quote.{
  QuoteFlags, is_space, no_flags, strquote, Reader, skips_blanks, unquote_loop, Unquoted, no_start,
  no_end, unquoted, end_quote, start_quote, strnunquote, strunquote,
}
use dlite.Strutils.Escape.{
  escaped, quoted, ends_escaped, strquote_lem, unquote_loop-escaped, unquote_loop_spoilt,
}

-- The result from what the loop leaves.
abbrev finish : Reader → Unquoted
finish r = end_quote r.rest (terminate r.out.buf r.out.pos) r.out.pos (r.read + 1)

strunquote-quoted :
    (dest : List ℕ) (s rest : Text)
    → strunquote dest (quoted s ++ rest) no_flags
      ≡ finish
          (unquote_loop no_flags none (escaped s ++ b'"' ∷ rest) 1 (record { buf = dest; pos = 0 }))
unfolding strunquote quoted
strunquote-quoted dest s rest =
    ap (λ t. finish (unquote_loop no_flags none t 1 (record { buf = dest; pos = 0 })))
      (append_assoc (escaped s) (b'"' ∷ []) rest)

length-quoted : (s : Text) → length (quoted s) ≡ 1 + length (escaped s) + 1
unfolding quoted
length-quoted s = omega (arith, length-append (escaped s) (b'"' ∷ []))

-- `strunquote` consumes exactly the quoted text, whatever follows it, and returns the length of
-- the text that was quoted, if that text does not end in a backslash; the buffer, of at least one
-- byte, gets as much of the text as fits before the NUL.
pub strunquote-quoted_lem :
    (s rest : Text) (b : ℕ) (buf : List ℕ)
    → NoNul s
    → ends_escaped s ≡ false
    → (dest : List ℕ) × (strunquote (b ∷ buf) (quoted s ++ rest) no_flags
        ≡ unquoted dest (length s) (length (quoted s)))
      × (c_string dest ≡ take (length buf) s)
unfolding end_quote
strunquote-quoted_lem s rest b buf h good =
    let start : Output = record { buf = b ∷ buf; pos = 0 } in
    let size : (emit_all start s).pos ≡ length s = omega (arith, pos-emit_all start s) in
    let read : 1 + length (escaped s) + 1 ≡ length (quoted s) = sym (length-quoted s) in
    (
      terminate (emit_all start s).buf (length s),
      strunquote-quoted (b ∷ buf) s rest
          ∙ ap finish (unquote_loop-escaped s rest 1 start good)
          ∙ ap (λ k. unquoted (terminate (emit_all start s).buf k) k (1 + length (escaped s) + 1))
              size
          ∙ ap (λ k. unquoted (terminate (emit_all start s).buf (length s)) (length s) k) read,
      c_string-emit_all s b buf h,
    )

c_string-strquote :
    (s : Text) (b : ℕ) (buf : List ℕ)
    → NoNul s
    → length (quoted s) ≤ length buf
    → c_string (strquote (b ∷ buf) s).0 ≡ quoted s ++ []
c_string-strquote s b buf h room =
    (strquote_lem s b buf h).1 ∙ take-all (length buf) (quoted s) room ∙ sym (append-nil (quoted s))

-- A text without NUL that ends in a backslash does not survive: `strquote` writes it into a
-- large enough buffer, and `strunquote` finds no final quote sign there.
pub strunquote-strquote_spoilt :
    (s : Text) (b : ℕ) (buf dest : List ℕ)
    → NoNul s
    → ends_escaped s ≡ true
    → length (quoted s) ≤ length buf
    → strunquote dest (c_string (strquote (b ∷ buf) s).0) no_flags ≡ no_end
unfolding end_quote
strunquote-strquote_spoilt s b buf dest h bad room =
    let start : Output = record { buf = dest; pos = 0 } in
    let out : Reader = unquote_loop no_flags none (escaped s ++ b'"' ∷ []) 1 start in
    ap (λ t. strunquote dest t no_flags) (c_string-strquote s b buf h room)
    ∙ strunquote-quoted dest s []
    ∙ ap (λ t. end_quote t (terminate out.out.buf out.out.pos) out.out.pos (out.read + 1))
        (unquote_loop_spoilt s 1 start bad)

-- Quoting a text without NUL into a large enough buffer and unquoting what was written, into a
-- large enough buffer, gives the text back, if it does not end in a backslash.
pub strunquote-strquote :
    (s : Text) (b b' : ℕ) (buf buf' : List ℕ)
    → NoNul s
    → ends_escaped s ≡ false
    → length (quoted s) ≤ length buf
    → length s ≤ length buf'
    → (dest : List ℕ) × (strunquote (b' ∷ buf') (c_string (strquote (b ∷ buf) s).0) no_flags
        ≡ unquoted dest (length s) (length (quoted s)))
      × (c_string dest ≡ s)
strunquote-strquote s b b' buf buf' h good room room' =
    let (dest, result, read) = strunquote-quoted_lem s [] b' buf' h good in
    (
      dest,
      ap (λ t. strunquote (b' ∷ buf') t no_flags) (c_string-strquote s b buf h room) ∙ result,
      read ∙ take-all (length buf') s room',
    )

-- With `strquoteNoEscape` set and `strquoteNoQuote` unset, a text that starts with a blank is
-- refused, also where `strquoteInitialBlanks` is unset.
pub strnunquote_blank_lem :
    (dest : List ℕ) (c : ℕ) (s : Text) (n : Option ℕ) (flags : QuoteFlags)
    → is_space c ≡ true
    → flags.no_quote ≡ false
    → flags.no_escape ≡ true
    → strnunquote dest (c ∷ s) n flags ≡ no_start
unfolding strnunquote start_quote
strnunquote_blank_lem dest c s n flags space signs raw =
    let kept : skips_blanks flags ≡ false = ground arith in
    let other : (c == b'"') ≡ false = ground arith in rw (kept, start_quote, signs, other)
