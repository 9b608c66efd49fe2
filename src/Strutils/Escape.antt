-- ===== src/Strutils/Escape.antt =====
-- The escaped text that the loop of `strnquote` writes and that of `strnunquote` reads.
use dlite.Base.{
  ℕ, ◌+◌, ◌≡◌, refl, sym, ◌∙◌, ap, inl, inr, Bool, true, false, ◌&&◌, List, [], ◌∷◌, ◌++◌, none,
  Text, arith, ◌==◌, Bool-cases, length, take,
}
use dlite.Strutils.Buffer.{
  Output, emit, emit_all, terminate, c_string, NoNul, emit_all-append, pos-emit_all,
  c_string-emit_all,
}
use dlite.Strutils.Quote.{
  backslash, quote_loop, quote_sign, no_flags, strquote, Reader, unquote_loop,
}

-- The text with a backslash before each quote sign.
unfoldable pub escaped : Text → Text
escaped [] = []
escaped (c ∷ s) = elim (c == b'"') [ true ↦ backslash ∷ c ∷ escaped s | false ↦ c ∷ escaped s ]

-- The whole quoted text.
unfoldable pub quoted : Text → Text
unfolding escaped
quoted s = b'"' ∷ (escaped s ++ b'"' ∷ [])

-- The text ends in a backslash.
abbrev pub ends_escaped : Text → Bool
ends_escaped [] = false
ends_escaped (c ∷ []) = c == backslash
ends_escaped (c ∷ d ∷ s) = ends_escaped (d ∷ s)

quote_loop-escaped :
    (s : Text) (out : Output) → quote_loop no_flags none s out ≡ emit_all out (escaped s)
unfolding quote_loop emit_all escaped
quote_loop-escaped [] out = refl
quote_loop-escaped (c ∷ s) out = elim (Bool-cases (c == b'"')) [
  | inl quote ↦ rw (quote, escaped) (quote_loop-escaped s _)
  | inr other ↦ rw (other, escaped) (quote_loop-escaped s _)
]

NoNul-append : (xs ys : Text) → NoNul xs → NoNul ys → NoNul (xs ++ ys)
NoNul-append [] ys h k = k
NoNul-append (x ∷ xs) ys h k = (h.0, NoNul-append xs ys h.1 k)

NoNul-escaped : (s : Text) → NoNul s → NoNul (escaped s)
unfolding escaped
NoNul-escaped [] h = tt
NoNul-escaped (c ∷ s) h = elim (Bool-cases (c == b'"')) [
  | inl quote ↦ rw (quote, escaped) (omega arith, (h.0, NoNul-escaped s h.1))
  | inr other ↦ rw (other, escaped) (h.0, NoNul-escaped s h.1)
]

quoted-NoNul : (s : Text) → NoNul s → NoNul (quoted s)
unfolding quoted
quoted-NoNul s h =
    (omega arith, NoNul-append (escaped s) (b'"' ∷ []) (NoNul-escaped s h) (omega arith, tt))

written :
    (dest : List ℕ) (s : Text)
    → quote_sign no_flags
        (quote_loop no_flags none s (quote_sign no_flags (record { buf = dest; pos = 0 })))
      ≡ emit_all (record { buf = dest; pos = 0 }) (quoted s)
unfolding quoted emit_all
written dest s =
    let start = emit (record { buf = dest; pos = 0 }) b'"' in
    ap (λ out. emit out b'"') (quote_loop-escaped s start)
    ∙ sym (emit_all-append start (escaped s) (b'"' ∷ []))

strquote_output :
    (dest : List ℕ) (s : Text)
    → strquote dest s ≡ (
      terminate (emit_all (record { buf = dest; pos = 0 }) (quoted s)).buf (length (quoted s)),
      length (quoted s),
    )
unfolding strquote quoted
strquote_output dest s =
    let start : Output = record { buf = dest; pos = 0 } in
    ap (λ out. (terminate out.buf out.pos, out.pos)) (written dest s)
    ∙ ap (λ n. (terminate (emit_all start (quoted s)).buf n, n))
        (omega (arith, pos-emit_all start (quoted s)))

-- `strquote` returns the length of the quoted text, whatever the size of the buffer, and leaves
-- in a buffer of at least one byte as much of it as fits before the NUL.
pub strquote_lem :
    (s : Text) (b : ℕ) (buf : List ℕ)
    → NoNul s
    → ((strquote (b ∷ buf) s).1 ≡ length (quoted s))
      × (c_string (strquote (b ∷ buf) s).0 ≡ take (length buf) (quoted s))
strquote_lem s b buf h = (
  ap (λ r. r.1) (strquote_output (b ∷ buf) s),
  ap (λ r. c_string r.0) (strquote_output (b ∷ buf) s)
      ∙ c_string-emit_all (quoted s) b buf (quoted-NoNul s h),
)

ends_escaped_tail : (c : ℕ) (s : Text) → ends_escaped (c ∷ s) ≡ false → ends_escaped s ≡ false
ends_escaped_tail c [] h = refl
ends_escaped_tail c (d ∷ s) h = h

escaped_quote :
    (c : ℕ) (s : Text) → (c == b'"') ≡ true → escaped (c ∷ s) ≡ backslash ∷ b'"' ∷ escaped s
unfolding escaped
escaped_quote c s quote = let e : c ≡ b'"' = ground arith in rw e

escaped_other : (c : ℕ) (s : Text) → (c == b'"') ≡ false → escaped (c ∷ s) ≡ c ∷ escaped s
unfolding escaped
escaped_other c s other = rw (other, escaped)

unquote_loop_escape :
    (t : Text) (j : ℕ) (out : Output)
    → unquote_loop no_flags none (backslash ∷ b'"' ∷ t) j out
      ≡ unquote_loop no_flags none t (j + 1 + 1) (emit out b'"')
unfolding unquote_loop
unquote_loop_escape t j out = refl

unquote_loop_plain :
    (c d : ℕ) (t : Text) (j : ℕ) (out : Output)
    → (c == b'"') ≡ false
    → (c == backslash && d == b'"') ≡ false
    → unquote_loop no_flags none (c ∷ d ∷ t) j out
      ≡ unquote_loop no_flags none (d ∷ t) (j + 1) (emit out c)
unfolding unquote_loop
unquote_loop_plain c d t j out other plain = rw (other, unquote_loop) (rw plain)

-- The byte behind `c`, which makes no escape with it.
abbrev Plain : ℕ → Text → Type 0
Plain c t = (d : ℕ) × (u : Text) × (t ≡ d ∷ u) × ((c == backslash && d == b'"') ≡ false)

more_behind : (c d : ℕ) (s rest : Text) → Plain c (escaped (d ∷ s) ++ b'"' ∷ rest)
more_behind c d s rest = elim (Bool-cases (d == b'"')) [
  | inl quote ↦
      (backslash, b'"' ∷ escaped s ++ b'"' ∷ rest, rw (escaped_quote d s quote), ground arith)
  | inr other ↦ (d, escaped s ++ b'"' ∷ rest, rw (escaped_other d s other), ground arith)
]

next_behind :
    (c : ℕ) (s rest : Text) → ends_escaped (c ∷ s) ≡ false → Plain c (escaped s ++ b'"' ∷ rest)
next_behind c [] rest h = (b'"', rest, unfold escaped in refl, ground arith)
next_behind c (d ∷ s) rest h = more_behind c d s rest

-- What the loop has read behind `j` bytes, and what it has written.
abbrev reader : Text → ℕ → Output → Reader
reader rest j out = record { rest = rest; read = j; out = out }

-- The loop reads an escaped text up to the quote sign behind it.
pub unquote_loop-escaped :
    (s rest : Text) (j : ℕ) (out : Output)
    → ends_escaped s ≡ false
    → unquote_loop no_flags none (escaped s ++ b'"' ∷ rest) j out
      ≡ reader (b'"' ∷ rest) (j + length (escaped s)) (emit_all out s)
unfolding emit_all
unquote_loop-escaped [] [] j out h =
    unfold escaped unquote_loop in ap (λ k. reader (b'"' ∷ []) k out) (omega arith)
unquote_loop-escaped [] (d ∷ rest) j out h =
    unfold escaped unquote_loop in ap (λ k. reader (b'"' ∷ d ∷ rest) k out) (omega arith)
unquote_loop-escaped (c ∷ s) rest j out h = elim (Bool-cases (c == b'"')) [
  | inl quote ↦
      let e : c ≡ b'"' = ground arith in
      let size = ap length (escaped_quote c s quote) in
      ap (λ t. unquote_loop no_flags none (t ++ b'"' ∷ rest) j out) (escaped_quote c s quote)
      ∙ unquote_loop_escape (escaped s ++ b'"' ∷ rest) j out
      ∙ unquote_loop-escaped s rest (j + 1 + 1) (emit out b'"') (ends_escaped_tail c s h)
      ∙ ap (λ k. reader (b'"' ∷ rest) k (emit_all (emit out b'"') s)) (omega (arith, size))
      ∙ ap (λ x. reader (b'"' ∷ rest) (j + length (escaped (c ∷ s))) (emit_all (emit out x) s))
          (sym e)
  | inr other ↦
      let (d, t, next, plain) = next_behind c s rest h in
      let size = ap length (escaped_other c s other) in
      ap (λ t. unquote_loop no_flags none (t ++ b'"' ∷ rest) j out) (escaped_other c s other)
      ∙ ap (λ t. unquote_loop no_flags none (c ∷ t) j out) next
      ∙ unquote_loop_plain c d t j out other plain
      ∙ ap (λ t. unquote_loop no_flags none t (j + 1) (emit out c)) (sym next)
      ∙ unquote_loop-escaped s rest (j + 1) (emit out c) (ends_escaped_tail c s h)
      ∙ ap (λ k. reader (b'"' ∷ rest) k (emit_all (emit out c) s)) (omega (arith, size))
]

-- A text that ends in a backslash takes the quote sign behind it for an escaped one.
pub unquote_loop_spoilt :
    (s : Text) (j : ℕ) (out : Output)
    → ends_escaped s ≡ true
    → (unquote_loop no_flags none (escaped s ++ b'"' ∷ []) j out).rest ≡ []
unquote_loop_spoilt [] j out h = cc
unquote_loop_spoilt (c ∷ []) j out h =
    let e : c ≡ backslash = ground arith in rw e (unfold escaped unquote_loop in refl)
unquote_loop_spoilt (c ∷ d ∷ s) j out h = elim (Bool-cases (c == b'"')) [
  | inl quote ↦
      ap (λ t. (unquote_loop no_flags none (t ++ b'"' ∷ []) j out).rest)
        (escaped_quote c (d ∷ s) quote)
      ∙ ap (λ r. r.rest) (unquote_loop_escape (escaped (d ∷ s) ++ b'"' ∷ []) j out)
      ∙ unquote_loop_spoilt (d ∷ s) (j + 1 + 1) (emit out b'"') h
  | inr other ↦
      let (e, t, next, plain) = more_behind c d s [] in
      ap (λ t. (unquote_loop no_flags none (t ++ b'"' ∷ []) j out).rest)
        (escaped_other c (d ∷ s) other)
      ∙ ap (λ t. (unquote_loop no_flags none (c ∷ t) j out).rest) next
      ∙ ap (λ r. r.rest) (unquote_loop_plain c e t j out other plain)
      ∙ ap (λ t. (unquote_loop no_flags none t (j + 1) (emit out c)).rest) (sym next)
      ∙ unquote_loop_spoilt (d ∷ s) (j + 1) (emit out c) h
]
