-- ===== src/Strutils/Buffer.antt =====
-- Bounded buffers as src/utils/strutils.c fills them: a write past the end is skipped, and the
-- last write is the terminating NUL.
use dlite.Base.{
  ℕ, suc, ◌+◌, ◌-◌, ◌<◌, ◌≡◌, ◌≢◌, refl, ◌∙◌, ap, true, false, List, [], ◌∷◌, ◌++◌, arith, Text,
  ltb, ◌==◌, if◌then◌else◌, length, set, take, length-set, Bool-cases, inl, inr,
}

-- A buffer and the position of the next byte.
pub record Output : Type 0 where
  pub buf : List ℕ
  pub pos : ℕ

-- `if (size > i) dest[i] = c; i++;`
abbrev pub emit : Output → ℕ → Output
emit out c = record { buf = set out.buf out.pos c; pos = out.pos + 1 }

unfoldable pub emit_all : Output → Text → Output
emit_all out [] = out
emit_all out (c ∷ cs) = emit_all (emit out c) cs

-- `if (dest) dest[(size > i) ? i : size-1] = '\0';`
unfoldable pub terminate : List ℕ → ℕ → List ℕ
terminate [] i = []
terminate (b ∷ buf) i =
    set (b ∷ buf) (if ltb i (length (b ∷ buf)) then i else length (b ∷ buf) - 1) 0

-- The C string at the start of a buffer.
unfoldable pub c_string : List ℕ → Text
c_string [] = []
c_string (b ∷ buf) = elim (b == 0) [ true ↦ [] | false ↦ b ∷ c_string buf ]

-- No byte is NUL.
abbrev pub NoNul : Text → Type 0
NoNul [] = Unit {0}
NoNul (c ∷ cs) = (c ≢ 0) × NoNul cs

pub emit_all-append :
    (out : Output) (xs ys : Text) → emit_all out (xs ++ ys) ≡ emit_all (emit_all out xs) ys
unfolding emit_all
emit_all-append out [] ys = refl
emit_all-append out (x ∷ xs) ys = emit_all-append (emit out x) xs ys

pub pos-emit_all : (out : Output) (cs : Text) → (emit_all out cs).pos ≡ out.pos + length cs
unfolding emit_all
pos-emit_all out [] = omega arith
pos-emit_all out (c ∷ cs) = omega (arith, pos-emit_all (emit out c) cs)

pub length-emit_all : (out : Output) (cs : Text) → length (emit_all out cs).buf ≡ length out.buf
unfolding emit_all
length-emit_all out [] = refl
length-emit_all out (c ∷ cs) = length-emit_all (emit out c) cs ∙ length-set out.buf out.pos c

-- Behind the first byte.
emit_all_cons :
    (b : ℕ) (buf : List ℕ) (i : ℕ) (cs : Text)
    → (emit_all (record { buf = b ∷ buf; pos = suc i }) cs).buf
      ≡ b ∷ (emit_all (record { buf = buf; pos = i }) cs).buf
unfolding emit_all
emit_all_cons b buf i [] = refl
emit_all_cons b buf i (c ∷ cs) =
    let e : suc i + 1 ≡ suc (i + 1) = omega arith in
    rw (e, emit_all) (emit_all_cons b (set buf i c) (i + 1) cs)

emit_first :
    (c b b' : ℕ) (buf : List ℕ) (cs : Text)
    → (emit_all (record { buf = b ∷ b' ∷ buf; pos = 0 }) (c ∷ cs)).buf
      ≡ c ∷ (emit_all (record { buf = b' ∷ buf; pos = 0 }) cs).buf
unfolding emit_all
emit_first c b b' buf cs = emit_all_cons c (b' ∷ buf) 0 cs

terminate_cons :
    (c : ℕ) (buf : List ℕ) (i : ℕ)
    → 0 < length buf
    → terminate (c ∷ buf) (suc i) ≡ c ∷ terminate buf i
unfolding terminate
terminate_cons c [] i h = absurd (omega arith)
terminate_cons c (b ∷ buf) i h = elim (Bool-cases (ltb i (length (b ∷ buf)))) [
  | inl inside ↦
      let test : ltb (suc i) (length (c ∷ b ∷ buf)) ≡ true = ground arith in rw (inside, test)
  | inr outside ↦
      let test : ltb (suc i) (length (c ∷ b ∷ buf)) ≡ false = ground arith in
      let last : length (c ∷ b ∷ buf) - 1 ≡ suc (length (b ∷ buf) - 1) = omega arith in
      rw (outside, test, last)
]

terminate_short : (buf : List ℕ) (i : ℕ) → length buf ≡ 1 → 0 < i → c_string (terminate buf i) ≡ []
unfolding terminate c_string
terminate_short [] i h p = absurd (omega arith)
terminate_short (b ∷ []) i h p = let test : ltb i 1 ≡ false = ground arith in rw test
terminate_short (b ∷ c ∷ buf) i h p = absurd (omega arith)

terminate_start :
    (b : ℕ) (buf : List ℕ)
    → c_string (terminate (emit_all (record { buf = b ∷ buf; pos = 0 }) []).buf 0) ≡ []
unfolding terminate emit_all c_string
terminate_start b buf = let test : ltb 0 (length (b ∷ buf)) ≡ true = ground arith in rw test

-- The buffer holds what was written, cut off where its size demands, and a NUL.
pub c_string-emit_all :
    (cs : Text) (b : ℕ) (buf : List ℕ)
    → NoNul cs
    → c_string (terminate (emit_all (record { buf = b ∷ buf; pos = 0 }) cs).buf (length cs))
      ≡ take (length buf) cs
unfolding c_string
c_string-emit_all [] b [] h = unfold emit_all terminate in refl
c_string-emit_all [] b (b' ∷ buf) h = terminate_start b (b' ∷ buf)
c_string-emit_all (c ∷ cs) b [] h =
    terminate_short _ (suc (length cs)) (length-emit_all _ (c ∷ cs)) (omega arith)
c_string-emit_all (c ∷ cs) b (b' ∷ buf) h =
    let rest = emit_all (record { buf = b' ∷ buf; pos = 0 }) cs in
    let size : 0 < length rest.buf =
      omega (arith, length-emit_all (record { buf = b' ∷ buf; pos = 0 }) cs) in
    let nonzero : (c == 0) ≡ false = ground arith in
    ap (λ x. c_string (terminate x (suc (length cs)))) (emit_first c b b' buf cs)
    ∙ ap c_string (terminate_cons c rest.buf (length cs) size)
    ∙ rw (nonzero, c_string) (ap (◌∷◌ c) (c_string-emit_all cs b' buf h.1))
