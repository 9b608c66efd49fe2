-- ===== src/Strutils/Append.antt =====
-- `strsetc`, `strsets` and `strsetn` of src/utils/strutils.c: a byte or a text is written to a
-- buffer at a position, and a NUL behind it.
use Prim.Native.Nat.{bit_and}
use dlite.Base.{
  ℕ, suc, ◌+◌, ◌-◌, ◌≤◌, ◌<◌, ◌≡◌, refl, ◌∙◌, ap, List, [], ◌∷◌, ◌++◌, Text, arith, leb, ◌==◌,
  if◌then◌else◌, length, set, take, drop, length-set, length-append, true,
}

-- The byte that is written: a lead byte of UTF-8 becomes NUL where `size` leaves no room for the
-- bytes that follow it. `c` is a byte, or its value as a negative char.
unfoldable pub written : ℕ → ℕ → ℕ
written size c =
    if leb c 127
    then c
    else if bit_and c 0xc0 == 0x80
    then c
    else if bit_and c 0xe0 == 0xc0
    then (if leb 3 size then c else 0)
    else if bit_and c 0xf0 == 0xe0
    then (if leb 4 size then c else 0)
    else if bit_and c 0xf8 == 0xf0
    then (if leb 5 size then c else 0)
    else c

-- Consecutive bytes from a position on.
unfoldable pub write_at : List ℕ → ℕ → Text → List ℕ
write_at buf n [] = buf
write_at buf n (c ∷ cs) = write_at (set buf n c) (n + 1) cs

-- The call `strsetc(buf+n, size-n, c)`, where `buf` has `size` bytes. It returns 1.
unfoldable pub strsetc : List ℕ → ℕ → ℕ → List ℕ
unfolding written write_at
strsetc buf n c =
    let size = length buf - n in
    if leb 2 size
    then write_at buf n (written size c ∷ 0 ∷ [])
    else if leb 1 size
    then write_at buf n (0 ∷ [])
    else buf

-- The buffer, and the position behind the text.
unfoldable pub strsets : List ℕ → ℕ → Text → List ℕ × ℕ
unfolding strsetc
strsets buf n [] = (buf, n)
strsets buf n (c ∷ src) = strsets (strsetc buf n c) (n + 1) src

-- At most `len` bytes.
unfoldable pub strsetn : List ℕ → ℕ → Text → ℕ → List ℕ × ℕ
unfolding strsets
strsetn buf n src len = strsets buf n (take len src)

write_at_cons :
    (b : ℕ) (buf : List ℕ) (n : ℕ) (cs : Text)
    → write_at (b ∷ buf) (suc n) cs ≡ b ∷ write_at buf n cs
unfolding write_at
write_at_cons b buf n [] = refl
write_at_cons b buf n (c ∷ cs) =
    let e : suc n + 1 ≡ suc (n + 1) = omega arith in
    rw (e, write_at) (write_at_cons b (set buf n c) (n + 1) cs)

write_at_start :
    (buf : List ℕ) (cs : Text)
    → length cs ≤ length buf
    → write_at buf 0 cs ≡ cs ++ drop (length cs) buf
unfolding write_at
write_at_start buf [] fits = refl
write_at_start [] (c ∷ cs) fits = absurd (omega arith)
write_at_start (b ∷ buf) (c ∷ cs) fits =
    write_at_cons c buf 0 cs ∙ ap (◌∷◌ c) (write_at_start buf cs (omega arith))

-- What is written behind `pre`.
pub write_at-append :
    (pre rest : List ℕ) (cs : Text)
    → length cs ≤ length rest
    → write_at (pre ++ rest) (length pre) cs ≡ pre ++ (cs ++ drop (length cs) rest)
write_at-append [] rest cs fits = write_at_start rest cs fits
write_at-append (b ∷ pre) rest cs fits =
    write_at_cons b (pre ++ rest) (length pre) cs ∙ ap (◌∷◌ b) (write_at-append pre rest cs fits)

pub length-write_at : (buf : List ℕ) (n : ℕ) (cs : Text) → length (write_at buf n cs) ≡ length buf
unfolding write_at
length-write_at buf n [] = refl
length-write_at buf n (c ∷ cs) = length-write_at (set buf n c) (n + 1) cs ∙ length-set buf n c

-- With room for the byte and a NUL, and for what may follow a lead byte.
pub strsetc-append :
    (pre rest : List ℕ) (c : ℕ)
    → 1 < length rest
    → written (length rest) c ≡ c
    → strsetc (pre ++ rest) (length pre) c ≡ pre ++ (c ∷ 0 ∷ drop 2 rest)
unfolding strsetc
strsetc-append pre rest c room whole =
    let size : length (pre ++ rest) - length pre ≡ length rest =
      omega (arith, length-append pre rest) in
    let test : leb 2 (length rest) ≡ true = ground arith in
    rw (size, test, whole) (write_at-append pre rest (c ∷ 0 ∷ []) (omega arith))

pub written_ascii : (size c : ℕ) → c < 128 → written size c ≡ c
unfolding written
written_ascii size c h = let test : leb c 127 ≡ true = ground arith in rw test

pub written_roomy : (size c : ℕ) → 4 < size → written size c ≡ c
unfolding written
written_roomy size c h =
    let three : leb 3 size ≡ true = ground arith in
    let four : leb 4 size ≡ true = ground arith in
    let five : leb 5 size ≡ true = ground arith in rw (three, four, five) (ground arith)
