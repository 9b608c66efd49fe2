-- ===== src/Strutils/ListLimit.antt =====
-- What the string lists hold, and how many strings.
use dlite.Base.{
  ℕ, zero, suc, ◌+◌, ◌-◌, ◌≤◌, ◌<◌, ◌≡◌, refl, sym, ◌∙◌, ap, inl, inr, ◌⊎◌, true, false, List, [],
  ◌∷◌, ◌++◌, Option, none, some, Text, Outcome, done, fault, ◌>>=◌, arith, ℤ, ltb, length,
  length-append, take, drop,
}
use mathlib.Core.List.{append_assoc, append-nil}
use dlite.Strutils.StringList.{
  StringList, chunk_size, insert_at, insert_position, strlst_insert, strlst_append, get_loop,
  remove_at, strlst_pop,
}

insert_at-take : (k : ℕ) (s : Text) (xs : List Text) → insert_at k s xs ≡ take k xs ++ s ∷ drop k xs
insert_at-take zero s xs = refl
insert_at-take (suc k) s [] = refl
insert_at-take (suc k) s (x ∷ xs) = ap (◌∷◌ x) (insert_at-take k s xs)

-- From a list with as many strings as its room, or fewer, `strlst_insert` puts the string before
-- the position, and fails at its assertion exactly if the list is full; it never grows a list.
pub strlst_insert_lem :
    (l : StringList) (s : Text) (i : ℤ)
    → length l.strings ≤ l.room
    → (length l.strings ≡ l.room → strlst_insert (some l) s i ≡ fault)
      × (length l.strings < l.room
          → strlst_insert (some l) s i
            ≡ done (record l {
              strings =
                  take (insert_position (length l.strings) i) l.strings
                  ++ s ∷ drop (insert_position (length l.strings) i) l.strings;
            }))
unfolding strlst_insert
strlst_insert_lem l s i fits =
    let kept : ltb (l.room + 1) (length l.strings + 1) ≡ false = ground (arith, fits) in
    (
      λ full.
          let stop : ltb (length l.strings + 1) (l.room + 1) ≡ false = ground (arith, full) in
          rw (kept, stop),
      λ free.
          let go : ltb (length l.strings + 1) (l.room + 1) ≡ true = ground (arith, free) in
          let same : l.room + 1 - 1 ≡ l.room = omega arith in
          rw (kept, go, same)
            (ap (λ xs. done (record { strings = xs; room = l.room }))
              (insert_at-take _ s l.strings)),
    )

-- The strings appended one by one.
pub append_all : Option StringList → List Text → Outcome (Option StringList)
append_all l [] = done l
append_all l (s ∷ ss) = do l' ← strlst_append l s; append_all (some l') ss

insert_at_end : (xs : List Text) (s : Text) → insert_at (length xs) s xs ≡ xs ++ s ∷ []
insert_at_end [] s = refl
insert_at_end (x ∷ xs) s = ap (◌∷◌ x) (insert_at_end xs s)

append_free :
    (l : StringList) (s : Text)
    → length l.strings < l.room
    → strlst_append (some l) s ≡ done (record l { strings = l.strings ++ s ∷ [] })
unfolding strlst_append
append_free l s free =
    let kept : ltb (l.room + 1) (length l.strings + 1) ≡ false = ground (arith, free) in
    let go : ltb (length l.strings + 1) (l.room + 1) ≡ true = ground (arith, free) in
    let at : ltb (length l.strings) (length l.strings) ≡ false = ground arith in
    let same : l.room + 1 - 1 ≡ l.room = omega arith in
    rw (kept, go, same, at)
      (ap (λ xs. done (record { strings = xs; room = l.room })) (insert_at_end l.strings s))

append_full :
    (l : StringList) (s : Text) → length l.strings ≡ l.room → strlst_append (some l) s ≡ fault
unfolding strlst_append
append_full l s full =
    let kept : ltb (l.room + 1) (length l.strings + 1) ≡ false = ground (arith, full) in
    let stop : ltb (length l.strings + 1) (l.room + 1) ≡ false = ground (arith, full) in
    rw (kept, stop)

lt_or_eq : (m n : ℕ) → m ≤ n → (m < n) ⊎ (m ≡ n)
lt_or_eq m n h = ground arith

append_all-some :
    (ss : List Text) (l : StringList)
    → (length l.strings + length ss ≤ l.room
        → append_all (some l) ss ≡ done (some (record l { strings = l.strings ++ ss })))
      × (length l.strings ≤ l.room
          → l.room < length l.strings + length ss
          → append_all (some l) ss ≡ fault)
unfolding append_all
append_all-some [] l = (
  λ fits. ap (λ xs. done (some (record l { strings = xs }))) (sym (append-nil l.strings)),
  λ fits over. absurd (omega arith),
)
append_all-some (s ∷ ss) l =
    let l' : StringList = record l { strings = l.strings ++ s ∷ [] } in
    let size : length l'.strings ≡ length l.strings + 1 = length-append l.strings (s ∷ []) in
    let (rest, over_rest) = append_all-some ss l' in
    (
      λ fits.
          rw (append_free l s (omega (arith, fits))) (rest (omega (arith, size, fits)))
          ∙ ap (λ xs. done (some (record l { strings = xs }))) (append_assoc l.strings (s ∷ []) ss),
      λ fits over. elim (lt_or_eq (length l.strings) l.room fits) [
        | inl free ↦
            rw (append_free l s free)
              (over_rest (omega (arith, size, free)) (omega (arith, size, over)))
        | inr full ↦ rw (append_full l s full)
      ],
    )

-- From NULL, up to 31 strings can be appended one by one, and the list then has them in order; the
-- 32nd fails at an assertion.
pub strlst_append_lem :
    (s : Text) (ss : List Text)
    → (length (s ∷ ss) < chunk_size
        → (l : StringList) × (append_all none (s ∷ ss) ≡ done (some l)) × (l.strings ≡ s ∷ ss))
      × (chunk_size ≤ length (s ∷ ss) → append_all none (s ∷ ss) ≡ fault)
unfolding append_all strlst_append
strlst_append_lem s ss =
    let l : StringList = record { strings = s ∷ []; room = 31 } in
    (
      λ h. (
        record { strings = s ∷ ss; room = 31 },
        (append_all-some ss l).0 (omega (arith, h)),
        refl,
      ),
      λ h. (append_all-some ss l).1 (omega arith) (omega (arith, h)),
    )

get_loop-insert_at :
    (k : ℕ) (s : Text) (xs : List Text)
    → k ≤ length xs
    → (get_loop k (insert_at k s xs) ≡ some s) × (remove_at k (insert_at k s xs) ≡ xs)
get_loop-insert_at zero s xs h = (refl, refl)
get_loop-insert_at (suc k) s [] h = absurd (omega arith)
get_loop-insert_at (suc k) s (x ∷ xs) h =
    let (found, rest) = get_loop-insert_at k s xs (omega arith) in (found, ap (◌∷◌ x) rest)

-- What was inserted at a position from the start of a list with room is popped there, and the
-- list is as before.
pub strlst_pop-strlst_insert :
    (l : StringList) (s : Text) (k : ℕ)
    → length l.strings < l.room
    → k ≤ length l.strings
    → (l' : StringList) × (strlst_insert (some l) s (ℤ.pos k) ≡ done l')
      × (strlst_pop (some l') (ℤ.pos k) ≡ done (some l, some s))
unfolding strlst_insert strlst_pop
strlst_pop-strlst_insert l s k free inside =
    let kept : ltb (l.room + 1) (length l.strings + 1) ≡ false = ground (arith, free) in
    let go : ltb (length l.strings + 1) (l.room + 1) ≡ true = ground (arith, free) in
    let at : ltb (length l.strings) k ≡ false = ground (arith, inside) in
    let same : l.room + 1 - 1 ≡ l.room = omega arith in
    let (found, rest) = get_loop-insert_at k s l.strings inside in
    (record l { strings = insert_at k s l.strings }, rw (kept, go, same, at), rw (found, rest))
