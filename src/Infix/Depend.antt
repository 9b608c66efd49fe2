-- ===== src/Infix/Depend.antt =====
-- `infixcalc_depend` of src/utils/infixcalc.c finds a name where it stands as a whole.
use dlite.Base.{
  is_word, ℕ, zero, suc, ◌-◌, ◌≡◌, ◌↔◌, refl, sym, ◌∙◌, ap, Bool, true, false, not, ◌&&◌, ◌||◌,
  Option, none, some, Text, [], ◌∷◌, ◌++◌, arith, ◌==◌, ==_iff, length, Bool-cases, inl, inr, ◌⊎◌,
}
use dlite.Infix.Calc.{after_prefix, starts_with_word, depend_loop, infixcalc_depend}

abbrev pub AllWord : Text → Type 0
AllWord [] = Unit {0}
AllWord (c ∷ cs) = (is_word c ≡ true) × AllWord cs

-- Whether a name ends here.
abbrev ends_here : Option Text → Bool
ends_here none = false
ends_here (some q) = not (starts_with_word q)

-- Whether `name` starts here as a whole, behind a character of a name or not.
abbrev whole : Text → Bool → Text → Bool
whole name after_word p = not after_word && ends_here (after_prefix name p)

-- Whether `name` is found as a whole at some place.
occurs : Text → Bool → Text → Bool
occurs name after_word [] = false
occurs name after_word (c ∷ p) = whole name after_word (c ∷ p) || occurs name (is_word c) p

-- The next `k` places are behind a character of a name.
abbrev Inside : ℕ → Bool → Text → Type 0
Inside zero after_word p = Unit {0}
Inside (suc k) after_word [] = Unit {0}
Inside (suc k) after_word (c ∷ p) = (after_word ≡ true) × Inside k (is_word c) p

after_prefix-cons :
    (x c : ℕ) (xs p q : Text)
    → after_prefix (x ∷ xs) (c ∷ p) ≡ some q
    → (x ≡ c) × (after_prefix xs p ≡ some q)
after_prefix-cons x c xs p q e = elim (Bool-cases (x == c)) [
  | inl t ↦
      let same : after_prefix (x ∷ xs) (c ∷ p) ≡ after_prefix xs p = rw (t, after_prefix) refl in
      ((==_iff x c).0 t, sym same ∙ e)
  | inr f ↦ absurd (ground (arith, f, e))
]

after_prefix-Inside :
    (xs p q : Text) (after_word : Bool)
    → AllWord xs
    → after_word ≡ true
    → after_prefix xs p ≡ some q
    → Inside (length xs) after_word p
after_prefix-Inside [] p q after_word h w e = tt
after_prefix-Inside (x ∷ xs) [] q after_word h w e = tt
after_prefix-Inside (x ∷ xs) (c ∷ p) q after_word (hx, h) w e =
    let r = after_prefix-cons x c xs p q e in
    (w, after_prefix-Inside xs p q (is_word c) h (rw (← r.0) hx) (r.1))

-- One round of the loop, with the result of the next round.
depend_round :
    (o : Option Text) (after_word next skipping rest : Bool)
    → next ≡ rest
    → ((q : Text) → o ≡ some q → skipping ≡ rest)
    → elim o as (λ _. Bool) [
      | none ↦ next
      | some q ↦ elim after_word as (λ _. Bool) [
        | true ↦ skipping
        | false ↦ elim (starts_with_word q) as (λ _. Bool) [ true ↦ skipping | false ↦ true ]
      ]
    ]
      ≡ (not after_word && ends_here o) || rest
depend_round none true next skipping rest h s = h
depend_round none false next skipping rest h s = h
depend_round (some q) true next skipping rest h s = s q refl
depend_round (some q) false next skipping rest h s = elim (Bool-cases (starts_with_word q)) [
  | inl t ↦ rw t (s q refl)
  | inr f ↦ rw f refl
]

depend_loop-occurs :
    (x : ℕ) (xs : Text) (after_word : Bool) (k : ℕ) (p : Text)
    → AllWord (x ∷ xs)
    → Inside k after_word p
    → depend_loop (x ∷ xs) after_word k p ≡ occurs (x ∷ xs) after_word p
unfolding depend_loop occurs
depend_loop-occurs x xs after_word zero [] h inside = refl
depend_loop-occurs x xs after_word (suc k) [] h inside = refl
depend_loop-occurs x xs after_word (suc k) (c ∷ p) h (w, inside) =
    rw w (depend_loop-occurs x xs (is_word c) k p h inside)
depend_loop-occurs x xs after_word zero (c ∷ p) h inside =
    depend_round (after_prefix (x ∷ xs) (c ∷ p)) after_word _ _ _
      (depend_loop-occurs x xs (is_word c) zero p h tt)
      (λ q e.
        let r = after_prefix-cons x c xs p q e in
        let one : length (x ∷ xs) - 1 ≡ length xs = omega arith in
        rw one (
          depend_loop-occurs x xs (is_word c) (length xs) p h
            (after_prefix-Inside xs p q (is_word c) (h.1) (rw (← r.0) (h.0)) (r.1))))

-- Whether a text ends in a character of a name; `after_word` for an empty one.
abbrev pub ends_with_word : Bool → Text → Bool
ends_with_word after_word [] = after_word
ends_with_word after_word (c ∷ pre) = ends_with_word (is_word c) pre

-- `name` stands in the text between `pre` and `post`, and neither of them continues it.
abbrev pub StandsIn : Text → Bool → Text → Type 0
StandsIn name after_word text =
    (pre : Text) × ((post : Text) × ((text ≡ pre ++ (name ++ post))
        × ((ends_with_word after_word pre ≡ false) × (starts_with_word post ≡ false))))

after_prefix-append : (name post : Text) → after_prefix name (name ++ post) ≡ some post
after_prefix-append [] post = refl
after_prefix-append (x ∷ name) post =
    let same : (x == x) ≡ true = ground arith in
    rw (same, after_prefix) (after_prefix-append name post)

after_prefix-split : (name p q : Text) → after_prefix name p ≡ some q → p ≡ name ++ q
after_prefix-split [] p q e = ground (arith, e)
after_prefix-split (x ∷ name) [] q e = ground (arith, e)
after_prefix-split (x ∷ name) (c ∷ p) q e =
    let r = after_prefix-cons x c name p q e in
    rw (r.0) (ap (◌∷◌ c) (after_prefix-split name p q (r.1)))

occurs-whole :
    (x : ℕ) (xs post : Text)
    → starts_with_word post ≡ false
    → occurs (x ∷ xs) false ((x ∷ xs) ++ post) ≡ true
unfolding occurs
occurs-whole x xs post h = rw (after_prefix-append (x ∷ xs) post, h) refl

not-true : (b : Bool) → not b ≡ true → b ≡ false
not-true true h = ground (arith, h)
not-true false h = refl

either : (a b : Bool) → (a || b) ≡ true → (a ≡ true) ⊎ (b ≡ true)
either true b h = inl refl
either false b h = inr h

or-true : (a : Bool) → (a || true) ≡ true
or-true true = refl
or-true false = refl

whole-split :
    (o : Option Text) (after_word : Bool)
    → (not after_word && ends_here o) ≡ true
    → (q : Text) × ((o ≡ some q) × ((after_word ≡ false) × (starts_with_word q ≡ false)))
whole-split none true h = ground (arith, h)
whole-split none false h = ground (arith, h)
whole-split (some q) true h = ground (arith, h)
whole-split (some q) false h = (q, (refl, (refl, not-true (starts_with_word q) h)))

occurs-StandsIn :
    (x : ℕ) (xs p : Text) (after_word : Bool)
    → occurs (x ∷ xs) after_word p ≡ true
    → StandsIn (x ∷ xs) after_word p
unfolding occurs
occurs-StandsIn x xs [] after_word h = ground (arith, h)
occurs-StandsIn x xs (c ∷ p) after_word h =
    elim (either (whole (x ∷ xs) after_word (c ∷ p)) (occurs (x ∷ xs) (is_word c) p) h) [
      | inl here ↦
          let (q, (e, (before, after))) =
            whole-split (after_prefix (x ∷ xs) (c ∷ p)) after_word here in
          ([], (q, (after_prefix-split (x ∷ xs) (c ∷ p) q e, (before, after))))
      | inr later ↦
          let (pre, (post, (e, rest))) = occurs-StandsIn x xs p (is_word c) later in
          (c ∷ pre, (post, (ap (◌∷◌ c) e, rest)))
    ]

StandsIn-occurs :
    (x : ℕ) (xs pre post : Text) (after_word : Bool)
    → ends_with_word after_word pre ≡ false
    → starts_with_word post ≡ false
    → occurs (x ∷ xs) after_word (pre ++ ((x ∷ xs) ++ post)) ≡ true
unfolding occurs
StandsIn-occurs x xs [] post after_word before after = rw before (occurs-whole x xs post after)
StandsIn-occurs x xs (c ∷ pre) post after_word before after =
    rw (StandsIn-occurs x xs pre post (is_word c) before after)
      (or-true (whole (x ∷ xs) after_word (c ∷ (pre ++ ((x ∷ xs) ++ post)))))

-- `infixcalc_depend` returns true for a name, a text that is not empty and has only letters, digits
-- and underscores, exactly if it stands somewhere in the expression without such a character
-- directly before or behind it.
pub infixcalc_depend_lem :
    (x : ℕ) (xs expr : Text)
    → AllWord (x ∷ xs)
    → (infixcalc_depend expr (x ∷ xs) ≡ true) ↔ StandsIn (x ∷ xs) false expr
unfolding infixcalc_depend
infixcalc_depend_lem x xs expr h =
    let same : depend_loop (x ∷ xs) false 0 expr ≡ occurs (x ∷ xs) false expr =
      depend_loop-occurs x xs false 0 expr h tt in
    (
      λ e. occurs-StandsIn x xs expr false (sym same ∙ e),
      λ (pre, (post, (e, (before, after)))).
          same ∙ ap (occurs (x ∷ xs) false) e ∙ StandsIn-occurs x xs pre post false before after,
    )
