-- ===== src/Base/Call.antt =====
-- What a call of a C function does: it returns a value, or it stops the process at a failed
-- `assert` or reads memory that it does not own.
pub data Outcome {ℓ} (A : Type ℓ) : Type ℓ where
  done : A → Outcome A
  fault : Outcome A

infixl 5 ◌>>=◌
abbrev pub ◌>>=◌ {ℓ κ} : {A : Type ℓ} {B : Type κ} → Outcome A → (A → Outcome B) → Outcome B
done a >>= f = f a
fault >>= f = fault

-- The call returns, with a result that satisfies a predicate.
unfoldable pub Returns {ℓ} : {A : Type ℓ} → Outcome A → (A → Type 0) → Type 0
Returns (done a) P = P a
Returns fault P = ⊥

-- What the call returns satisfies a predicate, if it returns.
unfoldable pub Partial {ℓ} : {A : Type ℓ} → Outcome A → (A → Type 0) → Type 0
Partial (done a) P = P a
Partial fault P = Unit {0}

pub Returns-done {ℓ} : {A : Type ℓ} (a : A) (P : A → Type 0) → P a → Returns (done a) P
unfolding Returns
Returns-done a P h = h

pub Returns-map {ℓ} :
    {A : Type ℓ} (r : Outcome A) (P Q : A → Type 0)
    → Returns r P
    → ((a : A) → P a → Q a)
    → Returns r Q
unfolding Returns
Returns-map (done a) P Q h more = more a h
Returns-map fault P Q h more = h

pub Returns-bind {ℓ κ} :
    {A : Type ℓ} {B : Type κ} (r : Outcome A) (f : A → Outcome B) (P : A → Type 0) (Q : B → Type 0)
    → Returns r P
    → ((a : A) → P a → Returns (f a) Q)
    → Returns (r >>= f) Q
unfolding Returns
Returns-bind (done a) f P Q h more = more a h
Returns-bind fault f P Q h more = absurd h

pub Partial-done {ℓ} : {A : Type ℓ} (a : A) (P : A → Type 0) → P a → Partial (done a) P
unfolding Partial
Partial-done a P h = h

pub Partial-fault {ℓ} : {A : Type ℓ} (P : A → Type 0) → Partial fault P
unfolding Partial
Partial-fault P = tt

pub Partial-Returns {ℓ} : {A : Type ℓ} (r : Outcome A) (P : A → Type 0) → Returns r P → Partial r P
unfolding Returns Partial
Partial-Returns (done a) P h = h
Partial-Returns fault P h = tt

pub Partial-bind {ℓ κ} :
    {A : Type ℓ} {B : Type κ} (r : Outcome A) (f : A → Outcome B) (P : A → Type 0) (Q : B → Type 0)
    → Partial r P
    → ((a : A) → P a → Partial (f a) Q)
    → Partial (r >>= f) Q
unfolding Partial
Partial-bind (done a) f P Q h more = more a h
Partial-bind fault f P Q h more = tt

pub Partial-map {ℓ} :
    {A : Type ℓ} (r : Outcome A) (P Q : A → Type 0)
    → Partial r P
    → ((a : A) → P a → Q a)
    → Partial r Q
unfolding Partial
Partial-map (done a) P Q h more = more a h
Partial-map fault P Q h more = tt

-- A call of which nothing is known.
pub Partial-step {ℓ κ} :
    {A : Type ℓ} {B : Type κ} (r : Outcome A) (f : A → Outcome B) (Q : B → Type 0)
    → ((a : A) → Partial (f a) Q)
    → Partial (r >>= f) Q
unfolding Partial
Partial-step (done a) f Q more = more a
Partial-step fault f Q more = tt
