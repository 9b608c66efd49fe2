-- ===== src/Mapping/Ends.antt =====
-- The rule for the calls of src/dlite-mapping.c: a call ends with a result that satisfies a
-- predicate, or at a failed assert.
use dlite.Base.{◌≡◌, ◌≢◌, refl, arith, Bool-cases, inl, inr, ℤ, ◌+ℤ◌, is_negative, ltℤ}
use dlite.Mapping.{Run, ◌>>=◌, add_cost}

unfoldable pub Ends {ℓ} : {A : Type ℓ} → Run A → (A → Type 0) → Type 0
Ends (Run.done a) P = P a
Ends Run.fault P = Unit {0}
Ends Run.out_of_fuel P = ⊥

pub Ends-done {ℓ} : {A : Type ℓ} (a : A) (P : A → Type 0) → P a → Ends (Run.done a) P
unfolding Ends
Ends-done a P h = h

pub Ends-fault {ℓ} : {A : Type ℓ} (P : A → Type 0) → Ends Run.fault P
unfolding Ends
Ends-fault P = tt

pub Ends-map {ℓ} :
    {A : Type ℓ} (r : Run A) (P Q : A → Type 0) → Ends r P → ((a : A) → P a → Q a) → Ends r Q
unfolding Ends
Ends-map (Run.done a) P Q h more = more a h
Ends-map Run.fault P Q h more = tt
Ends-map Run.out_of_fuel P Q h more = h

pub Ends-bind {ℓ κ} :
    {A : Type ℓ} {B : Type κ} (r : Run A) (f : A → Run B) (P : A → Type 0) (Q : B → Type 0)
    → Ends r P
    → ((a : A) → P a → Ends (f a) Q)
    → Ends (r >>= f) Q
unfolding Ends
Ends-bind (Run.done a) f P Q h more = more a h
Ends-bind Run.fault f P Q h more = tt
Ends-bind Run.out_of_fuel f P Q h more = absurd h

pub add_cost-Ends : (c d : ℤ) → Ends (add_cost c d) (λ sum. sum ≡ c +ℤ d)
unfolding Ends
add_cost-Ends c d = elim (Bool-cases (is_negative d)) [
  | inl bad ↦ rw bad tt
  | inr good ↦ elim (Bool-cases (ltℤ (ℤ.pos 2147483647) (c +ℤ d))) [
    | inl large ↦ rw (good, large) tt
    | inr small ↦ rw (good, small) refl
  ]
]

pub of_done {ℓ} :
    {A : Type ℓ} (r : Run A) (a : A) (P : A → Type 0) → Ends r P → r ≡ Run.done a → P a
unfolding Ends
of_done r a P h e = rw e at h

pub ends-fuel {ℓ} : {A : Type ℓ} (r : Run A) (P : A → Type 0) → Ends r P → r ≢ Run.out_of_fuel
unfolding Ends
ends-fuel (Run.done a) P h = ground arith
ends-fuel Run.fault P h = ground arith
ends-fuel Run.out_of_fuel P h = absurd h
