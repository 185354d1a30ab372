-- ===== src/CLib/Run.antt =====
-- How a run of C code ends: it returns, the process exits with a code, or it does what the
-- language leaves undefined.
use kerberized_multimedia_in.Base.{ℕ, ◌≡◌, refl, Bool, true, false, Option, none, some}

pub data Fault : Type 0 where
  null_pointer out_of_bounds overflow uninitialised division_by_zero : Fault

pub data Outcome {ℓ} (A : Type ℓ) : Type ℓ where
  returns : A → Outcome A
  exits : ℕ → Outcome A
  faults : Fault → Outcome A

infixl 5 ◌>>=◌ ◌>>◌
abbrev pub ◌>>=◌ {ℓ κ} : {A : Type ℓ} {B : Type κ} → Outcome A → (A → Outcome B) → Outcome B
returns a >>= f = f a
exits n >>= f = exits n
faults e >>= f = faults e

abbrev pub ◌>>◌ {ℓ} : {B : Type ℓ} → Outcome (Unit {0}) → Outcome B → Outcome B
m >> k = m >>= λ _. k

-- `if (c) exit(n);`
abbrev pub exit_if : Bool → ℕ → Outcome (Unit {0})
exit_if true n = exits n
exit_if false n = returns tt

-- A dereference, or a library call that reads through the pointer.
abbrev pub deref {ℓ} : {A : Type ℓ} → Option A → Outcome A
deref none = faults null_pointer
deref (some a) = returns a

abbrev pub in_bounds {ℓ} : {A : Type ℓ} → Option A → Outcome A
in_bounds none = faults out_of_bounds
in_bounds (some a) = returns a

pub >>=-eq-returns {ℓ κ} :
    {A : Type ℓ} {B : Type κ} (m : Outcome A) (f : A → Outcome B) {b : B}
    → (m >>= f) ≡ returns b
    → (a : A) × (m ≡ returns a) × (f a ≡ returns b)
>>=-eq-returns (returns a) f h = (a, refl, h)
>>=-eq-returns (exits n) f h = cc
>>=-eq-returns (faults e) f h = cc
