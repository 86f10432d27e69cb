-- ===== src/Prelude/Results.antt =====
-- Code that may stop: on an assertion or `abort`, on an exception of the standard library, or on a
-- read through a pointer whose object was deleted.
use mathlib.Core.Bool.{Bool, true, false}

pub data Fault : Type 0 where
  aborted : Fault
  length_error : Fault
  dangling : Fault
  bad_alloc : Fault

-- The run stops at the first fault.
pub data Result {ℓ} (A : Type ℓ) : Type ℓ where
  ok : A → Result A
  err : Fault → Result A

-- `m` and then, unless it stopped, what follows it.
infixl 5 ◌>>=◌
abbrev pub ◌>>=◌ {ℓ₁ ℓ₂} :
    {A : Type ℓ₁} → {B : Type ℓ₂} → (m : Result A) (next : A → Result B) → Result B
err fault >>= next = err fault
ok value >>= next = next value

infixl 5 ◌>>◌
abbrev pub ◌>>◌ {κ} : {B : Type κ} → (m : Result (Unit {0})) (next : Result B) → Result B
err fault >> next = err fault
ok done >> next = next

-- `assert(b)`
abbrev pub assert : Bool → Result (Unit {0})
assert true = ok tt
assert false = err aborted

-- `if (b) m;`
abbrev pub only_if : {S : Type 0} → Bool → (S → Result S) → S → Result S
only_if true m s = m s
only_if false m s = ok s
