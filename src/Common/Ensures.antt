-- ===== src/Common/Ensures.antt =====
-- Total correctness of a computation that may raise: it returns a value with `P`, or it raises
-- one of the errors in `E`. An exhausted fuel is such an error, so `E` rules it out or not.
use mathlib.Core.Path.{◌≡◌, refl}
use mathlib.Core.Bool.{Bool, true, false}
use sih.Common.Tests.{if◌then◌else◌}
use sih.Common.Exceptions.{Message, ErrorKind, Error, Result, ok, err, raise, raise_if, ◌>>=◌, ◌>>◌}

abbrev pub Outcome {ℓ} : {A : Type ℓ} → (ErrorKind → Type 0) → (A → Type 0) → Result A → Type 0
Outcome E P (ok a) = P a
Outcome E P (err e) = E e.kind

pub record Ensures {ℓ} {A : Type ℓ} (E : ErrorKind → Type 0) (P : A → Type 0) (r : Result A)
    : Type 0 where
  pub outcome : Outcome E P r

module _ {ℓ} {A : Type ℓ} {E : ErrorKind → Type 0} {P : A → Type 0} where
  pub returns : (a : A) → P a → Ensures E P (ok a)
  returns a h = record { outcome = h }

  pub raises : (k : ErrorKind) (m : Message) → E k → Ensures E P (raise k m)
  raises k m h = record { outcome = h }

  -- A result that is known to be a value.
  pub Ensures-eq : (r : Result A) (a : A) → r ≡ ok a → P a → Ensures E P r
  Ensures-eq r a e h = rw e (returns a h)

  pub Ensures-value : (r : Result A) → Ensures E P r → (a : A) → r ≡ ok a → P a
  Ensures-value r h a e = (rw e at h).outcome

  pub Ensures-error : (r : Result A) → Ensures E P r → (e : Error) → r ≡ err e → E e.kind
  Ensures-error r h e q = (rw q at h).outcome

  -- The rule for a guard: what follows it may use that its test failed.
  pub Ensures-raise_if :
      (b : Bool) (k : ErrorKind) (m : Message) (next : Result A)
      → E k
      → (b ≡ false → Ensures E P next)
      → Ensures E P (raise_if b k m >> next)
  Ensures-raise_if true k m next h rest = raises k m h
  Ensures-raise_if false k m next h rest = rest refl

  pub Ensures-if :
      (b : Bool) (m n : Result A)
      → (b ≡ true → Ensures E P m)
      → (b ≡ false → Ensures E P n)
      → Ensures E P (if b then m else n)
  Ensures-if true m n hm hn = hm refl
  Ensures-if false m n hm hn = hn refl

-- Nothing is known of the result.
pub Ensures-any {ℓ} : {A : Type ℓ} (r : Result A) → Ensures (λ _. Unit) (λ _. Unit) r
Ensures-any (ok a) = record { outcome = tt }
Ensures-any (err e) = record { outcome = tt }

-- A result is what it is.
pub Ensures-known : {A : Type 0} (r : Result A) → Ensures (λ _. Unit) (λ a. r ≡ ok a) r
Ensures-known (ok a) = record { outcome = refl }
Ensures-known (err e) = record { outcome = tt }

module _ {ℓ} {A : Type ℓ} {E : ErrorKind → Type 0} {P Q : A → Type 0} where
  pub Ensures-weaken : (r : Result A) → ((a : A) → P a → Q a) → Ensures E P r → Ensures E Q r
  Ensures-weaken (ok a) f h = record { outcome = f a h.outcome }
  Ensures-weaken (err e) f h = record { outcome = h.outcome }

module _ {ℓ κ} {A : Type ℓ} {B : Type κ} {E : ErrorKind → Type 0} {P : A → Type 0}
    {Q : B → Type 0} where
  pub Ensures-bind :
      (m : Result A) (f : A → Result B)
      → Ensures E P m
      → ((a : A) → P a → Ensures E Q (f a))
      → Ensures E Q (m >>= f)
  Ensures-bind (ok a) f h k = k a h.outcome
  Ensures-bind (err e) f h k = record { outcome = h.outcome }
