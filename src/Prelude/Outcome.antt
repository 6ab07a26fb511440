-- ===== src/Prelude/Outcome.antt =====
-- What code that can throw returns.

use mathlib.Core.Path.{◌≡◌, refl}

-- The C++ exceptions that the program throws, and `fault` for undefined behaviour: a copy past the
-- end of a block, or a `std::string` made of a null pointer.
pub data Error : Type 0 where
  out_of_range overflow_error runtime_error raft_exception bad_function_call : Error
  invalid_argument openssl_exception fault : Error

pub data Result {ℓ} (A : Type ℓ) : Type ℓ where
  ok : A → Result A
  err : Error → Result A

-- The rest of a computation runs on the value of a result.
infixl 5 ◌>>=◌
abbrev pub ◌>>=◌ {ℓ κ} : {A : Type ℓ} {B : Type κ} → Result A → (A → Result B) → Result B
ok a >>= f = f a
err e >>= f = err e

pub >>=_assoc {ℓ} :
    {A B C : Type ℓ} (m : Result A) (f : A → Result B) (g : B → Result C)
    → (m >>= λ a. f a >>= g) ≡ (m >>= f >>= g)
>>=_assoc (ok a) f g = refl
>>=_assoc (err e) f g = refl

-- A chain ends well only where its first step does, and the rest after it.
module _ {ℓ κ} {A : Type ℓ} {B : Type κ} (rest : A → Result B) {end : B} where
  pub bind-ok :
      (first : Result A) → (first >>= rest) ≡ ok end → (x : A) × (rest x ≡ ok end) × (first ≡ ok x)
  bind-ok (err problem) ended = cc
  bind-ok (ok x) ended = (x, ended, refl)
