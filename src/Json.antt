-- ===== src/Json.antt =====
-- The library json11, and the decoding of base 64 by cppcodec, as far as the program calls them.
use enclave_raft.Prelude.{ℕ, Bool, List, Result}

-- A value that has not the type asked for, or no such member, gives the type's empty value; `parse`
-- gives the null value and true for a text that is none. A number is the bit pattern of an `int`.
pub record Json (J : Type 0) : Type 0 where
  pub parse : List ℕ → J × Bool
  pub dump : J → List ℕ
  pub member : List ℕ → J → J
  pub int_value : J → ℕ
  pub string_value : J → List ℕ
  pub array_items : J → List J
  pub of_int : ℕ → J
  pub of_string : List ℕ → J
  pub object : List (List ℕ × J) → J

-- A text that is no base 64 is an exception.
abbrev pub Base64 : Type 0
Base64 = List ℕ → Result (List ℕ)
