-- ===== src/UrlDecode/Percent.antt =====
-- What is encoded with percent signs is decoded.
use enclave_raft.Prelude.{ℕ, ◌+◌, ◌/◌, ◌%◌, Bool, List, [], ◌∷◌, ◌++◌, ltb, if◌then◌else◌}

-- A digit of base 16, in capital letters.
abbrev pub digit : ℕ → ℕ
digit d = if ltb d 10 then 48 + d else 55 + d

abbrev pub escape : ℕ → List ℕ
escape c = 37 ∷ (digit (c / 16) ∷ (digit (c % 16) ∷ []))

-- What `plain` says of a character decides whether it is escaped.
abbrev pub encode : (ℕ → Bool) → List ℕ → List ℕ
encode plain [] = []
encode plain (c ∷ cs) = (if plain c then c ∷ [] else escape c) ++ encode plain cs
