-- ===== src/Keys/CText.antt =====
-- Texts of C, as the code takes them apart: a list is a text up to its zero byte.
use enclave_raft.Prelude.{
  ℕ, ◌+◌, ◌-◌, ◌*◌, ◌%◌, ◌^◌, min, Bool, true, false, ◌&&◌, Option, none, some, List, [], ◌∷◌, leb,
  ◌==◌, if◌then◌else◌, length, drop, Result, ok, err, fault,
}
use enclave_raft.UrlDecode.{is_space}

-- `std::string::c_str`, read up to its first zero byte.
unfoldable pub c_str : List ℕ → List ℕ
c_str [] = []
c_str (c ∷ cs) = if c == 0 then [] else c ∷ c_str cs

unfoldable pub starts_with : List ℕ → List ℕ → Bool
starts_with [] text = true
starts_with (p ∷ ps) [] = false
starts_with (p ∷ ps) (c ∷ cs) = p == c && starts_with ps cs

-- `strstr`: the text from the first place on where the needle stands.
unfoldable pub strstr : List ℕ → List ℕ → Option (List ℕ)
unfolding starts_with
strstr needle [] = if starts_with needle [] then some [] else none
strstr needle (c ∷ cs) = if starts_with needle (c ∷ cs) then some (c ∷ cs) else strstr needle cs

-- `strstr(text, needle) + strlen(needle)`. Without a place this is no pointer into the text.
unfoldable pub behind : List ℕ → List ℕ → Result (List ℕ)
unfolding strstr
behind needle text = elim (strstr needle text) [
  | none ↦ err fault
  | some found ↦ ok (drop (length needle) found)
]

-- The number of characters before the needle.
unfoldable pub before : List ℕ → List ℕ → Result ℕ
unfolding strstr
before needle text = elim (strstr needle text) [
  | none ↦ err fault
  | some found ↦ ok (length text - length found)
]

-- The digits of `strtoul` in base 10; a number that does not fit is the largest.
unfoldable pub digits_10 : ℕ → List ℕ → ℕ
digits_10 acc [] = acc
digits_10 acc (c ∷ cs) =
    if leb 48 c && leb c 57 then digits_10 (min (10 * acc + (c - 48)) (2 ^ 64 - 1)) cs else acc

abbrev signed_10 : List ℕ → ℕ
signed_10 [] = 0
signed_10 (c ∷ cs) =
    if c == 43
    then digits_10 0 cs
    else if c == 45
    then (2 ^ 64 - digits_10 0 cs) % 2 ^ 64
    else digits_10 0 (c ∷ cs)

-- `strtoul(text, nullptr, 10)`
unfoldable pub strtoul_10 : List ℕ → ℕ
unfolding digits_10
strtoul_10 [] = 0
strtoul_10 (c ∷ cs) = if is_space c then strtoul_10 cs else signed_10 (c ∷ cs)
