-- ===== src/UrlDecode.antt =====
-- common/url_decode.cxx: a text of C, up to a pointer, with its percent signs taken away. The list is
-- the text up to its zero byte, and the number what is left before the pointer `end`.
pub mod Percent
use enclave_raft.Prelude.{
  ℕ, ◌+◌, ◌-◌, ◌*◌, ◌%◌, Bool, true, false, ◌&&◌, ◌||◌, Option, none, some, List, [], ◌∷◌, leb,
  ◌==◌, if◌then◌else◌, Result, Error, ok, err, fault,
}

unfoldable pub hex_digit : ℕ → Option ℕ
hex_digit c =
    if leb 48 c && leb c 57
    then some (c - 48)
    else if leb 65 c && leb c 70
    then some (c - 55)
    else if leb 97 c && leb c 102
    then some (c - 87)
    else none

abbrev pub is_space : ℕ → Bool
is_space c = (leb 9 c && leb c 13) || c == 32

abbrev pub digit_or_zero : Option ℕ → ℕ
digit_or_zero none = 0
digit_or_zero (some d) = d

-- `strtol(buffer, nullptr, 16)` of two characters, as a byte: a space or a sign may stand before the
-- digit, and what comes after the digits counts for nothing.
unfoldable pub strtol_16 : ℕ → ℕ → ℕ
unfolding hex_digit
strtol_16 a b = elim (hex_digit a) [
  | some x ↦ elim (hex_digit b) [ some y ↦ 16 * x + y | none ↦ x ]
  | none ↦
      if is_space a || a == 43
      then digit_or_zero (hex_digit b)
      else if a == 45
      then (256 - digit_or_zero (hex_digit b)) % 256
      else 0
]

abbrev pub push : ℕ → Result (List ℕ) → Result (List ℕ)
push c (ok out) = ok (c ∷ out)
push c (err e) = err e

-- A percent sign takes two characters also where they are behind `end`; where the text has not two
-- more, the pointer passes its end.
unfoldable pub url_decode : ℕ → List ℕ → Result (List ℕ)
unfolding strtol_16
url_decode n [] = ok []
url_decode n (c ∷ []) = if n == 0 then ok [] else if c == 37 then err fault else ok (c ∷ [])
url_decode n (c ∷ (a ∷ [])) =
    if n == 0 then ok [] else if c == 37 then err fault else push c (url_decode (n - 1) (a ∷ []))
url_decode n (c ∷ (a ∷ (b ∷ text))) = if n == 0 then ok [] else elim (c == 37) [
  | true ↦ push (strtol_16 a b) (url_decode (n - 3) text)
  | false ↦ push c (url_decode (n - 1) (a ∷ (b ∷ text)))
]
