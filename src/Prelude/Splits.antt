-- ===== src/Prelude/Splits.antt =====
-- A list cut in two, at numbers of the native naturals.
use Prim.Native.Nat.{ℕ, zero, suc, ◌+◌, ◌≤◌}
use mathlib.Core.Path.{◌≡◌, refl, ap, ◌∙◌, sym}
use mathlib.Core.List.{List, [], ◌∷◌, ◌++◌}
use native.Mathlib.Omega.{arith}
use enclave_raft.Prelude.Lists.{length, take, drop, length-drop, length-eq-zero}

module _ {ℓ} {A : Type ℓ} where
  pub drop_all : (j : ℕ) (es : List A) → length es ≤ j → drop j es ≡ []
  drop_all j es h = length-eq-zero (drop j es) (omega (arith, length-drop j es))

  pub take_all : (k : ℕ) (es : List A) → length es ≤ k → take k es ≡ es
  take_all zero [] h = refl
  take_all zero (e ∷ es) h = absurd (omega arith)
  take_all (suc k) [] h = refl
  take_all (suc k) (e ∷ es) h = ap (λ (l : List A). e ∷ l) (take_all k es (omega arith))

  pub length-take_le : (n : ℕ) (es : List A) → n ≤ length es → length (take n es) ≡ n
  length-take_le zero es h = refl
  length-take_le (suc n) [] h = absurd (omega arith)
  length-take_le (suc n) (x ∷ es) h = omega (arith, length-take_le n es)

  pub take_nil : (n : ℕ) → take {A = A} n [] ≡ []
  take_nil zero = refl
  take_nil (suc n) = refl

  pub take_add : (j n : ℕ) (es : List A) → take (j + n) es ≡ take j es ++ take n (drop j es)
  take_add zero n es = ap (λ (k : ℕ). take k es) (omega arith)
  take_add (suc j) n [] = take_nil (suc j + n) ∙ sym (take_nil n)
  take_add (suc j) n (x ∷ es) =
      ap (λ (k : ℕ). take k (x ∷ es)) next ∙ ap (λ (l : List A). x ∷ l) (take_add j n es)
    where
      next : suc j + n ≡ suc (j + n)
      next = omega arith

  pub take-drop : (j : ℕ) (es : List A) → take j es ++ drop j es ≡ es
  take-drop zero es = refl
  take-drop (suc j) [] = refl
  take-drop (suc j) (x ∷ es) = ap (λ (l : List A). x ∷ l) (take-drop j es)

  pub drop-take : (j : ℕ) (es fs : List A) → j ≤ length es → drop j (take j es ++ fs) ≡ fs
  drop-take zero es fs h = refl
  drop-take (suc j) [] fs h = absurd (omega arith)
  drop-take (suc j) (e ∷ es) fs h = drop-take j es fs (omega arith)

  pub take-take_append :
      (j : ℕ) (es fs : List A) → j ≤ length es → take j (take j es ++ fs) ≡ take j es
  take-take_append zero es fs h = refl
  take-take_append (suc j) [] fs h = absurd (omega arith)
  take-take_append (suc j) (e ∷ es) fs h =
      ap (λ (l : List A). e ∷ l) (take-take_append j es fs (omega arith))

  pub take-append : (n : ℕ) (xs ys : List A) → n ≤ length xs → take n (xs ++ ys) ≡ take n xs
  take-append zero xs ys h = refl
  take-append (suc n) [] ys h = absurd (omega arith)
  take-append (suc n) (x ∷ xs) ys h = ap (λ (l : List A). x ∷ l) (take-append n xs ys (omega arith))

  pub drop-append : (n : ℕ) (xs ys : List A) → n ≤ length xs → drop n (xs ++ ys) ≡ drop n xs ++ ys
  drop-append zero xs ys h = refl
  drop-append (suc n) [] ys h = absurd (omega arith)
  drop-append (suc n) (x ∷ xs) ys h = drop-append n xs ys (omega arith)
