-- ===== src/Prelude/Lists.antt =====
-- Lists measured and indexed by native numbers, under the library's names, and the overwriting of
-- a part of a list, which is what a write into a block of memory does.
use Prim.Native.Nat.{ℕ, zero, suc, ◌+◌, ◌-◌, ◌≤◌}
use mathlib.Core.Path.{◌≡◌, refl, ap}
use mathlib.Core.List.{List, [], ◌∷◌, ◌++◌, map}
use mathlib.Core.Option.{Option, none, some}
use native.Mathlib.Omega.{arith}

module _ {ℓ} {A : Type ℓ} where
  abbrev pub length : List A → ℕ
  length [] = 0
  length (x ∷ xs) = suc (length xs)

  abbrev pub get_elem? : List A → ℕ → Option A
  get_elem? [] i = none
  get_elem? (x ∷ xs) zero = some x
  get_elem? (x ∷ xs) (suc i) = get_elem? xs i

  abbrev pub take : ℕ → List A → List A
  take zero xs = []
  take (suc n) [] = []
  take (suc n) (x ∷ xs) = x ∷ take n xs

  abbrev pub drop : ℕ → List A → List A
  drop zero xs = xs
  drop (suc n) [] = []
  drop (suc n) (x ∷ xs) = drop n xs

  -- The first elements of `dst` replaced by `src`.
  abbrev pub overlay : List A → List A → List A
  overlay [] dst = dst
  overlay (x ∷ src) [] = []
  overlay (x ∷ src) (y ∷ dst) = x ∷ overlay src dst

  -- `memcpy(dst + n, src, length src)`.
  abbrev pub splice : ℕ → List A → List A → List A
  splice zero src dst = overlay src dst
  splice (suc n) src [] = []
  splice (suc n) src (y ∷ dst) = y ∷ splice n src dst

  abbrev pub All {κ} : (A → Type κ) → List A → Type κ
  All P [] = Unit {κ}
  All P (x ∷ xs) = P x × All P xs

  pub length-append : (xs ys : List A) → length (xs ++ ys) ≡ length xs + length ys
  length-append [] ys = omega arith
  length-append (x ∷ xs) ys = omega (arith, length-append xs ys)

  pub length-drop : (n : ℕ) (xs : List A) → length (drop n xs) ≡ length xs - n
  length-drop zero xs = omega arith
  length-drop (suc n) [] = omega arith
  length-drop (suc n) (x ∷ xs) = omega (arith, length-drop n xs)

  pub length-eq-zero : (xs : List A) → length xs ≡ 0 → xs ≡ []
  length-eq-zero [] h = refl
  length-eq-zero (x ∷ xs) h = absurd (omega arith)

  pub drop-length_append : (xs ys : List A) → drop (length xs) (xs ++ ys) ≡ ys
  drop-length_append [] ys = refl
  drop-length_append (x ∷ xs) ys = drop-length_append xs ys

  pub take-length_append : (xs ys : List A) → take (length xs) (xs ++ ys) ≡ xs
  take-length_append [] ys = refl
  take-length_append (x ∷ xs) ys = ap (λ l. x ∷ l) (take-length_append xs ys)

  pub overlay-eq :
      (src dst : List A) → length src ≤ length dst → overlay src dst ≡ src ++ drop (length src) dst
  overlay-eq [] dst h = refl
  overlay-eq (x ∷ src) [] h = absurd (omega arith)
  overlay-eq (x ∷ src) (y ∷ dst) h = ap (λ l. x ∷ l) (overlay-eq src dst (omega arith))

  pub splice-append :
      (front src dst : List A)
      → length src ≤ length dst
      → splice (length front) src (front ++ dst) ≡ front ++ (src ++ drop (length src) dst)
  splice-append [] src dst h = overlay-eq src dst h
  splice-append (x ∷ front) src dst h = ap (λ l. x ∷ l) (splice-append front src dst h)

  pub length-overlay : (src dst : List A) → length (overlay src dst) ≡ length dst
  length-overlay [] dst = refl
  length-overlay (x ∷ src) [] = refl
  length-overlay (x ∷ src) (y ∷ dst) = ap suc (length-overlay src dst)

  pub length-splice : (n : ℕ) (src dst : List A) → length (splice n src dst) ≡ length dst
  length-splice zero src dst = length-overlay src dst
  length-splice (suc n) src [] = refl
  length-splice (suc n) src (y ∷ dst) = ap suc (length-splice n src dst)

pub length-map {ℓ κ} :
    {A : Type ℓ} {B : Type κ} (f : A → B) (xs : List A) → length (map f xs) ≡ length xs
length-map f [] = refl
length-map f (x ∷ xs) = ap suc (length-map f xs)
