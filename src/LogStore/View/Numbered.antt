-- ===== src/LogStore/View/Numbered.antt =====
-- The map whose keys are consecutive, one per entry of a list.
use enclave_raft.Prelude.{
  ℕ, zero, suc, ◌+◌, ◌≤◌, ◌<◌, ◌≡◌, refl, ap, none, some, List, [], ◌∷◌, ◌++◌, length, take, drop,
  get_elem?, arith,
}
use enclave_raft.Entry.{LogEntry}
use enclave_raft.LogStore.{LogMap, find, insert, erase, erase_from, erase_loop}

-- The entries under consecutive keys.
abbrev pub number : ℕ → List LogEntry → LogMap
number i [] = []
number i (e ∷ es) = (i, e) ∷ number (suc i) es

pub length-number : (i : ℕ) (es : List LogEntry) → length (number i es) ≡ length es
length-number i [] = refl
length-number i (e ∷ es) = ap suc (length-number (suc i) es)

pub insert-number :
    (i : ℕ) (es : List LogEntry) (k : ℕ) (e : LogEntry)
    → k ≡ i + length es
    → insert k e (number i es) ≡ number i (es ++ (e ∷ []))
unfolding insert
insert-number i [] k e h = ground arith
insert-number i (x ∷ es) k e h = ground (arith, insert-number (suc i) es k e)

pub erase_from-number :
    (i : ℕ) (es : List LogEntry) (n : ℕ) → erase_from (i + n) (number i es) ≡ number i (take n es)
unfolding erase_from
erase_from-number i [] zero = refl
erase_from-number i [] (suc n) = refl
erase_from-number i (x ∷ es) zero = ground arith
erase_from-number i (x ∷ es) (suc n) = ground (arith, erase_from-number (suc i) es n)

pub find-number : (i : ℕ) (es : List LogEntry) (n : ℕ) → find (i + n) (number i es) ≡ get_elem? es n
unfolding find
find-number i [] n = refl
find-number i (x ∷ es) zero = ground arith
find-number i (x ∷ es) (suc n) = ground (arith, find-number (suc i) es n)

pub find_high :
    (i : ℕ) (es : List LogEntry) (k : ℕ) → i + length es ≤ k → find k (number i es) ≡ none
unfolding find
find_high i [] k h = refl
find_high i (x ∷ es) k h = ground (arith, find_high (suc i) es k)

pub find_low : (i : ℕ) (es : List LogEntry) (k : ℕ) → k < i → find k (number i es) ≡ none
unfolding find
find_low i [] k h = refl
find_low i (x ∷ es) k h = ground (arith, find_low (suc i) es k)

abbrev pub last : List LogEntry → LogEntry → LogEntry
last [] d = d
last (e ∷ es) d = last es e

pub get_elem?-last :
    (es : List LogEntry) (d : LogEntry) (n : ℕ)
    → length es ≡ suc n
    → get_elem? es n ≡ some (last es d)
get_elem?-last [] d n h = absurd (omega arith)
get_elem?-last (e ∷ []) d zero h = refl
get_elem?-last (e ∷ []) d (suc n) h = absurd (omega arith)
get_elem?-last (e ∷ (f ∷ es)) d zero h = absurd (omega arith)
get_elem?-last (e ∷ (f ∷ es)) d (suc n) h = get_elem?-last (f ∷ es) e n (omega arith)

pub erase-first : (i k : ℕ) (es : List LogEntry) → k < i → erase k (number i es) ≡ number i es
unfolding erase
erase-first i k [] h = refl
erase-first i k (x ∷ es) h = ground (arith, erase-first (suc i) k es)

pub erase_loop-low :
    (n i : ℕ) (d : LogEntry) (m : LogMap)
    → 1 ≤ i
    → erase_loop n i ((0, d) ∷ m) ≡ (0, d) ∷ erase_loop n i m
unfolding erase_loop
erase_loop-low zero i d m h = refl
erase_loop-low (suc n) i d m h = ground (arith, erase_loop-low n (suc i) d (erase i m))

pub erase_loop-nil : (n i : ℕ) → erase_loop n i [] ≡ []
unfolding erase_loop
erase_loop-nil zero i = refl
erase_loop-nil (suc n) i = erase_loop-nil n (suc i)

pub erase_loop-number :
    (n i j : ℕ) (es : List LogEntry)
    → j ≡ i + n
    → erase_loop n i (number i es) ≡ number j (drop n es)
unfolding erase_loop
erase_loop-number zero i j es h = ap (λ (k : ℕ). number k es) (omega arith)
erase_loop-number (suc n) i j [] h = erase_loop-nil n (suc i)
erase_loop-number (suc n) i j (e ∷ es) h = ground (arith, erase_loop-number n (suc i) j es)

pub drop_cons :
    (j : ℕ) (es : List LogEntry)
    → j < length es
    → (e : LogEntry) × (get_elem? es j ≡ some e) × (drop j es ≡ e ∷ drop (suc j) es)
drop_cons j [] h = absurd (omega arith)
drop_cons zero (e ∷ es) h = (e, refl, refl)
drop_cons (suc j) (e ∷ es) h = drop_cons j es (omega arith)
