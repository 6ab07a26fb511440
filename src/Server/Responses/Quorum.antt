-- ===== src/Server/Responses/Quorum.antt =====
-- The index that a majority of the members has.
use enclave_raft.Prelude.{
  ℕ, zero, suc, ◌*◌, ◌+◌, ◌/◌, ◌≤◌, ◌<◌, ◌≡◌, refl, ap, List, [], ◌∷◌, arith, leb, if◌then◌else◌,
  length,
}
use enclave_raft.Server.State.{PeerMap}
use enclave_raft.Server.Requests.{nth_or}
use enclave_raft.Server.Responses.{matched_of, insert_desc, sort_desc, quorum_idx}

-- How many of the numbers are `x` or more.
unfoldable pub count_ge : ℕ → List ℕ → ℕ
count_ge x [] = 0
count_ge x (y ∷ ys) = if leb x y then suc (count_ge x ys) else count_ge x ys

count_ge-insert : (x y : ℕ) (ys : List ℕ) → count_ge x (insert_desc y ys) ≡ count_ge x (y ∷ ys)
unfolding count_ge insert_desc
count_ge-insert x y [] = refl
count_ge-insert x y (z ∷ ys) = ground (arith, count_ge-insert x y ys)

count_ge-sort : (x : ℕ) (ys : List ℕ) → count_ge x (sort_desc ys) ≡ count_ge x ys
unfolding count_ge sort_desc
count_ge-sort x [] = refl
count_ge-sort x (y ∷ ys) = ground (arith, count_ge-insert x y (sort_desc ys), count_ge-sort x ys)

length-insert : (y : ℕ) (ys : List ℕ) → length (insert_desc y ys) ≡ suc (length ys)
unfolding insert_desc
length-insert y [] = refl
length-insert y (z ∷ ys) = ground (arith, length-insert y ys)

length-sort : (ys : List ℕ) → length (sort_desc ys) ≡ length ys
unfolding sort_desc
length-sort [] = refl
length-sort (y ∷ ys) = ground (arith, length-insert y (sort_desc ys), length-sort ys)

-- Sorted downwards.
abbrev HeadLe : ℕ → List ℕ → Type 0
HeadLe x [] = Unit {0}
HeadLe x (y ∷ ys) = y ≤ x

abbrev IsDesc : List ℕ → Type 0
IsDesc [] = Unit {0}
IsDesc (y ∷ ys) = HeadLe y ys × IsDesc ys

insert_desc-IsDesc : (x : ℕ) (ys : List ℕ) → IsDesc ys → IsDesc (insert_desc x ys)
unfolding insert_desc
insert_desc-IsDesc x [] h = (tt, tt)
insert_desc-IsDesc x (y ∷ []) h = ground arith
insert_desc-IsDesc x (y ∷ (z ∷ ys)) h = ground (arith, insert_desc-IsDesc x (z ∷ ys) h.1)

sort_desc-IsDesc : (ys : List ℕ) → IsDesc (sort_desc ys)
unfolding sort_desc
sort_desc-IsDesc [] = tt
sort_desc-IsDesc (y ∷ ys) = insert_desc-IsDesc y (sort_desc ys) (sort_desc-IsDesc ys)

nth_le_head : (y : ℕ) (ys : List ℕ) (n : ℕ) → IsDesc (y ∷ ys) → nth_or 0 (y ∷ ys) n ≤ y
nth_le_head y ys zero h = omega arith
nth_le_head y [] (suc n) h = omega arith
nth_le_head y (z ∷ ys) (suc n) h = omega (arith, nth_le_head z ys n h.1, h.0)

count_ge-cons : (x y : ℕ) (ys : List ℕ) → x ≤ y → count_ge x (y ∷ ys) ≡ suc (count_ge x ys)
unfolding count_ge
count_ge-cons x y ys h = ground arith

-- At a position of a list sorted downwards there are so many numbers that are no smaller.
nth-count_ge :
    (ys : List ℕ) (n : ℕ) → IsDesc ys → n < length ys → suc n ≤ count_ge (nth_or 0 ys n) ys
nth-count_ge [] n h g = absurd (omega arith)
nth-count_ge (y ∷ ys) zero h g = omega (arith, count_ge-cons y y ys (omega arith))
nth-count_ge (y ∷ ys) (suc n) h g = omega (
  arith,
  nth-count_ge ys n h.1 (omega arith),
  count_ge-cons (nth_or 0 ys n) y ys (nth_le_head y ys (suc n) h),
)

length-matched_of : (ps : PeerMap) → length (matched_of ps) ≡ length ps
length-matched_of [] = refl
length-matched_of ((k, p) ∷ ps) = ap suc (length-matched_of ps)

-- The index that the leader commits is one that a majority of the members, the leader among them,
-- has: twice as many as have it are more than all.
pub quorum_idx-majority :
    (own : ℕ) (ps : PeerMap)
    → length ps + 1 < 2 * count_ge (quorum_idx own ps) (own ∷ matched_of ps)
unfolding quorum_idx
quorum_idx-majority own ps = omega (
  arith,
  length-matched_of ps,
  length-sort (own ∷ matched_of ps),
  count_ge-sort (quorum_idx own ps) (own ∷ matched_of ps),
  nth-count_ge (sort_desc (own ∷ matched_of ps)) ((length ps + 1) / 2)
      (sort_desc-IsDesc (own ∷ matched_of ps))
      (omega (arith, length-matched_of ps, length-sort (own ∷ matched_of ps))),
)
