-- ===== src/LogStore/Packs/Rounds.antt =====
-- A pack of entries: the loop of `apply_pack` ends where the pack does, whatever its count.
use enclave_raft.Prelude.{
  overflow_error, fault, ℕ, zero, suc, ◌+◌, ◌-◌, ◌≤◌, ◌^◌, subst, ◌<◌, ◌≡◌, refl, ap, ◌∙◌, sym,
  splice, arith, Result, ok, err, Error, Bool-cases, ◌⊎◌, inl, inr, ltb, ltb→ge, take,
}
use enclave_raft.Buffer.{
  seek, Buffer, size, rest_of, alloc, get_int, get_buffer, mv_fw, read_loop, max_size,
}
use enclave_raft.Buffer.Cursor.{mv_fw_lem}
use enclave_raft.Entry
use enclave_raft.Entry.{LogEntry}
use enclave_raft.LogStore.Packs.Applied.{apply_step}
use enclave_raft.LogStore.{
  pack_rounds, apply_pack, set_start, LogStore, read_entry, apply_loop, insert,
}

-- A position inside a block that is smaller than the largest buffer.
abbrev pub IsInside : Buffer → Type 0
IsInside b = (b.pos ≤ size b) × (size b < max_size)

-- The second position is in the same block, at least `d` behind the first.
abbrev Moved : ℕ → Buffer → Buffer → Type 0
Moved d b b' = (size b' ≡ size b) × (b.pos + d ≤ b'.pos) × (b'.pos ≤ size b)

mv_fw-Moved : (b : Buffer) (d : ℕ) → IsInside b → d ≤ size b - b.pos → Moved d b (mv_fw b d)
mv_fw-Moved b d (inside, small) h =
    rw (mv_fw_lem b d (omega (arith, inside, h)) small)
      (refl, omega arith, omega (arith, inside, h))

Moved-IsInside : (d : ℕ) (b b' : Buffer) → IsInside b → Moved d b b' → IsInside b'
Moved-IsInside d b b' (_, small) (same, _, inside) =
    (omega (arith, same, inside), omega (arith, same, small))

Moved-next : (b b1 b2 : Buffer) → Moved 4 b b1 → Moved 0 b1 b2 → Moved 4 b b2
Moved-next b b1 b2 (same, on, _) (same', on', inside) =
    (same' ∙ same, omega (arith, on, on'), omega (arith, same, inside))

-- A result is an exception, or a value of which `P` holds.
abbrev Returns {ℓ κ} : {A : Type ℓ} → (A → Type κ) → Result A → Type (ℓ ⊔ κ)
Returns {A = A} P r = ((x : Error) × (r ≡ err x)) ⊎ ((a : A) × (r ≡ ok a) × P a)

result-Returns : {A : Type 0} (r : Result A) → Returns (λ a. Unit {0}) r
result-Returns (ok a) = inr (a, refl, tt)
result-Returns (err x) = inl (x, refl)

get_int-Returns : (b : Buffer) → IsInside b → Returns (λ (v, b'). Moved 4 b b') (get_int b)
unfolding get_int
get_int-Returns b i = elim (Bool-cases (ltb (size b - b.pos) 4)) [
  | inl q ↦ inl (overflow_error, rw q refl)
  | inr q ↦
      inr ((read_loop 32 4 0 0 (rest_of b), mv_fw b 4), rw q refl, mv_fw-Moved b 4 i (ltb→ge _ 4 q))
]

get_buffer-Returns :
    (dst b : Buffer) → IsInside b → Returns (λ (d, b'). Moved 0 b b') (get_buffer dst b)
unfolding get_buffer
get_buffer-Returns dst b i = elim (Bool-cases (ltb (size b - b.pos) (size dst - dst.pos))) [
  | inl q ↦ inl (fault, rw q refl)
  | inr q ↦
      let (same, on, inside) = mv_fw-Moved b (size dst - dst.pos) i (ltb→ge _ _ q) in
      inr (
        (
          record dst { bytes = splice dst.pos (take (size dst - dst.pos) (rest_of b)) dst.bytes },
          mv_fw b (size dst - dst.pos),
        ),
        rw q refl,
        (same, omega (arith, on), inside),
      )
]

read_entry-Returns :
    (raw : ℕ → ℕ) (b : Buffer) → IsInside b → Returns (λ (e, b'). Moved 4 b b') (read_entry raw b)
unfolding read_entry
read_entry-Returns raw b i = elim (get_int-Returns b i) [
  | inl (x, p) ↦ inl (x, rw p refl)
  | inr ((sz, b1), p, m) ↦ elim (result-Returns (alloc raw sz)) [
    | inl (x, q) ↦ inl (x, rw (p, q) refl)
    | inr (local, q, u) ↦ elim (get_buffer-Returns local b1 (Moved-IsInside 4 b b1 i m)) [
      | inl (x, r) ↦ inl (x, rw (p, q, r) refl)
      | inr ((filled, b2), r, n) ↦ elim (result-Returns (Entry.deserialize raw filled)) [
        | inl (x, s) ↦ inl (x, rw (p, q, r, s) refl)
        | inr (e, s, w) ↦ inr ((e, b2), rw (p, q, r, s) refl, Moved-next b b1 b2 m n)
      ]
    ]
  ]
]

loop_stop :
    (raw : ℕ → ℕ) (n i : ℕ) (b : Buffer) (s : LogStore) (x : Error)
    → read_entry raw b ≡ err x
    → apply_loop raw (suc n) i b s ≡ (err x, s)
unfolding apply_loop
loop_stop raw n i b s x p = rw (p, apply_loop) refl

-- The loop ends with an exception after fewer rounds than there are bytes left, plus one, and more
-- rounds change nothing.
pub apply_loop-ends :
    (raw : ℕ → ℕ) (n m i : ℕ) (b : Buffer) (s : LogStore)
    → IsInside b
    → size b - b.pos < n
    → size b - b.pos < m
    → (apply_loop raw n i b s ≡ apply_loop raw m i b s)
      × (x : Error) × ((apply_loop raw n i b s).0 ≡ err x)
unfolding apply_loop
apply_loop-ends raw zero m i b s j h g = absurd (omega (arith, h))
apply_loop-ends raw (suc n) zero i b s j h g = absurd (omega (arith, g))
apply_loop-ends raw (suc n) (suc m) i b s j h g = elim (read_entry-Returns raw b j) [
  | inl (x, p) ↦ (
    loop_stop raw n i b s x p ∙ sym (loop_stop raw m i b s x p),
    x,
    ap (λ r. r.0) (loop_stop raw n i b s x p),
  )
  | inr ((e, b'), p, v) ↦
      let (same, x, q) =
        apply_loop-ends raw n m (suc i) b' (record s { logs = insert i e s.logs })
          (Moved-IsInside 4 b b' j v) (omega (arith, v, h)) (omega (arith, v, g)) in
      (
        apply_step raw n i b b' e s p ∙ same ∙ sym (apply_step raw m i b b' e s p),
        x,
        ap (λ r. r.0) (apply_step raw n i b b' e s p) ∙ q,
      )
]

get_int-read :
    (b b' : Buffer) (v : ℕ) → IsInside b → get_int b ≡ ok (v, b') → IsInside b' × (size b' ≡ size b)
get_int-read b b' v i p = elim (get_int-Returns b i) [
  | inl (x, q) ↦ absurd cc
  | inr ((w, c), q, m) ↦
      let same : c ≡ b' = cc in
      subst (λ (d : Buffer). IsInside d × (size d ≡ size b)) same (Moved-IsInside 4 b c i m, m.0)
]

start-IsInside : (b : Buffer) → size b < max_size → IsInside (seek 0 b) × (size (seek 0 b) ≡ size b)
unfolding seek
start-IsInside b h = ground arith

set_start-err :
    (r : Result (Unit {0}) × LogStore) (x : Error) → r.0 ≡ err x → (set_start r).0 ≡ err x
set_start-err (ok u, s) x h = absurd cc
set_start-err (err y, s) x h = h

negative_rounds :
    (i num : ℕ) (b : Buffer) → 2 ^ 31 ≤ num → i < 2 ^ 32 - num → pack_rounds i num b ≡ size b + 1
unfolding pack_rounds
negative_rounds i num b h k = ground arith

apply_pack_lem :
    (raw : ℕ → ℕ) (i num : ℕ) (b b' : Buffer) (s : LogStore)
    → get_int (seek 0 b) ≡ ok (num, b')
    → apply_pack raw i b s ≡ set_start (apply_loop raw (pack_rounds i num b) i b' s)
unfolding apply_pack
apply_pack_lem raw i num b b' s p = rw (p, apply_pack) refl

-- A pack whose count is negative, applied at an index so low that the bound of the loop wraps, ends
-- with an exception, and the rounds that the model gives the loop are enough: more would change nothing.
pub apply_pack-negative :
    (raw : ℕ → ℕ) (i num m : ℕ) (b b' : Buffer) (s : LogStore)
    → size b < max_size
    → get_int (seek 0 b) ≡ ok (num, b')
    → 2 ^ 31 ≤ num
    → i < 2 ^ 32 - num
    → size b < m
    → (apply_pack raw i b s ≡ set_start (apply_loop raw m i b' s))
      × (x : Error) × ((apply_pack raw i b s).0 ≡ err x)
unfolding apply_pack
apply_pack-negative raw i num m b b' s small p neg low enough =
    let (start, len) = start-IsInside b small in
    let (inside, len') = get_int-read (seek 0 b) b' num start p in
    let (same, x, q) =
      apply_loop-ends raw (size b + 1) m i b' s inside (omega (arith, len, len'))
        (omega (arith, len, len', enough)) in
    let first =
      apply_pack_lem raw i num b b' s p
      ∙ ap (λ (n : ℕ). set_start (apply_loop raw n i b' s)) (negative_rounds i num b neg low) in
    (first ∙ ap set_start same, x, ap (λ r. r.0) first ∙ set_start-err _ x q)
