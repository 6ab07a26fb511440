-- ===== src/Buffer/Cursor.antt =====
-- Reading and writing seen as a cursor between what is done and what is left.
use enclave_raft.Prelude.{
  ℕ, zero, suc, ◌+◌, ◌-◌, ◌^◌, ◌≤◌, ◌<◌, ◌≡◌, refl, ap, List, [], ◌++◌, arith, length,
  length-append, drop, length-drop, splice-append, ok, append_assoc, le→ltb, lt→leb,
}
use enclave_raft.Buffer.{
  Buffer, size, max_size, fresh_bytes, alloc, mv_fw, read_loop, write_loop, put_bytes,
}

abbrev pub cursor : List ℕ → List ℕ → Buffer
cursor front rest = record { bytes = front ++ rest; pos = length front }

-- The whole block is smaller than the largest buffer.
abbrev pub Fits : List ℕ → List ℕ → Type 0
Fits front rest = length front + length rest < max_size

pub Fits-next : (bs front rest : List ℕ) → Fits front (bs ++ rest) → Fits (front ++ bs) rest
Fits-next bs front rest h = omega (arith, length-append bs rest, length-append front bs)

pub Fits-nil : (l : List ℕ) → length l < max_size → Fits [] l
Fits-nil l h = omega (arith, h)

pub size-cursor : (front rest : List ℕ) → Fits front rest → size (cursor front rest) < max_size
size-cursor front rest h = omega (arith, length-append front rest)

pub length-fresh_bytes : (raw : ℕ → ℕ) (i n : ℕ) → length (fresh_bytes raw i n) ≡ n
unfolding fresh_bytes
length-fresh_bytes raw i zero = refl
length-fresh_bytes raw i (suc n) = ap suc (length-fresh_bytes raw (suc i) n)

pub alloc-cursor :
    (raw : ℕ → ℕ) (n : ℕ) → n < max_size → alloc raw n ≡ ok (cursor [] (fresh_bytes raw 0 n))
unfolding alloc
alloc-cursor raw n h = rw (lt→leb n max_size h)

-- A move inside the block does not wrap.
pub mv_fw_lem :
    (b : Buffer) (d : ℕ)
    → b.pos + d ≤ size b
    → size b < max_size
    → mv_fw b d ≡ record b { pos = b.pos + d }
unfolding mv_fw
mv_fw_lem b d h k = ground arith

-- A write that fits puts its bytes behind what is written.
pub put_bytes-cursor :
    (src front rest : List ℕ)
    → length src ≤ length rest
    → length front + length rest < max_size
    → put_bytes src (cursor front rest) ≡ ok (cursor (front ++ src) (drop (length src) rest))
unfolding put_bytes
put_bytes-cursor src front rest h k =
    rw (le→ltb (length (front ++ rest) - length front) (length src) room) (
      rw (splice-append front src rest h) (
        rw (mv_fw_lem written (length src) inside below)
          (rw (length-append front src, append_assoc front src (drop (length src) rest)))))
  where
    written : Buffer
    written = record { bytes = front ++ (src ++ drop (length src) rest); pos = length front }

    total : length (front ++ (src ++ drop (length src) rest)) ≡ length front + length rest
    total = omega (
      arith,
      length-append front (src ++ drop (length src) rest),
      length-append src (drop (length src) rest),
      length-drop (length src) rest,
    )

    room : length src ≤ length (front ++ rest) - length front
    room = omega (arith, length-append front rest)

    inside : length front + length src ≤ length (front ++ (src ++ drop (length src) rest))
    inside = omega (arith, total)

    below : length (front ++ (src ++ drop (length src) rest)) < max_size
    below = omega (arith, total)

-- A move over the next bytes.
pub mv_fw-cursor :
    (bs front rest : List ℕ)
    → length front + length bs + length rest < max_size
    → mv_fw (cursor front (bs ++ rest)) (length bs) ≡ cursor (front ++ bs) rest
mv_fw-cursor bs front rest k =
    rw
      (mv_fw_lem (cursor front (bs ++ rest)) (length bs) (omega (arith, total))
        (omega (arith, total)))
      (rw (length-append front bs, append_assoc front bs rest))
  where
    total : length (front ++ (bs ++ rest)) ≡ length front + length bs + length rest
    total = omega (arith, length-append front (bs ++ rest), length-append bs rest)

-- What is left to read is long enough.
pub avail-cursor :
    (bs front rest : List ℕ) → length bs ≤ length (front ++ (bs ++ rest)) - length front
avail-cursor bs front rest = omega (arith, length-append front (bs ++ rest), length-append bs rest)

pub length-write_loop : (n shift v : ℕ) → length (write_loop n shift v) ≡ n
unfolding write_loop
length-write_loop zero shift v = refl
length-write_loop (suc n) shift v = ap suc (length-write_loop n (shift + 8) v)

-- Eight bytes give the number back, and four the bit pattern.
pub read_loop-write_loop_8 :
    (v : ℕ) (rest : List ℕ) → v < 2 ^ 64 → read_loop 64 8 0 0 (write_loop 8 0 v ++ rest) ≡ v
unfolding read_loop write_loop
read_loop-write_loop_8 v rest h = omega arith

pub read_loop-write_loop_4 :
    (v : ℕ) (rest : List ℕ) → v < 2 ^ 32 → read_loop 32 4 0 0 (write_loop 4 0 v ++ rest) ≡ v
unfolding read_loop write_loop
read_loop-write_loop_4 v rest h = omega arith

abbrev pub ulong_bytes : ℕ → List ℕ
ulong_bytes v = write_loop 8 0 v

abbrev pub int_bytes : ℕ → List ℕ
int_bytes v = write_loop 4 0 v
