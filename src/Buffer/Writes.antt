-- ===== src/Buffer/Writes.antt =====
-- A sequence of `put` calls into a fresh buffer that has just the room for them.
use enclave_raft.Prelude.{
  ℕ, ◌+◌, ◌-◌, ◌<◌, ◌≡◌, refl, ◌∙◌, List, [], ◌∷◌, ◌++◌, arith, length, length-append, drop,
  length-drop, length-eq-zero, le→ltb, Result, ok, ◌>>=◌, append-nil,
}
use enclave_raft.Buffer.{
  Buffer, size, rest_of, max_size, fresh_bytes, alloc, seek, put_bytes, put_byte, put_int,
  put_ulong, put_str, put_buffer, copy, write_loop,
}
use enclave_raft.Buffer.Cursor.{
  cursor, length-fresh_bytes, alloc-cursor, put_bytes-cursor, ulong_bytes, int_bytes,
}

-- The bytes `front` are written, and `m` more fit.
abbrev pub Wrote : List ℕ → ℕ → Result Buffer → Type 0
Wrote front m r =
    (rest : List ℕ) × (length rest ≡ m)
    × (length front + m < max_size)
    × (r ≡ ok (cursor front rest))

pub alloc-Wrote : (raw : ℕ → ℕ) (n m : ℕ) → n ≡ m → m < max_size → Wrote [] m (alloc raw n)
alloc-Wrote raw n m e h = (
  fresh_bytes raw 0 n,
  length-fresh_bytes raw 0 n ∙ e,
  omega arith,
  alloc-cursor raw n (omega arith),
)

pub put_bytes-Wrote :
    (src front : List ℕ) (m : ℕ) (r : Result Buffer)
    → Wrote front (length src + m) r
    → Wrote (front ++ src) m (r >>= put_bytes src)
put_bytes-Wrote src front m r (rest, room, fits, e) = (
  drop (length src) rest,
  omega (arith, length-drop (length src) rest, room),
  omega (arith, length-append front src, fits),
  rw e (put_bytes-cursor src front rest (omega (arith, room)) (omega (arith, room, fits))),
)

pub put_ulong-Wrote :
    (v : ℕ) (front : List ℕ) (m : ℕ) (r : Result Buffer)
    → Wrote front (8 + m) r
    → Wrote (front ++ ulong_bytes v) m (r >>= put_ulong v)
unfolding put_ulong write_loop
put_ulong-Wrote v front m r w = put_bytes-Wrote _ front m r w

pub put_int-Wrote :
    (v : ℕ) (front : List ℕ) (m : ℕ) (r : Result Buffer)
    → Wrote front (4 + m) r
    → Wrote (front ++ int_bytes v) m (r >>= put_int v)
unfolding put_int write_loop
put_int-Wrote v front m r w = put_bytes-Wrote _ front m r w

pub put_byte-Wrote :
    (x : ℕ) (front : List ℕ) (m : ℕ) (r : Result Buffer)
    → Wrote front (1 + m) r
    → Wrote (front ++ (x ∷ [])) m (r >>= put_byte x)
unfolding put_byte
put_byte-Wrote x front m r w = put_bytes-Wrote _ front m r w

pub put_str-Wrote :
    (s front : List ℕ) (m : ℕ) (r : Result Buffer)
    → Wrote front (length s + 1 + m) r
    → Wrote (front ++ (s ++ (0 ∷ []))) m (r >>= put_str s)
unfolding put_str
put_str-Wrote s front m r w =
    put_bytes-Wrote (s ++ (0 ∷ [])) front m r (rw (length-append s (0 ∷ [])) w)

pub put_buffer-Wrote :
    (b : Buffer) (front : List ℕ) (m : ℕ) (r : Result Buffer)
    → Wrote front (length (rest_of b) + m) r
    → Wrote (front ++ rest_of b) m (r >>= put_buffer b)
unfolding put_buffer
put_buffer-Wrote b front m r w = put_bytes-Wrote (rest_of b) front m r w

-- The writer is full, and goes back to its start.
pub seek-Wrote :
    (front : List ℕ) (r : Result Buffer)
    → Wrote front 0 r
    → (r >>= λ b. ok (seek 0 b)) ≡ ok (cursor [] front)
unfolding seek
seek-Wrote front r (rest, room, fits, e) =
    rw (e, length-eq-zero rest room)
      (rw append-nil (rw (le→ltb (length front) 0 (omega arith)) refl))

-- A copy of a buffer smaller than the largest holds what its source has not yet read, whatever the
-- fresh memory held.
pub copy_lem :
    (raw : ℕ → ℕ) (b : Buffer) → size b < max_size → copy raw b ≡ ok (cursor [] (rest_of b))
unfolding copy
copy_lem raw b h = seek-Wrote (rest_of b) (alloc raw (size b - b.pos) >>= put_buffer b) (
    put_buffer-Wrote b [] 0 (alloc raw (size b - b.pos)) (
      alloc-Wrote raw (size b - b.pos) (length (rest_of b) + 0)
        (omega (arith, length-drop b.pos b.bytes)) (omega (arith, length-drop b.pos b.bytes))))
