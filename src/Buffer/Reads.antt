-- ===== src/Buffer/Reads.antt =====
-- The `get` calls on a cursor that stands before what a `put` wrote.
use enclave_raft.Prelude.{
  ℕ, ◌+◌, ◌-◌, ◌<◌, ◌≡◌, refl, ap, ◌∙◌, List, [], ◌∷◌, ◌++◌, ◌^◌, arith, length, length-append,
  drop, length-drop, length-eq-zero, overlay, overlay-eq, ◌==◌, ◌||◌, false, drop-length_append,
  take-length_append, append_assoc, ok, append-nil, some, All, le→ltb, leb, ◌≢◌,
}
use enclave_raft.Buffer.{
  Buffer, rest_of, mv_fw, get_int, get_ulong, get_byte, get_str, str_len, get_buffer,
}
use enclave_raft.Buffer.Cursor.{
  Fits, cursor, mv_fw-cursor, avail-cursor, length-write_loop, read_loop-write_loop_8,
  read_loop-write_loop_4, ulong_bytes, int_bytes,
}

pub rest_of-cursor : (front rest : List ℕ) → rest_of (cursor front rest) ≡ rest
rest_of-cursor front rest = drop-length_append front rest

pub get_ulong-cursor :
    (v : ℕ) (front rest : List ℕ)
    → v < 2 ^ 64
    → Fits front (ulong_bytes v ++ rest)
    → get_ulong (cursor front (ulong_bytes v ++ rest))
      ≡ ok (v, cursor (front ++ ulong_bytes v) rest)
unfolding get_ulong
get_ulong-cursor v front rest h k =
    rw (le→ltb _ 8 (rw (length-write_loop 8 0 v) at (avail-cursor (ulong_bytes v) front rest))) (
      rw (rest_of-cursor front (ulong_bytes v ++ rest))
        (rw (read_loop-write_loop_8 v rest h) (ap (λ (b : Buffer). ok (v, b)) moved)))
  where
    moved : mv_fw (cursor front (ulong_bytes v ++ rest)) 8 ≡ cursor (front ++ ulong_bytes v) rest
    moved = rw (length-write_loop 8 0 v) at (
        mv_fw-cursor (ulong_bytes v) front rest
          (omega (arith, k, length-append (ulong_bytes v) rest)))

pub get_int-cursor :
    (v : ℕ) (front rest : List ℕ)
    → v < 2 ^ 32
    → Fits front (int_bytes v ++ rest)
    → get_int (cursor front (int_bytes v ++ rest)) ≡ ok (v, cursor (front ++ int_bytes v) rest)
unfolding get_int
get_int-cursor v front rest h k =
    rw (le→ltb _ 4 (rw (length-write_loop 4 0 v) at (avail-cursor (int_bytes v) front rest))) (
      rw (rest_of-cursor front (int_bytes v ++ rest))
        (rw (read_loop-write_loop_4 v rest h) (ap (λ (b : Buffer). ok (v, b)) moved)))
  where
    moved : mv_fw (cursor front (int_bytes v ++ rest)) 4 ≡ cursor (front ++ int_bytes v) rest
    moved =
        rw (length-write_loop 4 0 v) at (
          mv_fw-cursor (int_bytes v) front rest
            (omega (arith, k, length-append (int_bytes v) rest)))

pub get_byte-cursor :
    (x : ℕ) (front rest : List ℕ)
    → Fits front (x ∷ rest)
    → get_byte (cursor front (x ∷ rest)) ≡ ok (x, cursor (front ++ (x ∷ [])) rest)
unfolding get_byte
get_byte-cursor x front rest k = rw (le→ltb _ 1 (avail-cursor (x ∷ []) front rest)) (
    rw (rest_of-cursor front (x ∷ rest))
      (ap (λ (b : Buffer). ok (x, b)) (mv_fw-cursor (x ∷ []) front rest (omega arith))))

pub str_len-append_zero :
    (s rest : List ℕ) → All (λ c. c ≢ 0) s → str_len (s ++ (0 ∷ rest)) ≡ length s
unfolding str_len
str_len-append_zero [] rest h = refl
str_len-append_zero (x ∷ s) rest h = ground (arith, str_len-append_zero s rest)

-- A string with no zero byte that is not empty is read back up to its zero.
pub get_str-cursor :
    (s front rest : List ℕ)
    → All (λ c. c ≢ 0) s
    → s ≢ []
    → Fits front (s ++ (0 ∷ rest))
    → get_str (cursor front (s ++ (0 ∷ rest))) ≡ (some s, cursor (front ++ (s ++ (0 ∷ []))) rest)
unfolding get_str
get_str-cursor s front rest h ne k = rw (rest_of-cursor front (s ++ (0 ∷ rest))) (
    rw (str_len-append_zero s rest h)
      (rw found (rw (take-length_append s (0 ∷ rest)) (ap (λ (b : Buffer). (some s, b)) moved))))
  where
    some_byte : length s ≢ 0
    some_byte = λ z. ne (length-eq-zero s z)

    found :
        (leb (length (front ++ (s ++ (0 ∷ rest)))) (length front + length s) || length s == 0)
        ≡ false
    found =
        ground (arith, some_byte, length-append front (s ++ (0 ∷ rest)), length-append s (0 ∷ rest))

    moved :
        mv_fw (cursor front (s ++ (0 ∷ rest))) (length s + 1)
        ≡ cursor (front ++ (s ++ (0 ∷ []))) rest
    moved =
        rw (length-append s (0 ∷ []), append_assoc s (0 ∷ []) rest) at
          (mv_fw-cursor (s ++ (0 ∷ [])) front rest
            (omega (arith, k, length-append s (0 ∷ []), length-append s (0 ∷ rest))))

-- `get(bufptr &)` fills a fresh buffer of the right size.
pub get_buffer-cursor :
    (fresh bs front rest : List ℕ)
    → length fresh ≡ length bs
    → Fits front (bs ++ rest)
    → get_buffer (cursor [] fresh) (cursor front (bs ++ rest))
      ≡ ok (cursor [] bs, cursor (front ++ bs) rest)
unfolding get_buffer
get_buffer-cursor fresh bs front rest e k = rw same (
    rw (le→ltb _ (length bs) (avail-cursor bs front rest)) (
      rw (rest_of-cursor front (bs ++ rest), take-length_append bs rest)
        (rw filled (
          ap (λ (b : Buffer). ok (cursor [] bs, b))
            (mv_fw-cursor bs front rest (omega (arith, k, length-append bs rest)))))))
  where
    same : length fresh - 0 ≡ length bs
    same = omega (arith, e)

    filled : overlay bs fresh ≡ bs
    filled =
        overlay-eq bs fresh (omega (arith, e))
        ∙ rw
            (length-eq-zero (drop (length bs) fresh)
              (omega (arith, e, length-drop (length bs) fresh)))
            (append-nil bs)
