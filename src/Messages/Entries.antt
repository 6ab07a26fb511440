-- ===== src/Messages/Entries.antt =====
-- The entries of a request on the wire: what is written of them is read back.
use enclave_raft.Prelude.{
  ℕ, zero, suc, ◌+◌, ◌%◌, ◌^◌, ◌≤◌, ◌<◌, ◌≡◌, refl, ap, ◌∙◌, List, [], ◌∷◌, ◌++◌, map, All, length,
  length-append, arith, ok, append_assoc, append-nil, le→ltb, lt→ltb,
}
use enclave_raft.Buffer.{size, seek, max_size, fresh_bytes}
use enclave_raft.Buffer.Cursor.{
  Fits, Fits-nil, Fits-next, cursor, ulong_bytes, int_bytes, length-write_loop, alloc-cursor,
  length-fresh_bytes,
}
use enclave_raft.Buffer.Writes.{
  alloc-Wrote, put_ulong-Wrote, put_int-Wrote, put_byte-Wrote, put_buffer-Wrote, seek-Wrote,
}
use enclave_raft.Buffer.Reads.{get_ulong-cursor, get_int-cursor, get_byte-cursor, get_buffer-cursor}
use enclave_raft.Config.Blocks.{all_bytes, cursors}
use enclave_raft.Entry.{LogEntry, val_code}
use enclave_raft.Entry.RoundTrip.{IsKnown, val_of_code-val_code, rewound}
use enclave_raft.Messages.{entry_buffer, entry_buffers, read_entry, read_entries}

abbrev type_of : LogEntry → ℕ
type_of e = val_code e.val_type % 256

-- Term, type, size and payload.
abbrev pub wire_bytes : LogEntry → List ℕ
wire_bytes e = ulong_bytes e.term ++ (type_of e ∷ (int_bytes (size e.buf) ++ e.buf.bytes))

abbrev pub IsWire : LogEntry → Type 0
IsWire e = (e.term < 2 ^ 64) × IsKnown e.val_type

pub length-wire_bytes : (e : LogEntry) → length (wire_bytes e) ≡ 13 + size e.buf
length-wire_bytes e = omega (
  arith,
  length-append (ulong_bytes e.term) (type_of e ∷ (int_bytes (size e.buf) ++ e.buf.bytes)),
  length-append (int_bytes (size e.buf)) e.buf.bytes,
  length-write_loop 8 0 e.term,
  length-write_loop 4 0 (size e.buf),
)

entry_buffer_lem :
    (raw : ℕ → ℕ) (e : LogEntry)
    → length (wire_bytes e) < max_size
    → entry_buffer raw e ≡ ok (cursor [] (wire_bytes e))
unfolding entry_buffer
entry_buffer_lem raw e h =
    rw (seek_start, word)
      (seek-Wrote _ _ (
          put_buffer-Wrote (record { bytes = e.buf.bytes; pos = 0 }) _ 0 _
            (put_int-Wrote (size e.buf) _ (size e.buf + 0) _ (
              put_byte-Wrote (type_of e) _ (4 + (size e.buf + 0)) _ (
                put_ulong-Wrote e.term [] (1 + (4 + (size e.buf + 0))) _
                  (alloc-Wrote raw _ _ (omega arith) (omega (arith, h, length-wire_bytes e)))))))
        ∙ ap (λ (l : List ℕ). ok (cursor [] l)) (simp append_assoc))
  where
    seek_start : seek 0 e.buf ≡ record { bytes = e.buf.bytes; pos = 0 }
    seek_start = unfold seek in rw (le→ltb (size e.buf) 0 (omega arith)) refl

    word : size e.buf % 2 ^ 32 ≡ size e.buf
    word = omega (arith, h, length-wire_bytes e)

pub entry_buffers_lem :
    (raw : ℕ → ℕ) (es : List LogEntry)
    → length (all_bytes wire_bytes es) < max_size
    → entry_buffers raw es ≡ ok (cursors wire_bytes es)
unfolding entry_buffers
entry_buffers_lem raw [] h = refl
entry_buffers_lem raw (e ∷ es) h =
    rw
      (entry_buffer_lem raw e
        (omega (arith, h, length-append (wire_bytes e) (all_bytes wire_bytes es))))
      (rw
        (entry_buffers_lem raw es
          (omega (arith, h, length-append (wire_bytes e) (all_bytes wire_bytes es))))
        refl)

read_entry-cursor :
    (raw : ℕ → ℕ) (e : LogEntry) (front rest : List ℕ)
    → IsWire e
    → Fits front (wire_bytes e ++ rest)
    → read_entry raw (cursor front (wire_bytes e ++ rest))
      ≡ ok (rewound e, cursor (front ++ wire_bytes e) rest)
unfolding read_entry
read_entry-cursor raw e front rest (term, known) k = rw regroup (
    rw (get_ulong-cursor e.term front _ term whole) (
      rw (get_byte-cursor (type_of e) (front ++ a) _ whole1) (
        rw (get_int-cursor n (front ++ a ++ (type_of e ∷ [])) _ small whole2) (
          rw (alloc-cursor raw n fits) (
            rw
              (get_buffer-cursor (fresh_bytes raw 0 n) e.buf.bytes
                (front ++ a ++ (type_of e ∷ []) ++ int_bytes n) rest (length-fresh_bytes raw 0 n)
                whole3)
              (rw (val_of_code-val_code e.val_type known)
                (ap (λ (l : List ℕ). ok (rewound e, cursor l rest)) done)))))))
  where
    n : ℕ
    n = size e.buf

    a : List ℕ
    a = ulong_bytes e.term

    regroup : wire_bytes e ++ rest ≡ a ++ (type_of e ∷ (int_bytes n ++ (e.buf.bytes ++ rest)))
    regroup = simp append_assoc

    whole : Fits front (a ++ (type_of e ∷ (int_bytes n ++ (e.buf.bytes ++ rest))))
    whole = rw regroup at k

    whole1 : Fits (front ++ a) (type_of e ∷ (int_bytes n ++ (e.buf.bytes ++ rest)))
    whole1 = Fits-next a front _ whole

    whole2 : Fits (front ++ a ++ (type_of e ∷ [])) (int_bytes n ++ (e.buf.bytes ++ rest))
    whole2 = Fits-next (type_of e ∷ []) (front ++ a) _ whole1

    whole3 : Fits (front ++ a ++ (type_of e ∷ []) ++ int_bytes n) (e.buf.bytes ++ rest)
    whole3 = Fits-next (int_bytes n) (front ++ a ++ (type_of e ∷ [])) _ whole2

    fits : n < max_size
    fits = omega (arith, whole3, length-append e.buf.bytes rest)

    small : n < 2 ^ 32
    small = omega (arith, fits)

    done : front ++ a ++ (type_of e ∷ []) ++ int_bytes n ++ e.buf.bytes ≡ front ++ wire_bytes e
    done = simp append_assoc

-- The loop reads them all: each takes some fuel, and is 13 bytes long at least.
read_entries-cursor :
    (raw : ℕ → ℕ) (fuel : ℕ) (es : List LogEntry) (front : List ℕ)
    → All IsWire es
    → length (all_bytes wire_bytes es) ≤ fuel
    → Fits front (all_bytes wire_bytes es)
    → read_entries raw fuel (cursor front (all_bytes wire_bytes es)) ≡ ok (map rewound es)
unfolding read_entries
read_entries-cursor raw zero [] front h f k =
    rw (append-nil front) (rw (le→ltb (length front) (length front) (omega arith)) refl)
read_entries-cursor raw (suc fuel) [] front h f k =
    rw (append-nil front)
      (rw (le→ltb (length front) (length front) (omega arith), read_entries) refl)
read_entries-cursor raw zero (e ∷ es) front h f k =
    absurd (
      omega (arith, f, length-append (wire_bytes e) (all_bytes wire_bytes es), length-wire_bytes e))
read_entries-cursor raw (suc fuel) (e ∷ es) front (he, hes) f k =
    rw
      (
        lt→ltb (length front) (length (front ++ (wire_bytes e ++ all_bytes wire_bytes es))) more,
        read_entries,
      )
      (rw (read_entry-cursor raw e front (all_bytes wire_bytes es) he k) (
        rw
          (read_entries-cursor raw fuel es (front ++ wire_bytes e) hes less
            (Fits-next (wire_bytes e) front _ k))
          refl))
  where
    both :
        length (wire_bytes e ++ all_bytes wire_bytes es)
        ≡ 13 + size e.buf + length (all_bytes wire_bytes es)
    both =
        omega (arith, length-append (wire_bytes e) (all_bytes wire_bytes es), length-wire_bytes e)

    more : length front < length (front ++ (wire_bytes e ++ all_bytes wire_bytes es))
    more = omega (arith, both, length-append front (wire_bytes e ++ all_bytes wire_bytes es))

    less : length (all_bytes wire_bytes es) ≤ fuel
    less = omega (arith, both, f)

-- Entries of which something is written are read from a buffer that holds them.
pub read_entries_lem :
    (raw : ℕ → ℕ) (es : List LogEntry)
    → All IsWire es
    → length (all_bytes wire_bytes es) < max_size
    → read_entries raw (length (all_bytes wire_bytes es)) (cursor [] (all_bytes wire_bytes es))
      ≡ ok (map rewound es)
read_entries_lem raw es h k = read_entries-cursor raw _ es [] h (omega arith) (Fits-nil _ k)

pub length-all_wire_bytes : (es : List LogEntry) → length (all_bytes wire_bytes es) ≡ 0 → es ≡ []
length-all_wire_bytes [] h = refl
length-all_wire_bytes (e ∷ es) h =
    absurd (
      omega (arith, h, length-append (wire_bytes e) (all_bytes wire_bytes es), length-wire_bytes e))
