-- ===== src/Entry/RoundTrip.antt =====
-- What is written of a log entry is read back.
use enclave_raft.Prelude.{
  ◌>>=◌, ℕ, ◌+◌, ◌%◌, ◌^◌, ◌<◌, ◌≡◌, refl, ap, ◌∙◌, List, [], ◌∷◌, ◌++◌, length, length-append,
  arith, ok, append_assoc, le→ltb,
}
use enclave_raft.Buffer.{size, max_size, seek}
use enclave_raft.Buffer.Cursor.{
  Fits, Fits-next, cursor, size-cursor, ulong_bytes, length-write_loop,
}
use enclave_raft.Buffer.Writes.{
  alloc-Wrote, put_ulong-Wrote, put_byte-Wrote, put_buffer-Wrote, seek-Wrote, copy_lem,
}
use enclave_raft.Buffer.Reads.{get_ulong-cursor, get_byte-cursor, rest_of-cursor}
use enclave_raft.Entry.{
  LogValType, app_log, conf, cluster_server, log_pack, snp_sync_req, unknown, val_code, val_of_code,
  LogEntry, serialize, deserialize,
}

-- A value type of the enumeration.
abbrev pub IsKnown : LogValType → Type 0
IsKnown (unknown n) = ⊥
IsKnown _ = Unit {0}

pub val_of_code-val_code : (t : LogValType) → IsKnown t → val_of_code (val_code t % 256) ≡ t
val_of_code-val_code app_log h = refl
val_of_code-val_code conf h = refl
val_of_code-val_code cluster_server h = refl
val_of_code-val_code log_pack h = refl
val_of_code-val_code snp_sync_req h = refl
val_of_code-val_code (unknown n) h = absurd h

abbrev pub entry_bytes : LogEntry → List ℕ
entry_bytes e = ulong_bytes e.term ++ ((val_code e.val_type % 256) ∷ e.buf.bytes)

pub length-entry_bytes : (e : LogEntry) → length (entry_bytes e) ≡ 9 + size e.buf
length-entry_bytes e = omega (
  arith,
  length-append (ulong_bytes e.term) ((val_code e.val_type % 256) ∷ e.buf.bytes),
  length-write_loop 8 0 e.term,
)

-- An entry writes its term, its type and all of its buffer, whatever the fresh memory held.
pub serialize_lem :
    (raw : ℕ → ℕ) (e : LogEntry)
    → length (entry_bytes e) < max_size
    → serialize raw e ≡ ok (cursor [] (entry_bytes e))
unfolding serialize
serialize_lem raw e h = rw seek_start (
    seek-Wrote _ _ (
      put_buffer-Wrote (record { bytes = e.buf.bytes; pos = 0 }) _ 0 _
        (put_byte-Wrote (val_code e.val_type % 256) _ (size e.buf + 0) _ (
          put_ulong-Wrote e.term [] (1 + (size e.buf + 0)) _
            (alloc-Wrote raw _ _ (omega arith) (omega (arith, h, length-entry_bytes e))))))
    ∙ ap (λ (l : List ℕ). ok (cursor [] l)) (simp append_assoc))
  where
    seek_start : seek 0 e.buf ≡ record { bytes = e.buf.bytes; pos = 0 }
    seek_start = unfold seek in rw (le→ltb (size e.buf) 0 (omega arith)) refl

-- The entry with its buffer at the start.
abbrev pub rewound : LogEntry → LogEntry
rewound e = record e { buf = cursor [] e.buf.bytes }

-- An entry of a known type is read back, with its buffer at the start.
pub deserialize-entry_bytes :
    (raw : ℕ → ℕ) (e : LogEntry)
    → e.term < 2 ^ 64
    → IsKnown e.val_type
    → length (entry_bytes e) < max_size
    → deserialize raw (cursor [] (entry_bytes e)) ≡ ok (rewound e)
unfolding deserialize
deserialize-entry_bytes raw e word known h =
    rw (get_ulong-cursor e.term [] (t ∷ e.buf.bytes) word whole) (
      rw (get_byte-cursor t (ulong_bytes e.term) e.buf.bytes whole1) (
        rw
          (copy_lem raw (cursor (ulong_bytes e.term ++ (t ∷ [])) e.buf.bytes) (
            size-cursor _ e.buf.bytes (Fits-next (t ∷ []) (ulong_bytes e.term) e.buf.bytes whole1)))
          (rw (rest_of-cursor (ulong_bytes e.term ++ (t ∷ [])) e.buf.bytes)
            (rw (val_of_code-val_code e.val_type known) refl))))
  where
    t : ℕ
    t = val_code e.val_type % 256

    whole : Fits [] (entry_bytes e)
    whole = omega (arith, h)

    whole1 : Fits (ulong_bytes e.term) (t ∷ e.buf.bytes)
    whole1 = Fits-next (ulong_bytes e.term) [] (t ∷ e.buf.bytes) whole

-- An entry with a 64-bit term, of a type that has a name and of a size that fits a buffer is read back
-- from what is written of it, with its buffer at the start.
pub deserialize-serialize_entry :
    (raw : ℕ → ℕ) (e : LogEntry)
    → e.term < 2 ^ 64
    → IsKnown e.val_type
    → length (entry_bytes e) < max_size
    → (serialize raw e >>= deserialize raw) ≡ ok (rewound e)
deserialize-serialize_entry raw e word known h =
    rw (serialize_lem raw e h) (deserialize-entry_bytes raw e word known h)
