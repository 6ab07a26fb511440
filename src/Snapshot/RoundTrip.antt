-- ===== src/Snapshot/RoundTrip.antt =====
-- What is written of a snapshot, of a block of it, and of the persistent vote is read back.
mod Description
mod Block
pub use Description.{snapshot_bytes, IsSnapshot}
pub use Block.{sync_bytes}
use Description.{serialize_lem, deserialize-snapshot_bytes}
use Block.{serialize_sync_lem, deserialize_sync-sync_bytes}
use enclave_raft.Prelude.{
  subst, ℕ, ◌+◌, ◌-◌, ◌^◌, ◌<◌, ◌≡◌, refl, ap, ◌∙◌, Bool, true, false, List, [], ◌∷◌, ◌++◌, ◌==◌,
  le→ltb, lt→ltb, if◌then◌else◌, length, drop, length-drop, length-append, arith, ok, ◌>>=◌,
  append_assoc, append-nil, overlay-eq, length-eq-zero,
}
use enclave_raft.Buffer.{size as buf_size, rest_of, max_size, fresh_bytes, write_loop}
use enclave_raft.Buffer.Cursor.{
  Fits-nil, Fits, Fits-next, cursor, ulong_bytes, int_bytes, length-write_loop, alloc-cursor,
  length-fresh_bytes,
}
use enclave_raft.Buffer.Writes.{
  alloc-Wrote, put_ulong-Wrote, put_int-Wrote, put_byte-Wrote, put_buffer-Wrote, seek-Wrote,
}
use enclave_raft.Buffer.Reads.{get_ulong-cursor, get_int-cursor, get_byte-cursor, rest_of-cursor}
use enclave_raft.Config.RoundTrip
use enclave_raft.Config.RoundTrip.{config_bytes, IsClusterConfig}
use enclave_raft.Snapshot.{
  Snapshot, serialize, deserialize, SnapshotSyncReq, serialize_sync, read_payload, deserialize_sync,
  SrvState, serialize_state, deserialize_state,
}

abbrev pub state_bytes : SrvState → List ℕ
state_bytes s = ulong_bytes s.term ++ int_bytes s.voted_for

serialize_state_lem :
    (raw : ℕ → ℕ) (s : SrvState) → serialize_state raw s ≡ ok (cursor [] (state_bytes s))
unfolding serialize_state
serialize_state_lem raw s = seek-Wrote _ _ (
    put_int-Wrote s.voted_for _ 0 _
      (put_ulong-Wrote s.term [] 4 _ (alloc-Wrote raw _ _ (omega arith) (omega arith))))

deserialize_state-state_bytes :
    (s : SrvState) (front rest : List ℕ)
    → s.term < 2 ^ 64
    → s.voted_for < 2 ^ 32
    → Fits front (state_bytes s ++ rest)
    → deserialize_state (cursor front (state_bytes s ++ rest))
      ≡ ok (s, cursor (front ++ state_bytes s) rest)
unfolding deserialize_state
deserialize_state-state_bytes s front rest ht hv k =
    rw (append_assoc (ulong_bytes s.term) (int_bytes s.voted_for) rest) (
      rw (get_ulong-cursor s.term front (int_bytes s.voted_for ++ rest) ht whole) (
        rw
          (get_int-cursor s.voted_for (front ++ ulong_bytes s.term) rest hv
            (Fits-next (ulong_bytes s.term) front (int_bytes s.voted_for ++ rest) whole))
          (rw (append_assoc front (ulong_bytes s.term) (int_bytes s.voted_for)) refl)))
  where
    whole : Fits front (ulong_bytes s.term ++ (int_bytes s.voted_for ++ rest))
    whole = rw (append_assoc (ulong_bytes s.term) (int_bytes s.voted_for) rest) at k

-- A term of 64 bits and a vote of 32 are read back from what is written of them, whatever the fresh
-- memory held.
pub deserialize_state-serialize_state :
    (raw : ℕ → ℕ) (s : SrvState)
    → s.term < 2 ^ 64
    → s.voted_for < 2 ^ 32
    → (serialize_state raw s >>= deserialize_state) ≡ ok (s, cursor (state_bytes s) [])
unfolding write_loop
deserialize_state-serialize_state raw s ht hv = rw (serialize_state_lem raw s) (
    rw (append-nil (state_bytes s)) at (
      deserialize_state-state_bytes s [] [] ht hv (
        omega (
          arith,
          length-append (state_bytes s) [],
          length-append (ulong_bytes s.term) (int_bytes s.voted_for),
          length-write_loop 8 0 s.term,
          length-write_loop 4 0 s.voted_for,
        ))))

-- A snapshot whose numbers are 64-bit words, with a configuration that is read back, and of a size
-- that fits a buffer is read back from what is written of it.
pub deserialize-serialize_snapshot :
    (raw : ℕ → ℕ) (s : Snapshot)
    → IsSnapshot s
    → (serialize raw s >>= deserialize) ≡ ok (s, cursor (snapshot_bytes s) [])
deserialize-serialize_snapshot raw s h = rw (serialize_lem raw s h) (
    subst (λ (l : List ℕ). deserialize (cursor [] l) ≡ ok (s, cursor (snapshot_bytes s) []))
      (append-nil (snapshot_bytes s))
      (deserialize-snapshot_bytes s [] [] h
        (omega (arith, h.fits, length-append (snapshot_bytes s) []))))

-- A block of such a snapshot at a 64-bit offset, of a size that fits a buffer, is read back from what
-- is written of it, with the part of its payload that was not yet read.
pub deserialize_sync-serialize_sync :
    (raw : ℕ → ℕ) (r : SnapshotSyncReq)
    → IsSnapshot r.snapshot
    → r.offset < 2 ^ 64
    → length (sync_bytes r) < max_size
    → (serialize_sync raw r >>= deserialize_sync raw)
      ≡ ok (record r { payload = cursor [] (rest_of r.payload) })
deserialize_sync-serialize_sync raw r h word k =
    rw (serialize_sync_lem raw r h k) (deserialize_sync-sync_bytes raw r h word k)
