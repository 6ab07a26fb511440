-- ===== src/Snapshot/RoundTrip/Block.antt =====
-- The bytes of a block of a snapshot, written and read.
use enclave_raft.Prelude.{
  ℕ, ◌+◌, ◌-◌, ◌^◌, ◌<◌, ◌≡◌, refl, ap, ◌∙◌, Bool, true, false, List, [], ◌∷◌, ◌++◌, ◌==◌, le→ltb,
  lt→ltb, if◌then◌else◌, length, drop, length-drop, length-append, arith, ok, append_assoc,
  append-nil, overlay-eq, length-eq-zero,
}
use enclave_raft.Buffer.{size as buf_size, rest_of, max_size, fresh_bytes}
use enclave_raft.Buffer.Cursor.{
  Fits-nil, Fits, Fits-next, cursor, ulong_bytes, length-write_loop, alloc-cursor,
  length-fresh_bytes,
}
use enclave_raft.Buffer.Writes.{
  alloc-Wrote, put_ulong-Wrote, put_byte-Wrote, put_buffer-Wrote, seek-Wrote,
}
use enclave_raft.Buffer.Reads.{get_ulong-cursor, get_byte-cursor, rest_of-cursor}
use enclave_raft.Snapshot.{SnapshotSyncReq, serialize_sync, read_payload, deserialize_sync}
use enclave_raft.Snapshot.RoundTrip.Description.{
  snapshot_bytes, IsSnapshot, serialize_lem, deserialize-snapshot_bytes,
}

-- The bytes of a block: the snapshot, the offset, the flag and what the payload has left.
abbrev pub sync_bytes : SnapshotSyncReq → List ℕ
sync_bytes r =
    snapshot_bytes r.snapshot
    ++ (ulong_bytes r.offset ++ ((if r.done then 1 else 0) ∷ rest_of r.payload))

pub length-sync_bytes :
    (r : SnapshotSyncReq)
    → length (sync_bytes r)
      ≡ length (snapshot_bytes r.snapshot) + 9 + (buf_size r.payload - r.payload.pos)
length-sync_bytes r = omega (
  arith,
  length-append (snapshot_bytes r.snapshot)
      (ulong_bytes r.offset ++ ((if r.done then 1 else 0) ∷ rest_of r.payload)),
  length-append (ulong_bytes r.offset) ((if r.done then 1 else 0) ∷ rest_of r.payload),
  length-write_loop 8 0 r.offset,
  length-drop r.payload.pos r.payload.bytes,
)

-- A block writes its bytes, whatever the fresh memory held.
pub serialize_sync_lem :
    (raw : ℕ → ℕ) (r : SnapshotSyncReq)
    → IsSnapshot r.snapshot
    → length (sync_bytes r) < max_size
    → serialize_sync raw r ≡ ok (cursor [] (sync_bytes r))
unfolding serialize_sync
serialize_sync_lem raw r h k = rw (serialize_lem raw r.snapshot h) (
    seek-Wrote _ _ (
      put_buffer-Wrote r.payload _ 0 _ (
        put_byte-Wrote (if r.done then 1 else 0) _ (length (rest_of r.payload) + 0) _ (
          put_ulong-Wrote r.offset _ (1 + (length (rest_of r.payload) + 0)) _ (
            put_buffer-Wrote (cursor [] (snapshot_bytes r.snapshot)) []
              (8 + (1 + (length (rest_of r.payload) + 0))) _
              (alloc-Wrote raw _ _ (omega (arith, length-drop r.payload.pos r.payload.bytes)) (
                omega
                  (arith, k, length-sync_bytes r, length-drop r.payload.pos r.payload.bytes)))))))
    ∙ ap (λ (l : List ℕ). ok (cursor [] l)) (simp append_assoc))

read_payload-cursor :
    (raw : ℕ → ℕ) (front rest : List ℕ)
    → Fits front rest
    → read_payload raw (cursor front rest) ≡ ok (cursor [] rest)
unfolding read_payload fresh_bytes
read_payload-cursor raw front [] k =
    rw (le→ltb (length front) (length (front ++ [])) (omega (arith, length-append front [])))
      (alloc-cursor raw 0 (omega arith))
read_payload-cursor raw front (x ∷ rest) k =
    rw (lt→ltb (length front) (length (front ++ (x ∷ rest))) (omega (arith, total))) (
      rw (alloc-cursor raw n (omega (arith, total, k))) (
        rw (rest_of-cursor front (x ∷ rest)) (
          ap (λ (l : List ℕ). ok (cursor [] l))
            (overlay-eq (x ∷ rest) fresh (omega (arith, room))
              ∙ rw
                  (length-eq-zero (drop (length (x ∷ rest)) fresh)
                    (omega (arith, room, length-drop (length (x ∷ rest)) fresh)))
                  (append-nil (x ∷ rest))))))
  where
    n : ℕ
    n = length (front ++ (x ∷ rest)) - length front

    fresh : List ℕ
    fresh = fresh_bytes raw 0 n

    total : length (front ++ (x ∷ rest)) ≡ length front + length (x ∷ rest)
    total = length-append front (x ∷ rest)

    room : length fresh ≡ length (x ∷ rest)
    room = omega (arith, length-fresh_bytes raw 0 n, total)

flag_lem : (b : Bool) → ((if b then 1 else 0) == 1) ≡ b
flag_lem true = refl
flag_lem false = refl

-- A block of a snapshot is read back, its payload in a fresh buffer that stands at its start.
pub deserialize_sync-sync_bytes :
    (raw : ℕ → ℕ) (r : SnapshotSyncReq)
    → IsSnapshot r.snapshot
    → r.offset < 2 ^ 64
    → length (sync_bytes r) < max_size
    → deserialize_sync raw (cursor [] (sync_bytes r))
      ≡ ok (record r { payload = cursor [] (rest_of r.payload) })
unfolding deserialize_sync
deserialize_sync-sync_bytes raw r h word k =
    rw
      (deserialize-snapshot_bytes r.snapshot [] (ulong_bytes r.offset ++ (flag ∷ rest_of r.payload))
        h whole)
      (rw (get_ulong-cursor r.offset _ _ word whole1) (
        rw (get_byte-cursor flag _ (rest_of r.payload) whole2)
          (rw (read_payload-cursor raw _ (rest_of r.payload) whole3) (rw (flag_lem r.done) refl))))
  where
    flag : ℕ
    flag = if r.done then 1 else 0

    whole :
        Fits [] (snapshot_bytes r.snapshot ++ (ulong_bytes r.offset ++ (flag ∷ rest_of r.payload)))
    whole = Fits-nil (sync_bytes r) k

    whole1 : Fits (snapshot_bytes r.snapshot) (ulong_bytes r.offset ++ (flag ∷ rest_of r.payload))
    whole1 =
        Fits-next (snapshot_bytes r.snapshot) []
          (ulong_bytes r.offset ++ (flag ∷ rest_of r.payload)) whole

    whole2 : Fits (snapshot_bytes r.snapshot ++ ulong_bytes r.offset) (flag ∷ rest_of r.payload)
    whole2 =
        Fits-next (ulong_bytes r.offset) (snapshot_bytes r.snapshot) (flag ∷ rest_of r.payload)
          whole1

    whole3 :
        Fits (snapshot_bytes r.snapshot ++ ulong_bytes r.offset ++ (flag ∷ [])) (rest_of r.payload)
    whole3 =
        Fits-next (flag ∷ []) (snapshot_bytes r.snapshot ++ ulong_bytes r.offset)
          (rest_of r.payload) whole2
