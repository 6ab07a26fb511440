-- ===== src/Snapshot.antt =====
-- raft_enclave/raft/include/contribution/snapshot.hxx, snapshot_sync_req.hxx, snapshot_sync_ctx.hxx
-- and ../srv_state.hxx: the snapshot's description, the request that carries a block of it, the
-- state of a transfer, and the persistent vote.
pub mod RoundTrip
use enclave_raft.Prelude.{
  ℕ, ◌+◌, ◌*◌, ◌-◌, Bool, true, false, ◌==◌, ltb, if◌then◌else◌, splice, [], Result, ok, ◌>>=◌,
}
use enclave_raft.Buffer.{
  Buffer, size as buf_size, rest_of, sz_ulong, sz_int, alloc, seek, get_ulong, get_int, get_byte,
  put_ulong, put_int, put_byte, put_buffer,
}
use enclave_raft.Config
use enclave_raft.Config.{ClusterConfig}

pub record Snapshot : Type 0 where
  pub last_log_idx : ℕ
  pub last_log_term : ℕ
  pub size : ℕ
  pub last_config : ClusterConfig

unfoldable pub serialize : (ℕ → ℕ) → Snapshot → Result Buffer
serialize raw s = Config.serialize raw s.last_config >>= λ conf_buf.
    alloc raw (buf_size conf_buf + sz_ulong * 3)
    >>= put_ulong s.last_log_idx
    >>= put_ulong s.last_log_term
    >>= put_ulong s.size
    >>= put_buffer conf_buf
    >>= λ b. ok (seek 0 b)

unfoldable pub deserialize : Buffer → Result (Snapshot × Buffer)
deserialize b = get_ulong b >>= λ (idx, b1). get_ulong b1 >>= λ (term, b2).
    get_ulong b2 >>= λ (sz, b3). Config.deserialize b3 >>= λ (conf, b4).
    ok (record { last_log_idx = idx; last_log_term = term; size = sz; last_config = conf }, b4)

pub record SnapshotSyncReq : Type 0 where
  pub snapshot : Snapshot
  pub offset : ℕ
  pub payload : Buffer
  pub done : Bool

unfoldable pub serialize_sync : (ℕ → ℕ) → SnapshotSyncReq → Result Buffer
unfolding serialize
serialize_sync raw r = serialize raw r.snapshot >>= λ snp_buf.
    alloc raw (buf_size snp_buf + sz_ulong + 1 + (buf_size r.payload - r.payload.pos))
    >>= put_buffer snp_buf
    >>= put_ulong r.offset
    >>= put_byte (if r.done then 1 else 0)
    >>= put_buffer r.payload
    >>= λ b. ok (seek 0 b)

-- The bytes from the position on, copied to a fresh buffer; an empty one if there are none.
unfoldable pub read_payload : (ℕ → ℕ) → Buffer → Result Buffer
read_payload raw b =
    if ltb b.pos (buf_size b)
    then (alloc raw (buf_size b - b.pos) >>= λ d.
        ok (record d { bytes = splice 0 (rest_of b) d.bytes }))
    else alloc raw 0

unfoldable pub deserialize_sync : (ℕ → ℕ) → Buffer → Result SnapshotSyncReq
unfolding deserialize read_payload
deserialize_sync raw b = deserialize b >>= λ (snp, b1). get_ulong b1 >>= λ (offset, b2).
    get_byte b2 >>= λ (flag, b3). read_payload raw b3 >>= λ d.
    ok (record { snapshot = snp; offset = offset; payload = d; done = flag == 1 })

-- `snapshot_sync_ctx`: the snapshot in transfer to a peer, and how far it has got.
pub record SnapshotSyncCtx : Type 0 where
  pub snapshot : Snapshot
  pub offset : ℕ

-- `srv_state`
pub record SrvState : Type 0 where
  pub term : ℕ
  pub voted_for : ℕ

unfoldable pub serialize_state : (ℕ → ℕ) → SrvState → Result Buffer
serialize_state raw s =
    alloc raw (sz_ulong + sz_int) >>= put_ulong s.term >>= put_int s.voted_for >>= λ b.
    ok (seek 0 b)

unfoldable pub deserialize_state : Buffer → Result (SrvState × Buffer)
deserialize_state b = get_ulong b >>= λ (term, b1).
    get_int b1 >>= λ (voted, b2). ok (record { term = term; voted_for = voted }, b2)
