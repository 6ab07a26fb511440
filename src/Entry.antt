-- ===== src/Entry.antt =====
-- raft_enclave/raft/include/contribution/log_entry.hxx, log_val_type.hxx: a log entry and its wire
-- form. The buffer pointer of an entry is never null here: no code makes such an entry.
pub mod RoundTrip
use enclave_raft.Prelude.{ℕ, ◌+◌, ◌%◌, Bool, true, false, ◌==◌, if◌then◌else◌, Result, ok, ◌>>=◌}
use enclave_raft.Buffer.{
  Buffer, size, sz_ulong, alloc, seek, get_ulong, get_byte, put_ulong, put_byte, put_buffer, copy,
}

-- `unknown` is a byte that `static_cast` lets through.
pub data LogValType : Type 0 where
  app_log conf cluster_server log_pack snp_sync_req : LogValType
  unknown : ℕ → LogValType

abbrev pub val_code : LogValType → ℕ
val_code app_log = 1
val_code conf = 2
val_code cluster_server = 3
val_code log_pack = 4
val_code snp_sync_req = 5
val_code (unknown n) = n

abbrev pub val_of_code : ℕ → LogValType
val_of_code n =
    if n == 1
    then app_log
    else if n == 2
    then conf
    else if n == 3
    then cluster_server
    else if n == 4
    then log_pack
    else if n == 5
    then snp_sync_req
    else unknown n

-- `a == b` on values of the enumeration.
abbrev pub val_eq : LogValType → LogValType → Bool
val_eq a b = val_code a == val_code b

pub record LogEntry : Type 0 where
  pub term : ℕ
  pub val_type : LogValType
  pub buf : Buffer

-- The entry's own buffer is sent back to its start, and all of it is written.
unfoldable pub serialize : (ℕ → ℕ) → LogEntry → Result Buffer
serialize raw e =
    alloc raw (sz_ulong + 1 + size e.buf)
    >>= put_ulong e.term
    >>= put_byte (val_code e.val_type % 256)
    >>= put_buffer (seek 0 e.buf)
    >>= λ b. ok (seek 0 b)

unfoldable pub deserialize : (ℕ → ℕ) → Buffer → Result LogEntry
deserialize raw b = get_ulong b >>= λ (term, b1). get_byte b1 >>= λ (t, b2).
    copy raw b2 >>= λ payload. ok (record { term = term; val_type = val_of_code t; buf = payload })
