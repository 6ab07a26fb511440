-- ===== src/Messages/Requests/Header.antt =====
-- A request's header: its bytes field by field.
use enclave_raft.Prelude.{ℕ, ◌%◌, ◌≡◌, List, [], ◌∷◌, ◌++◌, length, length-append, arith}
use enclave_raft.Buffer.Cursor.{ulong_bytes, int_bytes, length-write_loop}
use enclave_raft.Config.Blocks.{all_bytes}
use enclave_raft.Messages.{Req, msg_code}
use enclave_raft.Messages.Entries.{wire_bytes}

abbrev pub log_bytes : Req → List ℕ
log_bytes r = all_bytes wire_bytes r.log_entries

-- What a read of the fields one by one has behind it and before it.
abbrev pub front1 : Req → List ℕ
front1 r = (msg_code r.type % 256) ∷ []

abbrev pub front2 : Req → List ℕ
front2 r = front1 r ++ int_bytes r.src

abbrev pub front3 : Req → List ℕ
front3 r = front2 r ++ int_bytes r.dst

abbrev pub front4 : Req → List ℕ
front4 r = front3 r ++ ulong_bytes r.term

abbrev pub front5 : Req → List ℕ
front5 r = front4 r ++ ulong_bytes r.last_log_term

abbrev pub front6 : Req → List ℕ
front6 r = front5 r ++ ulong_bytes r.last_log_idx

abbrev pub front7 : Req → List ℕ
front7 r = front6 r ++ ulong_bytes r.commit_idx

abbrev pub rest7 : Req → List ℕ
rest7 r = int_bytes (length (log_bytes r))

abbrev pub rest6 : Req → List ℕ
rest6 r = ulong_bytes r.commit_idx ++ rest7 r

abbrev pub rest5 : Req → List ℕ
rest5 r = ulong_bytes r.last_log_idx ++ rest6 r

abbrev pub rest4 : Req → List ℕ
rest4 r = ulong_bytes r.last_log_term ++ rest5 r

abbrev pub rest3 : Req → List ℕ
rest3 r = ulong_bytes r.term ++ rest4 r

abbrev pub rest2 : Req → List ℕ
rest2 r = int_bytes r.dst ++ rest3 r

abbrev pub rest1 : Req → List ℕ
rest1 r = int_bytes r.src ++ rest2 r

-- The 45 bytes before the entries.
abbrev pub header_bytes : Req → List ℕ
header_bytes r = (msg_code r.type % 256) ∷ rest1 r

pub length-header_bytes : (r : Req) → length (header_bytes r) ≡ 45
length-header_bytes r = omega (
  arith,
  length-append (int_bytes r.src) (rest2 r),
  length-append (int_bytes r.dst) (rest3 r),
  length-append (ulong_bytes r.term) (rest4 r),
  length-append (ulong_bytes r.last_log_term) (rest5 r),
  length-append (ulong_bytes r.last_log_idx) (rest6 r),
  length-append (ulong_bytes r.commit_idx) (rest7 r),
  length-write_loop 4 0 r.src,
  length-write_loop 4 0 r.dst,
  length-write_loop 8 0 r.term,
  length-write_loop 8 0 r.last_log_term,
  length-write_loop 8 0 r.last_log_idx,
  length-write_loop 8 0 r.commit_idx,
  length-write_loop 4 0 (length (log_bytes r)),
)
