-- ===== src/Messages.antt =====
-- raft_enclave/raft/include/rpc/msg_type.hxx, msg_base.hxx, req_msg.hxx, resp_msg.hxx: the requests
-- and responses of the servers; raft_enclave/port/msg_serializer.cxx: their wire forms.
pub mod RoundTrip
pub mod Entries
pub mod Requests
use enclave_raft.Prelude.{
  ℕ, zero, suc, ◌+◌, ◌*◌, ◌-◌, ◌%◌, ◌^◌, Bool, true, false, List, [], ◌∷◌, ltb, leb, ◌==◌, ◌&&◌,
  if◌then◌else◌, length, Result, ok, err, ◌>>=◌, runtime_error,
}
use enclave_raft.Buffer.{
  Buffer, size, alloc, seek, get_byte, get_int, get_ulong, get_buffer, put_byte, put_int, put_ulong,
  put_buffer,
}
use enclave_raft.Config.{total_size, put_all}
use enclave_raft.Entry.{LogEntry, val_code, val_of_code}

-- `unknown` is a byte that the cast lets through.
pub data MsgType : Type 0 where
  request_vote_request request_vote_response append_entries_request append_entries_response :
      MsgType
  client_request add_server_request add_server_response remove_server_request : MsgType
  remove_server_response sync_log_request sync_log_response join_cluster_request : MsgType
  join_cluster_response leave_cluster_request leave_cluster_response : MsgType
  install_snapshot_request install_snapshot_response : MsgType
  unknown : ℕ → MsgType

abbrev pub msg_code : MsgType → ℕ
msg_code request_vote_request = 1
msg_code request_vote_response = 2
msg_code append_entries_request = 3
msg_code append_entries_response = 4
msg_code client_request = 5
msg_code add_server_request = 6
msg_code add_server_response = 7
msg_code remove_server_request = 8
msg_code remove_server_response = 9
msg_code sync_log_request = 10
msg_code sync_log_response = 11
msg_code join_cluster_request = 12
msg_code join_cluster_response = 13
msg_code leave_cluster_request = 14
msg_code leave_cluster_response = 15
msg_code install_snapshot_request = 16
msg_code install_snapshot_response = 17
msg_code (unknown n) = n

abbrev pub msg_of_code : ℕ → MsgType
msg_of_code n =
    if n == 1
    then request_vote_request
    else if n == 2
    then request_vote_response
    else if n == 3
    then append_entries_request
    else if n == 4
    then append_entries_response
    else if n == 5
    then client_request
    else if n == 6
    then add_server_request
    else if n == 7
    then add_server_response
    else if n == 8
    then remove_server_request
    else if n == 9
    then remove_server_response
    else if n == 10
    then sync_log_request
    else if n == 11
    then sync_log_response
    else if n == 12
    then join_cluster_request
    else if n == 13
    then join_cluster_response
    else if n == 14
    then leave_cluster_request
    else if n == 15
    then leave_cluster_response
    else if n == 16
    then install_snapshot_request
    else if n == 17
    then install_snapshot_response
    else unknown n

-- `src` and `dst` are bit patterns of an `int32`.
pub record Req : Type 0 where
  pub term : ℕ
  pub type : MsgType
  pub src : ℕ
  pub dst : ℕ
  pub last_log_term : ℕ
  pub last_log_idx : ℕ
  pub commit_idx : ℕ
  pub log_entries : List LogEntry

pub record Resp : Type 0 where
  pub term : ℕ
  pub type : MsgType
  pub src : ℕ
  pub dst : ℕ
  pub next_idx : ℕ
  pub accepted : Bool

-- `accept(next_idx)`
abbrev pub accept : ℕ → Resp → Resp
accept i r = record r { next_idx = i; accepted = true }

abbrev pub rpc_req_header_size : ℕ
rpc_req_header_size = 3 * 4 + 8 * 4 + 1

abbrev pub rpc_resp_header_size : ℕ
rpc_resp_header_size = 4 * 2 + 8 * 2 + 2

-- The loop of `serialize_req` on one entry: term, type, size and payload.
unfoldable pub entry_buffer : (ℕ → ℕ) → LogEntry → Result Buffer
entry_buffer raw e =
    alloc raw (8 + 1 + 4 + size e.buf)
    >>= put_ulong e.term
    >>= put_byte (val_code e.val_type % 256)
    >>= put_int (size e.buf % 2 ^ 32)
    >>= put_buffer (seek 0 e.buf)
    >>= λ b. ok (seek 0 b)

unfoldable pub entry_buffers : (ℕ → ℕ) → List LogEntry → Result (List Buffer)
unfolding entry_buffer
entry_buffers raw [] = ok []
entry_buffers raw (e ∷ es) = entry_buffer raw e >>= λ b. entry_buffers raw es >>= λ bs. ok (b ∷ bs)

unfoldable pub serialize_req : (ℕ → ℕ) → Req → Result Buffer
unfolding entry_buffers
serialize_req raw r = entry_buffers raw r.log_entries >>= λ bufs.
    alloc raw (rpc_req_header_size + total_size bufs % 2 ^ 32)
    >>= put_byte (msg_code r.type % 256)
    >>= put_int r.src
    >>= put_int r.dst
    >>= put_ulong r.term
    >>= put_ulong r.last_log_term
    >>= put_ulong r.last_log_idx
    >>= put_ulong r.commit_idx
    >>= put_int (total_size bufs % 2 ^ 32)
    >>= put_all bufs
    >>= λ b. ok (seek 0 b)

-- One round of the loop of `deserialize_req`. A negative size is no size to allocate.
unfoldable pub read_entry : (ℕ → ℕ) → Buffer → Result (LogEntry × Buffer)
read_entry raw b = get_ulong b >>= λ (term, b1). get_byte b1 >>= λ (t, b2).
    get_int b2 >>= λ (sz, b3). alloc raw sz >>= λ fresh. get_buffer fresh b3 >>= λ (payload, b4).
    ok (record { term = term; val_type = val_of_code t; buf = payload }, b4)

-- The loop `while (log_data->size() > log_data->pos())`. A round takes 13 bytes at least, so the
-- size of the data is fuel enough (`RoundTrip`).
unfoldable pub read_entries : (ℕ → ℕ) → ℕ → Buffer → Result (List LogEntry)
unfolding read_entry
read_entries raw zero b = if ltb b.pos (size b) then err runtime_error else ok []
read_entries raw (suc fuel) b = elim (ltb b.pos (size b)) [
  | false ↦ ok []
  | true ↦ read_entry raw b >>= λ (e, b'). read_entries raw fuel b' >>= λ es. ok (e ∷ es)
]

abbrev is_positive : ℕ → Bool
is_positive n = ltb 0 n && ltb n (2 ^ 31)

-- The log data is read if the header's last number, as an `int32`, is positive.
unfoldable pub deserialize_req : (ℕ → ℕ) → Buffer → Buffer → Result Req
unfolding read_entries
deserialize_req raw header log_data = get_byte (seek 0 header) >>= λ (t, h1).
    get_int h1 >>= λ (src, h2). get_int h2 >>= λ (dst, h3). get_ulong h3 >>= λ (term, h4).
    get_ulong h4 >>= λ (last_term, h5). get_ulong h5 >>= λ (last_idx, h6).
    get_ulong h6 >>= λ (commit_idx, h7). get_int h7 >>= λ (log_size, h8).
    (if is_positive log_size then read_entries raw (size log_data) (seek 0 log_data) else ok [])
    >>= λ es. ok (record {
      term = term;
      type = msg_of_code t;
      src = src;
      dst = dst;
      last_log_term = last_term;
      last_log_idx = last_idx;
      commit_idx = commit_idx;
      log_entries = es;
    })

unfoldable pub serialize_resp : (ℕ → ℕ) → Resp → Result Buffer
serialize_resp raw r =
    alloc raw rpc_resp_header_size
    >>= put_byte (msg_code r.type % 256)
    >>= put_int r.src
    >>= put_int r.dst
    >>= put_ulong r.term
    >>= put_ulong r.next_idx
    >>= put_byte (if r.accepted then 1 else 0)
    >>= λ b. ok (seek 0 b)

unfoldable pub deserialize_resp : Buffer → Result Resp
deserialize_resp b = get_byte (seek 0 b) >>= λ (t, b1). get_int b1 >>= λ (src, b2).
    get_int b2 >>= λ (dst, b3). get_ulong b3 >>= λ (term, b4). get_ulong b4 >>= λ (next_idx, b5).
    get_byte b5 >>= λ (flag, b6). ok (record {
      term = term;
      type = msg_of_code t;
      src = src;
      dst = dst;
      next_idx = next_idx;
      accepted = flag == 1;
    })
