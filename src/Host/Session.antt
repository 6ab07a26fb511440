-- ===== src/Host/Session.antt =====
-- raft_app/port/asio_rpc_session.hxx: a connection to the host, which reads requests off a stream,
-- has each answered and writes the answers. A completed read or write of the socket is a step; which
-- bytes a read brings is the network's choice. The machine's words are little-endian.
pub mod Frames
pub mod Waiting
pub mod Steps
pub mod Streams
use enclave_raft.Prelude.{
  ℕ, zero, suc, ◌+◌, ◌-◌, ◌≤◌, ◌%◌, ◌^◌, Option, none, some, List, [], ◌∷◌, ◌++◌, ltb, leb,
  if◌then◌else◌, length, take, drop, Result, ok, err,
}
use enclave_raft.Buffer.{read_loop, write_loop}

-- What the session waits for: a header, the rest of a payload, the end of a write, or nothing.
pub data Phase : Type 0 where
  header payload writing stopped : Phase

abbrev pub request_header_size : ℕ
request_header_size = 4

-- A 32-bit word in memory.
abbrev pub word_of : List ℕ → ℕ
word_of bs = read_loop 32 4 0 0 bs

-- The answer of the request handler: a response, none, or an exception, and the host after it.
abbrev pub RequestHandler : Type 0 → Type 0
RequestHandler A = List ℕ → A → Result (Option (List ℕ)) × A

-- `host` is what the handler works on, `sent` what is written, the earliest first.
pub record Session (A : Type 0) : Type 0 where
  pub phase : Phase
  pub payload_size : ℕ
  pub request : List ℕ
  pub host : A
  pub sent : List (List ℕ)

-- The bytes of a response behind its size.
unfoldable pub framed : List ℕ → List ℕ
framed resp = let n = length resp % 2 ^ 32 in write_loop 4 0 n ++ take n resp

module _ {A : Type 0} where
  unfoldable pub open_session : A → Session A
  open_session a = record { phase = header; payload_size = 0; request = []; host = a; sent = [] }

  unfoldable pub stop : Session A → Session A
  stop s = record s { phase = stopped }

  unfoldable pub write_response : List ℕ → Session A → Session A
  unfolding framed
  write_response resp s = record s {
    phase = writing;
    payload_size = length resp % 2 ^ 32;
    sent = s.sent ++ (framed resp ∷ []);
  }

  module _ (handler : RequestHandler A) where
    unfoldable pub handle_request : Session A → Session A
    unfolding write_response stop
    handle_request s =
        let (answer, host) = handler (take s.payload_size s.request) s.host in
        let t : Session A = record s { request = drop s.payload_size s.request; host = host } in
        elim answer [
          | ok resp ↦ elim resp [ some r ↦ write_response r t | none ↦ stop t ]
          | err e ↦ stop t
        ]

    unfoldable pub handle_request_header : Session A → Session A
    handle_request_header s =
        let t : Session A = record s {
          payload_size = word_of (take request_header_size s.request);
          request = drop request_header_size s.request;
        } in
        if ltb (length t.request) t.payload_size
        then record t { phase = payload }
        else handle_request t

    -- The handler of the end of a write: it goes on with what is in the buffer, or reads on.
    unfoldable pub written : Session A → Session A
    written s =
        let t : Session A = record s { payload_size = 0 } in
        if leb request_header_size (length t.request)
        then handle_request_header t
        else record t { phase = header }

    -- The writes that are made before the next read. Each takes a header off the buffer.
    unfoldable pub finish : ℕ → Session A → Session A
    unfolding written
    finish zero s = s
    finish (suc n) s = elim s.phase [
      | writing ↦ finish n (written s)
      | header ↦ s
      | payload ↦ s
      | stopped ↦ s
    ]

    -- The handlers of a read of the header and of the payload.
    unfoldable pub bytes_read : Session A → Session A
    unfolding handle_request_header handle_request
    bytes_read s = elim s.phase [
      | header ↦ handle_request_header s
      | payload ↦ if ltb (length s.request) s.payload_size then s else handle_request s
      | writing ↦ s
      | stopped ↦ s
    ]

    -- A read that completes with the bytes `bs`, and the writes after it.
    unfoldable pub receive : List ℕ → Session A → Session A
    unfolding bytes_read finish
    receive bs s =
        let t : Session A = record s { request = s.request ++ bs } in
        finish (length t.request) (bytes_read t)

    unfoldable pub receive_all : List (List ℕ) → Session A → Session A
    unfolding receive
    receive_all [] s = s
    receive_all (bs ∷ rest) s = receive_all rest (receive bs s)
