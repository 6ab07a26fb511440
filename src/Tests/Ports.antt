-- ===== src/Tests/Ports.antt =====
-- Messages over the wire, timers and a connection to the host, on concrete data.
use enclave_raft.Prelude.{
  ℕ, suc, ◌≡◌, refl, true, false, some, List, [], ◌∷◌, ◌++◌, arith, ok, length, map,
}
use enclave_raft.Buffer.{write_loop}
use enclave_raft.Buffer.Cursor.{cursor}
use enclave_raft.Messages.{
  Req, Resp, append_entries_request, append_entries_response, rpc_req_header_size, serialize_req,
  deserialize_req,
}
use enclave_raft.Entry.RoundTrip.{rewound}
use enclave_raft.Messages.RoundTrip.{resp_bytes}
use enclave_raft.Messages.Requests.{IsReq, header_bytes, log_bytes, deserialize_req-serialize_req}
use enclave_raft.Server.State.{follower, no_server}
use enclave_raft.Server.Public.{process_req}
use enclave_raft.Port.Crypto.{Cipher, IsCipher, raft_encrypt}
use enclave_raft.Port.Listener.{handle_raft_message, raft_message}
use enclave_raft.Port.Remote.{served, request_text, received, handle_raft_message-raft_encrypt}
use enclave_raft.Port.Client.{Clients, find_callback, send, rpc_response}
use enclave_raft.Port.Client.Answers.{sent_of, rpc_response-send}
use enclave_raft.Port.Tasks.{Service, cancel}
use enclave_raft.Port.Tasks.Cancelled.{scheduled, expired, run, count, run-cancelled}
use enclave_raft.Host.Session.{RequestHandler, open_session, receive_all}
use enclave_raft.Host.Session.Frames.{serve}
use enclave_raft.Host.Session.Streams.{concat, outcome, Delivers, receive_all-serve}
use enclave_raft.Tests.{fresh, entry, node, req}

abbrev append : Req
append = req append_entries_request 2 1 1 (entry 1 11 ∷ entry 3 13 ∷ [])

append-IsReq : IsReq append
unfolding write_loop
append-IsReq = record {
  named = tt;
  src_word = omega arith;
  dst_word = omega arith;
  term_word = omega arith;
  last_log_term_word = omega arith;
  last_log_idx_word = omega arith;
  commit_idx_word = omega arith;
  wire_entries = ground arith;
  fits = omega arith;
}

deserialize_req-serialize_req_example :
    (serialize_req fresh append ≡ ok (cursor [] (header_bytes append ++ log_bytes append)))
    × (length (header_bytes append) ≡ rpc_req_header_size)
    × (deserialize_req fresh (cursor [] (header_bytes append)) (cursor [] (log_bytes append))
        ≡ ok (record append { log_entries = map rewound append.log_entries }))
deserialize_req-serialize_req_example = deserialize_req-serialize_req fresh append append-IsReq

-- A cipher that turns the text around its end: it puts a mark before it.
abbrev pub cipher : Cipher
cipher = record {
  aes_encrypt = λ key iv text. 1 ∷ text;
  aes_decrypt = λ key iv text. elim text [ [] ↦ [] | x ∷ l ↦ l ];
}

pub cipher-IsCipher : IsCipher cipher
cipher-IsCipher key iv text = refl

abbrev pub iv : List ℕ
iv = 0 ∷ 1 ∷ 2 ∷ 3 ∷ 4 ∷ 5 ∷ 6 ∷ 7 ∷ 8 ∷ 9 ∷ 10 ∷ 11 ∷ 12 ∷ 13 ∷ 14 ∷ 15 ∷ []

handle_raft_message-raft_encrypt_example :
    handle_raft_message cipher 0 iv
      (raft_encrypt cipher iv (request_text append))
      (node follower no_server)
    ≡ served cipher iv (process_req 0 (received append) (node follower no_server))
handle_raft_message-raft_encrypt_example =
    handle_raft_message-raft_encrypt cipher 0 iv iv append (node follower no_server) cipher-IsCipher
      refl append-IsReq

abbrev answer : Resp
answer = record {
  term = 3;
  type = append_entries_response;
  src = 1;
  dst = 2;
  next_idx = 4;
  accepted = true;
}

abbrev clients : Clients ℕ
clients = record { last_req_uid = 8; callback_pool = (8, (append, 3)) ∷ []; wire = [] }

rpc_response-send_example :
    (t : Clients ℕ) × (send cipher fresh iv 6 append 4 clients ≡ ok t)
    × (t.wire ≡ sent_of cipher iv 6 append clients ∷ [])
    × (rpc_response cipher fresh 9
          (raft_message ++ raft_encrypt cipher iv (resp_bytes answer))
          false
          t
        ≡ (ok (some (4, answer)), record t { callback_pool = clients.callback_pool }))
unfolding find_callback
rpc_response-send_example =
    rpc_response-send cipher fresh iv iv 6 append 4 answer clients cipher-IsCipher refl append-IsReq
      (record {
        named = tt;
        src_word = omega arith;
        dst_word = omega arith;
        term_word = omega arith;
        next_idx_word = omega arith;
      })
      refl

-- Task 2 has run once by its timer, 7.
abbrev service : Service
service = record {
  last_task_uid = 7;
  tasks = λ t. record { cancelled = false; impl_context = some 7 };
  task_pool = (7, 2) ∷ [];
  executed = 2 ∷ [];
  calls = [];
}

run-cancelled_example :
    count 2
      (run (expired 7 true ∷ scheduled 3 50 ∷ expired 7 true ∷ []) (cancel 2 service)).executed
    ≡ count 2 service.executed
run-cancelled_example =
    run-cancelled 2 (expired 7 true ∷ scheduled 3 50 ∷ expired 7 true ∷ []) service (omega arith)

-- A host that counts, and says back what it was asked.
abbrev echo : RequestHandler ℕ
echo request n = (ok (some request), suc n)

-- A request of two bytes and one of one byte, in two pieces.
abbrev pieces : List (List ℕ)
pieces = (2 ∷ 0 ∷ 0 ∷ 0 ∷ 7 ∷ []) ∷ (8 ∷ 1 ∷ 0 ∷ 0 ∷ 0 ∷ 9 ∷ []) ∷ []

pieces-Delivers : Delivers echo pieces (open_session 0)
unfolding open_session
pieces-Delivers = (λ e. omega arith, (λ e. omega arith, tt))

receive_all-serve_example :
    outcome (receive_all echo pieces (open_session 0)) ≡ serve echo 12 (concat pieces) 0
receive_all-serve_example = receive_all-serve echo pieces 0 pieces-Delivers
