-- ===== src/Tests/Enclaves.antt =====
-- Enclaves, their keys and their hosts, on concrete data.
use enclave_raft.Prelude.{
  ℕ, ◌+◌, ◌≡◌, refl, true, false, if◌then◌else◌, ◌==◌, some, List, [], ◌∷◌, ◌++◌, All, length,
  codes, arith, ok,
}
use enclave_raft.Buffer.{write_loop}
use enclave_raft.Messages.{Req, Resp, request_vote_request, request_vote_response}
use enclave_raft.Messages.Requests.{IsReq}
use enclave_raft.Server.State.{Server, follower, no_server}
use enclave_raft.Server.Public.{process_req, dispatch_req, hear_term}
use enclave_raft.Server.Elect.{update_term}
use enclave_raft.Server.Requests.{handle_vote_req, is_grant, is_up_to_date}
use enclave_raft.LogStore.{last_entry, find_or_dummy, find, next_slot}
use enclave_raft.Enclave.{Enclave}
use enclave_raft.Keys.CText.{strstr, starts_with}
use enclave_raft.Keys.Certs.{verify_certs_and_signature}
use enclave_raft.Keys.Report.{Platform, delimiter, validate_verification_report}
use enclave_raft.Keys.Report.Accepted.{IsAccepted, validate_verification_report-IsAccepted}
use enclave_raft.Keys.Store.Attested.{
  IsAttested, KeyEvent, requested, answered, step, run, Admits, run-step-Attested,
}
use enclave_raft.Port.Listener.{find_response}
use enclave_raft.Port.Client.{Clients, find_callback, send, rpc_response}
use enclave_raft.Port.Client.Answers.{IsResp}
use enclave_raft.Host.Handler.{message_handler, answered as host_answered}
use enclave_raft.Host.Client
use enclave_raft.Host.Client.{
  Event, sent, resolved, connected, request_written, size_at_end, size_read, response_read,
  new_client,
}
use enclave_raft.Host.Client.Reported.{
  under_way, reported as reported_times, times, given, run-reported,
}
use enclave_raft.Host.Handler.Exchange.{kept, rpc_response-message_handler-send}
use enclave_raft.Port.Crypto.{raft_encrypt}
use enclave_raft.Tests.{fresh, node, req}
use enclave_raft.Tests.Ports.{cipher, cipher-IsCipher, iv}

-- A report whose certificate and signature are one character each.
abbrev packet : List ℕ
packet =
    codes "Content-Length: 2"
    ++ (delimiter
        ++ (codes "X-IASReport-Signature: s"
            ++ (delimiter
                ++ (codes "X-IASReport-Signing-Certificate: c"
                    ++ (delimiter ++ (delimiter ++ codes "{}"))))))

-- Every certificate is good, and every text is the same document, whose members are told apart by the
-- lengths of their names.
abbrev platform : Platform ℕ ℕ
platform = record {
  ssl = record {
    read_cert = λ text. some 1;
    verify_cert = λ root chain. ok true;
    digest_verify = λ content sig cert. ok true;
  };
  json = record {
    parse = λ text. (0, false);
    dump = λ j. j ∷ [];
    member = λ name j. length name;
    int_value = λ j. if j == 7 then 3 else 4;
    string_value = λ j. if j == 21 then codes "OK" else if j == 6 then packet else 5 ∷ 6 ∷ [];
    array_items = λ j. [];
    of_int = λ n. n;
    of_string = λ text. 0;
    object = λ members. 0;
  };
  base64 = λ text. ok text;
  root_ca = codes "r";
  report_data = λ quote. quote;
}

packet_quote : validate_verification_report platform packet ≡ ok (some (5 ∷ 6 ∷ []))
unfolding validate_verification_report strstr starts_with verify_certs_and_signature
packet_quote = refl

validate_verification_report-IsAccepted_example : IsAccepted platform packet (5 ∷ 6 ∷ [])
validate_verification_report-IsAccepted_example =
    validate_verification_report-IsAccepted platform packet (5 ∷ 6 ∷ []) packet_quote

abbrev voter : Server
voter = record (node follower no_server) { state = record { term = 3; voted_for = no_server } }

-- An enclave that has asked server 4 for its report.
abbrev enclave : Enclave ℕ
enclave = record {
  raft = voter;
  clients = record { last_req_uid = 8; callback_pool = []; wire = [] };
  keys = record {
    self_report = packet;
    self_public = 5 ∷ 6 ∷ [];
    store = [];
    temp_connections = (4, record { client = 9; endpoint = 115 ∷ [] }) ∷ [];
  };
  mailbox = record { id_counter = 2; responses = (2, 1 ∷ []) ∷ [] };
  closed = [];
}

abbrev exchange : List KeyEvent
exchange = requested 4 (116 ∷ []) ∷ (answered (0 ∷ []) [] ∷ [])

run-step-Attested_example :
    let e = run platform 0 (λ endpoint. 9) exchange enclave in
    All
      (IsAttested platform)
      (step platform 0 (λ endpoint. 9) (requested 4 (116 ∷ [])) e).keys.store
    × Admits platform 0
        (λ endpoint. 9)
        e
        (step platform 0 (λ endpoint. 9) (requested 4 (116 ∷ [])) e)
run-step-Attested_example =
    run-step-Attested platform 0 (λ endpoint. 9) exchange (requested 4 (116 ∷ [])) enclave refl

-- A request for a vote of server 2, which the enclave's server gives.
abbrev vote_req : Req
vote_req = req request_vote_request 2 2 3 []

abbrev vote : Resp
vote = record {
  term = 3;
  type = request_vote_response;
  src = 1;
  dst = 2;
  next_idx = 4;
  accepted = true;
}

vote_req-IsReq : IsReq vote_req
unfolding write_loop
vote_req-IsReq = record {
  named = tt;
  src_word = omega arith;
  dst_word = omega arith;
  term_word = omega arith;
  last_log_term_word = omega arith;
  last_log_idx_word = omega arith;
  commit_idx_word = omega arith;
  wire_entries = ground arith;
  fits = omega arith;
}

vote-IsResp : IsResp vote
vote-IsResp = record {
  named = tt;
  src_word = omega arith;
  dst_word = omega arith;
  term_word = omega arith;
  next_idx_word = omega arith;
}

vote_given : process_req 5 vote_req voter ≡ (ok vote, (process_req 5 vote_req voter).1)
unfolding process_req dispatch_req hear_term update_term handle_vote_req is_grant is_up_to_date
    last_entry find_or_dummy find next_slot
vote_given = refl

rpc_response-message_handler-send_example :
    let t = (process_req 5 vote_req voter).1 in
    (s' : Clients ℕ) × (m : List ℕ) × (a : List ℕ) × (send cipher fresh iv 9 vote_req 3
        enclave.clients
      ≡ ok s')
    × (s'.wire ≡ record { client = 9; message = m; unique_id = 9 } ∷ [])
    × (message_handler platform 5 (λ endpoint. 9) cipher iv m enclave ≡ (
      ok (host_answered (some a)),
      record enclave { raft = t; mailbox = kept a enclave.mailbox },
    ))
    × (rpc_response cipher fresh 9 a false s'
        ≡ (ok (some (3, vote)), record s' { callback_pool = [] }))
unfolding find_callback find_response write_loop raft_encrypt
rpc_response-message_handler-send_example =
    rpc_response-message_handler-send platform 5 (λ endpoint. 9) cipher fresh iv iv 9 vote_req 3
      vote enclave.clients enclave ((process_req 5 vote_req voter).1) cipher-IsCipher refl refl
      vote_req-IsReq vote-IsResp refl refl (omega arith) vote_given

-- Two requests: the first fails to connect, and the response of the second comes when its socket
-- has no names any more.
abbrev events : List Event
events =
    sent 1 (7 ∷ []) true
    ∷ resolved 1 true
    ∷ connected 1 false true
    ∷ sent 2 (8 ∷ []) true
    ∷ resolved 2 true
    ∷ connected 2 true true
    ∷ request_written 2 true
    ∷ size_at_end 2
    ∷ size_read 2 1
    ∷ response_read 2 (9 ∷ []) false
    ∷ []

run-reported_example :
    under_way 2 (Client.run events new_client).pending
      + reported_times 2 (Client.run events new_client).reports
      + times 2 (Client.run events new_client).lost
    ≡ given 2 events
run-reported_example = run-reported 2 events
