-- ===== src/Host/Handler/Exchange.antt =====
-- A request of one enclave that goes through the host of another and back.
use enclave_raft.Prelude.{
  ℕ, zero, suc, ◌+◌, ◌%◌, ◌^◌, ◌<◌, ◌≡◌, refl, ap, false, ◌||◌, Option, none, some, List, ◌∷◌, ◌++◌,
  length, arith, ok, leb, ◌==◌, le→ltb,
}
use enclave_raft.Messages.{Req, Resp}
use enclave_raft.Messages.RoundTrip.{resp_bytes}
use enclave_raft.Messages.Requests.{IsReq}
use enclave_raft.Server.State.{Server}
use enclave_raft.Server.Public.{process_req}
use enclave_raft.Port.Crypto.{Cipher, IsCipher, s_block_size, raft_encrypt}
use enclave_raft.Port.Listener.{Mailbox, find_response, emplace, fetch_response, raft_message}
use enclave_raft.Port.Remote.{overlay_all, request_text, received, handle_raft_message-raft_encrypt}
use enclave_raft.Port.Client.{Clients, find_callback, send, rpc_response, message_type}
use enclave_raft.Port.Client.Answers.{IsResp, next_uid, rpc_response-send}
use enclave_raft.Enclave.{Enclave, ◌>>=◌}
use enclave_raft.Keys.Report.{Platform}
use enclave_raft.Port.Requests.{replied, hand_over, handle_rpc_request}
use enclave_raft.Host.Handler.{answered, zero_bytes, fetch_answer, message_handler}

length-zero_bytes : (n : ℕ) → length (zero_bytes n) ≡ n
unfolding zero_bytes
length-zero_bytes zero = refl
length-zero_bytes (suc n) = ap suc (length-zero_bytes n)

-- The next id of a message, and the responses with one more.
abbrev pub next_id : Mailbox → ℕ
next_id m = (m.id_counter + 1) % 2 ^ 32

abbrev pub kept : List ℕ → Mailbox → Mailbox
kept text m = record { id_counter = next_id m; responses = (next_id m, text) ∷ m.responses }

emplace_free :
    (k : ℕ) (r : List ℕ) (rs : List (ℕ × List ℕ))
    → find_response k rs ≡ none
    → emplace k r rs ≡ (k, r) ∷ rs
unfolding emplace
emplace_free k r rs free = rw (free, emplace) refl

find_first : (k : ℕ) (r : List ℕ) (rs : List (ℕ × List ℕ)) → find_response k ((k, r) ∷ rs) ≡ some r
unfolding find_response
find_first k r rs = ground arith

-- A response that is kept under a free id is the one that the host fetches under it.
fetch_response-kept :
    (text : List ℕ) (m : Mailbox)
    → fetch_response (next_id m) (zero_bytes (length text)) (kept text m) ≡ some text
unfolding fetch_response
fetch_response-kept text m =
    rw (found, fetch_response)
      (rw (le→ltb (length (zero_bytes (length text))) (length text) (omega (arith, room)))
        (ap some (overlay_all text (zero_bytes (length text)) room)))
  where
    room : length (zero_bytes (length text)) ≡ length text
    room = length-zero_bytes (length text)

    found : find_response (next_id m) ((next_id m, text) ∷ m.responses) ≡ some text
    found = find_first (next_id m) text m.responses

module _ {H : Type 0} where
  hand_over-fetch :
      (text : List ℕ) (e : Enclave H)
      → find_response (next_id e.mailbox) e.mailbox.responses ≡ none
      → 0 < length text
      → length text < 2 ^ 31
      → (hand_over (replied (some text)) >>= fetch_answer) e
        ≡ (ok (answered (some text)), record e { mailbox = kept text e.mailbox })
  unfolding hand_over fetch_answer
  hand_over-fetch text e free full short =
      rw (emplace_free (next_id e.mailbox) text e.mailbox.responses free) (
        rw word (
          rw test (
            ap
              (λ (o : Option (List ℕ)).
                (ok (answered o), record e { mailbox = kept text e.mailbox }))
              (fetch_response-kept text e.mailbox))))
    where
      word : length text % 2 ^ 32 ≡ length text
      word = omega (arith, short)

      test : (length text == 0 || leb (2 ^ 31) (length text)) ≡ false
      test = ground (arith, full, short)

  module _ {X509 J : Type 0} (p : Platform X509 J) (now : ℕ) (open_client : List ℕ → ℕ) where
    message_handler-request :
        (c : Cipher) (iv0 iv : List ℕ) (r : Req) (resp : Resp) (t : Server) (e : Enclave H)
        → IsCipher c
        → length iv0 ≡ s_block_size
        → IsReq r
        → process_req now (received r) e.raft ≡ (ok resp, t)
        → find_response (next_id e.mailbox) e.mailbox.responses ≡ none
        → length (raft_message ++ raft_encrypt c iv (resp_bytes resp)) < 2 ^ 31
        → message_handler p now open_client c iv
            (raft_message ++ raft_encrypt c iv0 (request_text r))
            e
          ≡ (
            ok (answered (some (raft_message ++ raft_encrypt c iv (resp_bytes resp)))),
            record e {
              raft = t;
              mailbox = kept (raft_message ++ raft_encrypt c iv (resp_bytes resp)) e.mailbox;
            },
          )
    unfolding message_handler handle_rpc_request message_type
    message_handler-request c iv0 iv r resp t e hc he hr ok_resp free short =
        rw (handle_raft_message-raft_encrypt c now iv0 iv r e.raft hc he hr) (
          rw ok_resp (
            hand_over-fetch (raft_message ++ raft_encrypt c iv (resp_bytes resp))
              (record e { raft = t }) free (omega arith) short))

    -- A well-formed request goes from one enclave, hidden, to the host of another, whose enclave
    -- processes it and gives back a response, which the first enclave hands to the handler that the
    -- request was sent with. The response is well-formed and its message shorter than 2 ^ 31, the cipher
    -- can be undone with blocks of its size, and the next ids are free on both sides. On the way the
    -- second enclave changes as its server does, and keeps the response; the first has the requests that
    -- wait that it had before.
    pub rpc_response-message_handler-send :
        (c : Cipher) (raw : ℕ → ℕ) (iv0 iv : List ℕ) (client : ℕ) (r : Req) (h : H) (resp : Resp)
        (s : Clients H) (e : Enclave H) (t : Server)
        → IsCipher c
        → length iv0 ≡ s_block_size
        → length iv ≡ s_block_size
        → IsReq r
        → IsResp resp
        → find_callback (next_uid s) s.callback_pool ≡ none
        → find_response (next_id e.mailbox) e.mailbox.responses ≡ none
        → length (raft_message ++ raft_encrypt c iv (resp_bytes resp)) < 2 ^ 31
        → process_req now (received r) e.raft ≡ (ok resp, t)
        → (s' : Clients H) × (m : List ℕ) × (a : List ℕ) × (send c raw iv0 client r h s ≡ ok s')
          × (s'.wire ≡ record { client = client; message = m; unique_id = next_uid s } ∷ s.wire)
          × (message_handler p now open_client c iv m e
              ≡ (ok (answered (some a)), record e { raft = t; mailbox = kept a e.mailbox }))
          × (rpc_response c raw (next_uid s) a false s'
              ≡ (ok (some (h, resp)), record s' { callback_pool = s.callback_pool }))
    rpc_response-message_handler-send c raw iv0 iv client r h resp s e t hc e0 e1 hr hp free
          kept_free short done =
        let (s', sent, wire, back) =
          rpc_response-send c raw iv0 iv client r h resp s hc e1 hr hp free in
        (
          s',
          raft_message ++ raft_encrypt c iv0 (request_text r),
          raft_message ++ raft_encrypt c iv (resp_bytes resp),
          sent,
          wire,
          message_handler-request c iv0 iv r resp t e hc e0 hr done kept_free short,
          back,
        )
