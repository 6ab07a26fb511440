-- ===== src/Port/Client.antt =====
-- raft_enclave/port/rpc_client_port.hxx and rpc_client_port.cxx: requests to other servers, and their
-- responses. A number names a client of the host; `H` is what names a handler. The responses of the
-- key exchange leave the pool alone.
pub mod Answers
use enclave_raft.Prelude.{
  ℕ, ◌+◌, ◌*◌, ◌%◌, ◌^◌, Bool, true, false, ◌&&◌, Option, none, some, List, [], ◌∷◌, ◌++◌, ltb,
  ◌==◌, if◌then◌else◌, length, take, drop, splice, Result, Error, ok, err, fault, bad_function_call,
  ◌>>=◌,
}
use enclave_raft.Buffer.{Buffer, alloc}
use enclave_raft.Messages.{Req, Resp, rpc_resp_header_size, serialize_req, deserialize_resp}
use enclave_raft.Port.Crypto.{Cipher, raft_encrypt, raft_decrypt}
use enclave_raft.Port.Listener.{raft_message, zeros}

-- What the host is asked to send: the client, the message and the id of the request.
pub record Sent : Type 0 where
  pub client : ℕ
  pub message : List ℕ
  pub unique_id : ℕ

-- `callback_pool` is a map by the ids of requests; `wire` is what is sent, the latest first.
pub record Clients (H : Type 0) : Type 0 where
  pub last_req_uid : ℕ
  pub callback_pool : List (ℕ × (Req × H))
  pub wire : List Sent

-- The text of a response in a buffer of the header's size; one that is longer clears it.
unfoldable pub resp_buffer : (ℕ → ℕ) → List ℕ → Result Buffer
resp_buffer raw text = alloc raw rpc_resp_header_size >>= λ b. ok (record b {
  bytes = if ltb (length b.bytes) (length text) then zeros b.bytes else splice 0 text b.bytes;
})

-- The type of a message: its first two bytes. One that is shorter is read past its end.
unfoldable pub message_type : List ℕ → Option ℕ
message_type [] = none
message_type (x ∷ []) = none
message_type (x ∷ (y ∷ m)) = some (x + 256 * y)

module _ {H : Type 0} where
  unfoldable pub find_callback : ℕ → List (ℕ × (Req × H)) → Option (Req × H)
  find_callback k [] = none
  find_callback k ((j, c) ∷ cs) = if j == k then some c else find_callback k cs

  -- `pool[k] = c`
  unfoldable pub set_callback : ℕ → Req × H → List (ℕ × (Req × H)) → List (ℕ × (Req × H))
  set_callback k c [] = (k, c) ∷ []
  set_callback k c ((j, d) ∷ cs) = if j == k then (j, c) ∷ cs else (j, d) ∷ set_callback k c cs

  unfoldable pub erase_callback : ℕ → List (ℕ × (Req × H)) → List (ℕ × (Req × H))
  erase_callback k [] = []
  erase_callback k ((j, d) ∷ cs) = if j == k then cs else (j, d) ∷ erase_callback k cs

  -- `RpcClientPort::send`, with `raw_send`; `iv` is the random block.
  unfoldable pub send : Cipher → (ℕ → ℕ) → List ℕ → ℕ → Req → H → Clients H → Result (Clients H)
  unfolding set_callback
  send c raw iv client req when_done s = serialize_req raw req >>= λ buf.
      let uid = (s.last_req_uid + 1) % 2 ^ 32 in
      ok (record {
        last_req_uid = uid;
        callback_pool = set_callback uid (req, when_done) s.callback_pool;
        wire =
            record {
              client = client;
              message = raft_message ++ raft_encrypt c iv buf.bytes;
              unique_id = uid;
            }
            ∷ s.wire;
      })

  -- The handler that is called, with the response; a request that is not in the pool has none.
  unfoldable pub call_back : Option (Req × H) → Resp → Result (Option (H × Resp))
  call_back none resp = err bad_function_call
  call_back (some (req, when_done)) resp = ok (some (when_done, resp))

  -- `handle_raft_message`: the request leaves the pool first, whatever comes after.
  unfoldable pub take_response :
      Cipher → (ℕ → ℕ) → ℕ → List ℕ → Clients H → Result (Option (H × Resp)) × Clients H
  unfolding erase_callback find_callback resp_buffer call_back
  take_response c raw uid msg s = (
    raft_decrypt c msg
        >>= resp_buffer raw
        >>= deserialize_resp
        >>= call_back (find_callback uid s.callback_pool),
    record s { callback_pool = erase_callback uid s.callback_pool },
  )

  -- `ecall_rpc_response`: an exception of the host is noted, and no handler is called.
  unfoldable pub rpc_response :
      Cipher → (ℕ → ℕ) → ℕ → List ℕ → Bool → Clients H → Result (Option (H × Resp)) × Clients H
  unfolding take_response message_type
  rpc_response c raw uid msg failed s = if failed then (ok none, s) else elim (message_type msg) [
    | none ↦ (err fault, s)
    | some t ↦ if t == 255 then take_response c raw uid (drop 2 msg) s else (ok none, s)
  ]
