-- ===== src/Port/Client/Answers.antt =====
-- The response to a request comes back to the handler that the request was sent with.
use enclave_raft.Prelude.{
  ℕ, ◌+◌, ◌%◌, ◌^◌, ◌<◌, ◌≡◌, refl, ap, ◌∙◌, false, none, some, List, [], ◌∷◌, ◌++◌, length, splice,
  append-nil, overlay-eq, drop_all, arith, ok, le→ltb,
}
use enclave_raft.Buffer.{fresh_bytes}
use enclave_raft.Buffer.Cursor.{cursor, alloc-cursor, length-fresh_bytes}
use enclave_raft.Messages.{Req, Resp, deserialize_resp}
use enclave_raft.Messages.RoundTrip.{
  IsNamed, resp_bytes, length-resp_bytes, serialize_resp_lem, deserialize_resp-serialize_resp,
}
use enclave_raft.Messages.Requests.{IsReq, header_bytes, log_bytes, serialize_req_lem}
use enclave_raft.Port.Crypto.{
  Cipher, IsCipher, s_block_size, raft_encrypt, raft_decrypt-raft_encrypt,
}
use enclave_raft.Port.Listener.{raft_message}
use enclave_raft.Port.Client.{
  Sent, Clients, find_callback, set_callback, erase_callback, send, resp_buffer, call_back,
  take_response, rpc_response, message_type,
}

-- Numbers of 64 bits, ids of 32 and a type that has a name.
pub record IsResp (r : Resp) : Type 0 where
  pub named : IsNamed r.type
  pub src_word : r.src < 2 ^ 32
  pub dst_word : r.dst < 2 ^ 32
  pub term_word : r.term < 2 ^ 64
  pub next_idx_word : r.next_idx < 2 ^ 64

resp_buffer_lem :
    (raw : ℕ → ℕ) (r : Resp) → resp_buffer raw (resp_bytes r) ≡ ok (cursor [] (resp_bytes r))
unfolding resp_buffer
resp_buffer_lem raw r = rw (alloc-cursor raw 26 (omega arith)) (
    rw
      (le→ltb (length (fresh_bytes raw 0 26)) (length (resp_bytes r))
        (omega (arith, length-fresh_bytes raw 0 26, length-resp_bytes r)))
      (ap (λ (l : List ℕ). ok (cursor [] l)) filled))
  where
    filled : splice 0 (resp_bytes r) (fresh_bytes raw 0 26) ≡ resp_bytes r
    filled =
        overlay-eq (resp_bytes r) (fresh_bytes raw 0 26)
          (omega (arith, length-fresh_bytes raw 0 26, length-resp_bytes r))
        ∙ ap (λ (l : List ℕ). resp_bytes r ++ l)
            (drop_all (length (resp_bytes r)) (fresh_bytes raw 0 26)
              (omega (arith, length-fresh_bytes raw 0 26, length-resp_bytes r)))
        ∙ append-nil (resp_bytes r)

deserialize_resp_lem : (r : Resp) → IsResp r → deserialize_resp (cursor [] (resp_bytes r)) ≡ ok r
deserialize_resp_lem r h = rw (serialize_resp_lem (λ i. i) r) at (
    deserialize_resp-serialize_resp (λ i. i) r h.named h.src_word h.dst_word h.term_word
      h.next_idx_word)

module _ {H : Type 0} where
  find_callback-set_callback :
      (k : ℕ) (x : Req × H) (cs : List (ℕ × (Req × H)))
      → find_callback k (set_callback k x cs) ≡ some x
  unfolding find_callback set_callback
  find_callback-set_callback k x [] = ground arith
  find_callback-set_callback k x ((j, y) ∷ cs) = ground (arith, find_callback-set_callback k x cs)

  erase_callback-set_callback :
      (k : ℕ) (x : Req × H) (cs : List (ℕ × (Req × H)))
      → find_callback k cs ≡ none
      → erase_callback k (set_callback k x cs) ≡ cs
  unfolding find_callback set_callback erase_callback
  erase_callback-set_callback k x [] h = ground arith
  erase_callback-set_callback k x ((j, y) ∷ cs) h =
      ground (arith, erase_callback-set_callback k x cs)

  -- What is sent of a request, and the clients after it.
  abbrev pub next_uid : Clients H → ℕ
  next_uid s = (s.last_req_uid + 1) % 2 ^ 32

  abbrev pub sent_of : Cipher → List ℕ → ℕ → Req → Clients H → Sent
  sent_of c iv client r s = record {
    client = client;
    message = raft_message ++ raft_encrypt c iv (header_bytes r ++ log_bytes r);
    unique_id = next_uid s;
  }

  -- A well-formed request is sent under the next id, hidden. If no request of that id waits, then the
  -- well-formed response to it, hidden by a cipher that can be undone with a block of its size, is
  -- what the handler of this request is called with, and no other; and the pool is what it was before.
  pub rpc_response-send :
      (c : Cipher) (raw : ℕ → ℕ) (iv0 iv : List ℕ) (client : ℕ) (r : Req) (h : H) (resp : Resp)
      (s : Clients H)
      → IsCipher c
      → length iv ≡ s_block_size
      → IsReq r
      → IsResp resp
      → find_callback (next_uid s) s.callback_pool ≡ none
      → (t : Clients H) × (send c raw iv0 client r h s ≡ ok t)
        × (t.wire ≡ sent_of c iv0 client r s ∷ s.wire)
        × (rpc_response c raw
              (next_uid s)
              (raft_message ++ raft_encrypt c iv (resp_bytes resp))
              false
              t
            ≡ (ok (some (h, resp)), record t { callback_pool = s.callback_pool }))
  unfolding send
  rpc_response-send c raw iv0 iv client r h resp s hc e hr hp free =
      (t, rw (serialize_req_lem raw r hr) refl, refl, answered)
    where
      pool : List (ℕ × (Req × H))
      pool = set_callback (next_uid s) (r, h) s.callback_pool

      t : Clients H
      t = record {
        last_req_uid = next_uid s;
        callback_pool = pool;
        wire = sent_of c iv0 client r s ∷ s.wire;
      }

      answered :
          rpc_response c raw
            (next_uid s)
            (raft_message ++ raft_encrypt c iv (resp_bytes resp))
            false
            t
          ≡ (ok (some (h, resp)), record t { callback_pool = s.callback_pool })
      answered =
          unfold rpc_response message_type take_response call_back in
          rw (raft_decrypt-raft_encrypt c iv (resp_bytes resp) hc e) (
            rw (resp_buffer_lem raw resp) (
              rw (deserialize_resp_lem resp hp) (
                rw (find_callback-set_callback (next_uid s) (r, h) s.callback_pool) (
                  rw (erase_callback-set_callback (next_uid s) (r, h) s.callback_pool free) refl))))
