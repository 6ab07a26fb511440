-- ===== src/Port/Remote.antt =====
-- A request to another server, over the wire and back.
use enclave_raft.Prelude.{
  ℕ, ◌<◌, ◌≡◌, refl, ap, ◌∙◌, sym, Option, none, some, List, [], ◌++◌, map, length, length-append,
  take, drop, take-length_append, drop-length_append, splice, overlay-eq, append-nil, arith, Result,
  ok, err, fault, out_of_range, overflow_error, runtime_error, raft_exception, bad_function_call,
  invalid_argument, openssl_exception, le→ltb, drop_all,
}
use enclave_raft.Buffer.{Buffer, seek, max_size, fresh_bytes}
use enclave_raft.Buffer.Cursor.{cursor, alloc-cursor, length-fresh_bytes}
use enclave_raft.Entry.RoundTrip.{rewound}
use enclave_raft.Messages.{Req, Resp, deserialize_req, serialize_resp}
use enclave_raft.Messages.RoundTrip.{resp_bytes, serialize_resp_lem}
use enclave_raft.Messages.Requests.{
  IsReq, header_bytes, log_bytes, length-header_bytes, size-header_bytes,
  deserialize_req-serialize_req,
}
use enclave_raft.Server.State.{Server}
use enclave_raft.Server.Monad.{M, ◌>>=◌, continue, gets, lift, pure}
use enclave_raft.Server.Public.{process_req}
use enclave_raft.Port.Crypto.{
  Cipher, IsCipher, s_block_size, raft_encrypt, raft_decrypt-raft_encrypt,
}
use enclave_raft.Port.Listener.{
  block_of, raft_message, caught, attempt, answer_req, handle_raft_message,
}

pub overlay_all : (src dst : List ℕ) → length dst ≡ length src → splice 0 src dst ≡ src
overlay_all src dst h =
    overlay-eq src dst (omega arith)
    ∙ ap (λ (l : List ℕ). src ++ l) (drop_all (length src) dst (omega arith))
    ∙ append-nil src

block_of_lem :
    (raw : ℕ → ℕ) (n : ℕ) (front rest : List ℕ)
    → length front ≡ n
    → n < max_size
    → block_of raw n (front ++ rest) ≡ ok (cursor [] front)
unfolding block_of
block_of_lem raw n front rest e h =
    rw (alloc-cursor raw n h, block_of)
      (rw (le→ltb (length (front ++ rest)) n (omega (arith, e, length-append front rest))) (
        rw first (
          ap (λ (l : List ℕ). ok (cursor [] l))
            (overlay_all front (fresh_bytes raw 0 n) (length-fresh_bytes raw 0 n ∙ sym e)))))
  where
    first : take n (front ++ rest) ≡ front
    first = ap (λ (k : ℕ). take k (front ++ rest)) (sym e) ∙ take-length_append front rest

-- What a server answers a request that it has read, by what its handler makes of it: the response,
-- hidden, behind the type of the message; no response after an exception.
abbrev pub served : Cipher → List ℕ → Result Resp × Server → Result (Option (List ℕ)) × Server
served c iv (ok resp, t) = (ok (some (raft_message ++ raft_encrypt c iv (resp_bytes resp))), t)
served c iv (err fault, t) = (err fault, t)
served c iv (err _, t) = (ok none, t)

-- What `send` puts on the wire of a request.
abbrev pub request_text : Req → List ℕ
request_text r = header_bytes r ++ log_bytes r

-- The request as the other server reads it: its entries' buffers are at their start.
abbrev pub received : Req → Req
received r = record r { log_entries = map rewound r.log_entries }

-- What follows the handler in `answer_req`.
abbrev respond : Cipher → List ℕ → Resp → M (Option (List ℕ))
respond c iv resp = do
  t ← gets (λ s. s)
  buf ← lift (serialize_resp t.fresh resp)
  pure (some (raft_message ++ raft_encrypt c iv buf.bytes))

respond_lem :
    (c : Cipher) (iv : List ℕ) (x : Result Resp) (t : Server)
    → let (r, u) = continue (respond c iv) x t in (caught r, u) ≡ served c iv (x, t)
respond_lem c iv (ok resp) t = rw (serialize_resp_lem t.fresh resp) refl
respond_lem c iv (err out_of_range) t = refl
respond_lem c iv (err overflow_error) t = refl
respond_lem c iv (err runtime_error) t = refl
respond_lem c iv (err raft_exception) t = refl
respond_lem c iv (err bad_function_call) t = refl
respond_lem c iv (err invalid_argument) t = refl
respond_lem c iv (err openssl_exception) t = refl
respond_lem c iv (err fault) t = refl

answer_req_lem :
    (c : Cipher) (now : ℕ) (iv : List ℕ) (header log_data : Buffer) (r : Req) (s : Server)
    → deserialize_req s.fresh header log_data ≡ ok r
    → attempt (answer_req c now iv header log_data) s ≡ served c iv (process_req now r s)
answer_req_lem c now iv header log_data r s h =
    ap (λ (x : Result (Option (List ℕ)) × Server). (caught x.0, x.1)) processed
    ∙ respond_lem c iv (process_req now r s).0 (process_req now r s).1
  where
    processed :
        answer_req c now iv header log_data s
        ≡ continue (respond c iv) (process_req now r s).0 (process_req now r s).1
    processed = unfold answer_req in rw h refl

-- A well-formed request that was hidden by a cipher that can be undone, with a block of its size, is
-- answered by the other server exactly as if it had been handed to `process_req` itself.
pub handle_raft_message-raft_encrypt :
    (c : Cipher) (now : ℕ) (iv0 iv : List ℕ) (r : Req) (s : Server)
    → IsCipher c
    → length iv0 ≡ s_block_size
    → IsReq r
    → handle_raft_message c now iv (raft_encrypt c iv0 (request_text r)) s
      ≡ served c iv (process_req now (received r) s)
unfolding handle_raft_message
handle_raft_message-raft_encrypt c now iv0 iv r s h e k =
    rw (raft_decrypt-raft_encrypt c iv0 (request_text r) h e) (
      rw
        (block_of_lem s.fresh 45 (header_bytes r) (log_bytes r) (length-header_bytes r)
          (omega arith))
        (rw (size-header_bytes r k) (
          rw entries (
            answer_req_lem c now iv
              (record { bytes = header_bytes r; pos = length (header_bytes r) })
              (cursor [] (log_bytes r)) (received r) s
              (unfold deserialize_req seek in (deserialize_req-serialize_req s.fresh r k).2)))))
  where
    behind : drop 45 (request_text r) ≡ log_bytes r
    behind =
        ap (λ (n : ℕ). drop n (request_text r)) (sym (length-header_bytes r))
        ∙ drop-length_append (header_bytes r) (log_bytes r)

    entries :
        block_of s.fresh (length (log_bytes r)) (drop 45 (request_text r))
        ≡ ok (cursor [] (log_bytes r))
    entries =
        ap (block_of s.fresh (length (log_bytes r))) (behind ∙ sym (append-nil (log_bytes r)))
        ∙ block_of_lem s.fresh (length (log_bytes r)) (log_bytes r) [] refl (omega (arith, k.fits))
