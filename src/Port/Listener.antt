-- ===== src/Port/Listener.antt =====
-- raft_enclave/port/rpc_listener_port.cxx: a message of another server, up to its response, and the
-- responses that the host fetches. The requests of clients and of the key exchange, which are texts in
-- JSON, are not modelled.
use enclave_raft.Prelude.{
  ℕ, ◌+◌, ◌-◌, ◌%◌, ◌^◌, Option, none, some, List, [], ◌∷◌, ◌++◌, ltb, ◌==◌, if◌then◌else◌, length,
  take, drop, splice, Result, ok, err, fault,
}
use enclave_raft.Buffer.{Buffer, alloc, seek, get_int}
use enclave_raft.Messages.{rpc_req_header_size, deserialize_req, serialize_resp}
use enclave_raft.Server.Monad.{M, ◌>>=◌, pure, lift, gets}
use enclave_raft.Server.Public.{process_req}
use enclave_raft.Port.Crypto.{Cipher, raft_encrypt, raft_decrypt}

-- A fresh buffer with the first `n` bytes of `src` copied into it; the copy has no check of `src`.
unfoldable pub block_of : (ℕ → ℕ) → ℕ → List ℕ → Result Buffer
block_of raw n src = elim (alloc raw n) [
  | err e ↦ err e
  | ok b ↦
      if ltb (length src) n
      then err fault
      else ok (record b { bytes = splice 0 (take n src) b.bytes })
]

-- The type of the messages between servers, as two bytes.
abbrev pub raft_message : List ℕ
raft_message = 255 ∷ 0 ∷ []

-- `catch (std::exception &)`: an exception ends the message without a response.
abbrev pub caught : Result (Option (List ℕ)) → Result (Option (List ℕ))
caught (ok resp) = ok resp
caught (err fault) = err fault
caught (err _) = ok none

abbrev pub attempt : M (Option (List ℕ)) → M (Option (List ℕ))
attempt m s = let (r, t) = m s in (caught r, t)

-- The part under `try`: the request is processed and its response hidden, with the block `iv`.
unfoldable pub answer_req : Cipher → ℕ → List ℕ → Buffer → Buffer → M (Option (List ℕ))
answer_req c now iv header log_data = do
  s ← gets (λ s. s)
  req ← lift (deserialize_req s.fresh header log_data)
  resp ← process_req now req
  t ← gets (λ s. s)
  buf ← lift (serialize_resp t.fresh resp)
  pure (some (raft_message ++ raft_encrypt c iv buf.bytes))

-- `handle_raft_message`: the size of the entries is the last number of the header.
unfoldable pub handle_raft_message : Cipher → ℕ → List ℕ → List ℕ → M (Option (List ℕ))
unfolding answer_req block_of
handle_raft_message c now iv msg = do
  s ← gets (λ s. s)
  text ← lift (raft_decrypt c msg)
  header ← lift (block_of s.fresh rpc_req_header_size text)
  size_read ← lift (get_int (seek (rpc_req_header_size - 4) header))
  log_data ← lift (block_of s.fresh size_read.0 (drop rpc_req_header_size text))
  attempt (answer_req c now iv size_read.1 log_data)

-- The responses that wait for the host, by the id of their message.
pub record Mailbox : Type 0 where
  pub id_counter : ℕ
  pub responses : List (ℕ × List ℕ)

unfoldable pub find_response : ℕ → List (ℕ × List ℕ) → Option (List ℕ)
find_response k [] = none
find_response k ((j, r) ∷ rs) = if j == k then some r else find_response k rs

-- `emplace` keeps what stands under the id.
unfoldable pub emplace : ℕ → List ℕ → List (ℕ × List ℕ) → List (ℕ × List ℕ)
unfolding find_response
emplace k r rs = elim (find_response k rs) [ some old ↦ rs | none ↦ (k, r) ∷ rs ]

-- The end of `ecall_handle_rpc_request`: the size, or -1, as the bit pattern of an `int32`, and the id.
unfoldable pub keep_response : Option (List ℕ) → Mailbox → ℕ × ℕ × Mailbox
unfolding emplace
keep_response none m = (0xffff_ffff, 0, m)
keep_response (some r) m =
    let id = (m.id_counter + 1) % 2 ^ 32 in
    (length r % 2 ^ 32, id, record { id_counter = id; responses = emplace id r m.responses })

-- What a copy that does not fit leaves of the buffer.
abbrev pub zeros : List ℕ → List ℕ
zeros [] = []
zeros (x ∷ xs) = 0 ∷ zeros xs

-- `ecall_fetch_rpc_response`: the buffer that is filled; the response stays.
unfoldable pub fetch_response : ℕ → List ℕ → Mailbox → Option (List ℕ)
unfolding find_response
fetch_response id buffer m = elim (find_response id m.responses) [
  | none ↦ none
  | some r ↦ some (if ltb (length buffer) (length r) then zeros buffer else splice 0 r buffer)
]
