-- ===== src/Port/Logs.antt =====
-- raft_enclave/port/rpc_listener_port.cxx: the entries that a client sends, as buffers for the log.
use enclave_raft.Prelude.{ℕ, ◌+◌, List, [], ◌∷◌, length, splice, Result, ok, ◌>>=◌}
use enclave_raft.Buffer.{Buffer, alloc}
use enclave_raft.Json.{Json, Base64}
use enclave_raft.Port.Listener.{zeros}

-- The bytes of an entry, and eight zeros.
unfoldable pub log_buffer : (ℕ → ℕ) → List ℕ → Result Buffer
log_buffer raw log =
    alloc raw (length log + 8) >>= λ b. ok (record b { bytes = splice 0 log (zeros b.bytes) })

module _ {J : Type 0} (json : Json J) (base64 : Base64) (raw : ℕ → ℕ) where
  unfoldable pub log_buffers : List J → Result (List Buffer)
  unfolding log_buffer
  log_buffers [] = ok []
  log_buffers (item ∷ items) = base64 (json.string_value item) >>= log_buffer raw >>= λ b.
      log_buffers items >>= λ bs. ok (b ∷ bs)
