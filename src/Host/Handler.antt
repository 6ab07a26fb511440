-- ===== src/Host/Handler.antt =====
-- raft_app/port/asio_rpc_listener.cxx: what the host does with a message that comes over a connection.
pub mod Exchange
use enclave_raft.Prelude.{
  ℕ, zero, suc, Bool, true, false, ◌||◌, Option, none, some, List, [], ◌∷◌, ltb, leb, ◌==◌, ◌^◌,
  if◌then◌else◌, Result, ok, err, length,
}
use enclave_raft.Port.Crypto.{Cipher}
use enclave_raft.Port.Listener.{fetch_response}
use enclave_raft.Enclave.{Enclave, Entry, ◌>>=◌, ◌>>◌, pure, lift, get}
use enclave_raft.Keys.Report.{Platform}
use enclave_raft.Port.Requests.{Returned, returned, blocked, handle_rpc_request}

-- A response or none, or the call into the enclave does not return yet.
pub data Answer : Type 0 where
  answered : Option (List ℕ) → Answer
  waiting : ℕ → Answer

unfoldable pub zero_bytes : ℕ → List ℕ
zero_bytes zero = []
zero_bytes (suc n) = 0 ∷ zero_bytes n

module _ {H : Type 0} where
  -- The response is fetched into a buffer of its size; an id that was not set is below every other.
  unfoldable pub fetch_answer : Returned → Entry H Answer
  unfolding fetch_response zero_bytes
  fetch_answer (blocked type) = pure (waiting type)
  fetch_answer (returned size none) = pure (answered none)
  fetch_answer (returned size (some id)) = do
    e ← get
    if size == 0 || leb (2 ^ 31) size
        then pure (answered none)
        else pure (answered (fetch_response id (zero_bytes size) e.mailbox))

  module _ {X509 J : Type 0} (p : Platform X509 J) (now : ℕ) (open_client : List ℕ → ℕ) where
    unfoldable pub message_handler : Cipher → List ℕ → List ℕ → Entry H Answer
    unfolding handle_rpc_request fetch_answer
    message_handler c iv message =
        handle_rpc_request p now open_client c iv message >>= fetch_answer
