-- ===== src/Port/Responses.antt =====
-- raft_enclave/port/rpc_client_port.cxx: every response that the host hands to an enclave.
use enclave_raft.Prelude.{ℕ, Bool, Option, none, List, [], ◌==◌, if◌then◌else◌, drop}
use enclave_raft.Messages.{Resp}
use enclave_raft.Port.Crypto.{Cipher}
use enclave_raft.Port.Client.{take_response, message_type}
use enclave_raft.Enclave.{Entry, ◌>>=◌, ◌>>◌, pure, lift}
use enclave_raft.Keys.Report.{Platform}
use enclave_raft.Keys.Store.{handle_key_xchg_resp}
use enclave_raft.Port.Requests.{type_of}

module _ {X509 J H : Type 0} (p : Platform X509 J) (now : ℕ) (open_client : List ℕ → ℕ) where
  -- The handler that is called with a response, if one is.
  unfoldable pub raft_response : Cipher → ℕ → List ℕ → Entry H (Option (H × Resp))
  unfolding take_response
  raft_response c uid text e =
      let (r, clients) = take_response c e.raft.fresh uid text e.clients in
      (r, record e { clients = clients })

  unfoldable pub handle_system_resp : ℕ → List ℕ → Entry H (Option (H × Resp))
  unfolding handle_key_xchg_resp
  handle_system_resp type text =
      if type == 8 then (handle_key_xchg_resp p now open_client text [] >> pure none) else pure none

  -- `ecall_rpc_response`
  unfoldable pub handle_rpc_response : Cipher → ℕ → List ℕ → Bool → Entry H (Option (H × Resp))
  unfolding raft_response handle_system_resp message_type
  handle_rpc_response c uid message failed =
      if failed
      then pure none
      else lift (type_of (message_type message)) >>= λ type.
          (if type == 255
            then raft_response c uid (drop 2 message)
            else handle_system_resp type (drop 2 message))
