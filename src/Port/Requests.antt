-- ===== src/Port/Requests.antt =====
-- raft_enclave/port/rpc_listener_port.cxx: every message that the host hands to an enclave. A request of
-- a client may have to wait for the leader's answer.
use enclave_raft.Prelude.{
  ℕ, ◌%◌, ◌^◌, Bool, true, false, Option, none, some, List, [], ◌∷◌, ◌==◌, ◌||◌, if◌then◌else◌,
  drop, Result, ok, err, fault, codes,
}
use enclave_raft.AsyncResult
use enclave_raft.AsyncResult.{AsyncResult}
use enclave_raft.Server.Leader
use enclave_raft.Json.{Json}
use enclave_raft.Port.Crypto.{Cipher}
use enclave_raft.Port.Listener.{handle_raft_message, keep_response}
use enclave_raft.Port.Client.{message_type}
use enclave_raft.Port.Logs.{log_buffers}
use enclave_raft.Enclave.{Entry, ◌>>=◌, ◌>>◌, pure, lift, get, modify, on_raft}
use enclave_raft.Keys.CText.{c_str}
use enclave_raft.Keys.Report.{Platform}
use enclave_raft.Keys.Store.{build_key_xchg_req, receive_report}

-- What a handler makes of a request: a response or none, or a wait for the leader, whose answer will be
-- told under the type.
pub data Reply : Type 0 where
  replied : Option (List ℕ) → Reply
  awaits : ℕ → Reply

-- What the call returns: the size, or -1, and the id if it is set; or it does not return yet.
pub data Returned : Type 0 where
  returned : ℕ → Option ℕ → Returned
  blocked : ℕ → Returned

-- The two bytes of a type.
abbrev pub with_type : ℕ → List ℕ → List ℕ
with_type type text = type ∷ (0 ∷ text)

abbrev pub type_of : Option ℕ → Result ℕ
type_of none = err fault
type_of (some t) = ok t

abbrev pub is_client : ℕ → Bool
is_client t = t == 1 || (t == 3 || t == 5)

abbrev pub is_system : ℕ → Bool
is_system t = t == 7 || t == 9

module _ {H : Type 0} where
  -- What `get` of a result tells.
  abbrev pub told : (Bool → List ℕ) → ℕ → Option (Result Bool) → Entry H Reply
  told response type none = pure (awaits type)
  told response type (some (ok b)) = pure (replied (some (response b)))
  told response type (some (err x)) = lift (err x)

  -- The end of `ecall_handle_rpc_request`: a response is kept for the host.
  unfoldable pub hand_over : Reply → Entry H Returned
  unfolding keep_response
  hand_over (awaits type) = pure (blocked type)
  hand_over (replied response) = do
    e ← get
    let (size, id, m) = keep_response response e.mailbox
    modify (λ e. record e { mailbox = m })
    pure (returned size (some id))

-- The answer to a client.
abbrev pub success_response : {J : Type 0} → Json J → ℕ → Bool → List ℕ
success_response json type result =
    with_type type
      (json.dump (json.object ((codes "success", json.of_int (if result then 1 else 0)) ∷ [])))

module _ {X509 J H : Type 0} (p : Platform X509 J) (now : ℕ) (open_client : List ℕ → ℕ) where
  unfoldable pub add_server : J → Entry H Reply
  unfolding build_key_xchg_req
  add_server body =
      build_key_xchg_req p now open_client
        (p.json.int_value (p.json.member (codes "server_id") body))
        (p.json.string_value (p.json.member (codes "endpoint") body))
      >> pure (replied (some (success_response p.json 2 true)))

  unfoldable pub remove_server : J → Entry H Reply
  remove_server body = do
    let id = p.json.int_value (p.json.member (codes "server_id") body) % 2 ^ 16
    result ← on_raft (Leader.remove_srv {H = H} false now id)
    told (success_response p.json 4) 4 (AsyncResult.get result)

  unfoldable pub append_logs : J → Entry H Reply
  unfolding log_buffers
  append_logs body = do
    e ← get
    logs ← lift (log_buffers p.json p.base64 e.raft.fresh (p.json.array_items body))
    result ← on_raft (Leader.append_entries {H = H} false now logs)
    told (success_response p.json 6) 6 (AsyncResult.get result)

  -- A text that is no JSON is only logged: its value is null.
  unfoldable pub handle_client_request : ℕ → List ℕ → Entry H Reply
  unfolding add_server remove_server append_logs
  handle_client_request type payload =
      let body = (p.json.parse payload).0 in
      if type == 1
      then add_server body
      else if type == 3
      then remove_server body
      else if type == 5
      then append_logs body
      else pure (replied none)

  -- The own report for one that was accepted. A refused one leaves a null pointer, which is written to.
  abbrev pub own_report : Bool → Entry H Reply
  own_report false = lift (err fault)
  own_report true = do
    e ← get
    pure (
        replied (
          some (
            with_type 8 (
              p.json.dump (
                p.json.object (
                  (codes "server_id", p.json.of_int e.raft.id)
                  ∷ ((codes "report", p.json.of_string e.keys.self_report) ∷ [])))))))

  unfoldable pub handle_system_request : ℕ → List ℕ → Entry H Reply
  unfolding receive_report c_str
  handle_system_request type payload =
      let body = (p.json.parse payload).0 in
      if type == 7
      then (receive_report p (p.json.int_value (p.json.member (codes "server_id") body))
            (c_str (p.json.string_value (p.json.member (codes "report") body)))
          >>= own_report)
      else pure (replied none)

  abbrev pub raft_reply : Cipher → List ℕ → List ℕ → Entry H Reply
  raft_reply c iv text = do
    response ← on_raft (handle_raft_message c now iv text)
    pure (replied response)

  -- `ecall_handle_rpc_request`. An unexpected type returns -1 and sets no id.
  unfoldable pub handle_rpc_request : Cipher → List ℕ → List ℕ → Entry H Returned
  unfolding message_type handle_client_request handle_system_request handle_raft_message hand_over
  handle_rpc_request c iv message = do
    type ← lift (type_of (message_type message))
    let text = drop 2 message
    if is_client type
        then handle_client_request type text >>= hand_over
        else if is_system type
        then handle_system_request type text >>= hand_over
        else if type == 255
        then raft_reply c iv text >>= hand_over
        else pure (returned 0xffff_ffff none)
