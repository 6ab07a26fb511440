-- ===== src/Keys/Store.antt =====
-- raft_enclave/system/key_store.hxx: keys are exchanged with a server before it is added. The clients
-- of the exchange are raft_enclave/port/rpc_client_port.hxx.
pub mod Attested
use enclave_raft.Prelude.{
  ℕ, ◌+◌, ◌%◌, ◌^◌, Bool, true, false, Option, none, some, List, [], ◌∷◌, ◌++◌, if◌then◌else◌, take,
  Result, ok, err, fault, runtime_error, codes,
}
use enclave_raft.Config.{SrvConfig}
use enclave_raft.Server.State.{Server}
use enclave_raft.Server.Leader
use enclave_raft.Json.{Json}
use enclave_raft.Port.Client.{Clients, Sent, erase_callback}
use enclave_raft.Enclave.{
  TempConnection, KeyStore, Enclave, Entry, ◌>>=◌, ◌>>◌, pure, lift, get, modify, on_raft, find_id,
  set_id, erase_id,
}
use enclave_raft.Keys.CText.{c_str}
use enclave_raft.Keys.Certs.{is_empty}
use enclave_raft.Keys.Report.{Platform, bytes_eq, validate_verification_report}

-- `sizeof(sgx_ec256_public_t)`
abbrev pub public_size : ℕ
public_size = 64

abbrev pub with_store : List (ℕ × List ℕ) → KeyStore → KeyStore
with_store m k = record k { store = m }

abbrev pub with_report : List ℕ → KeyStore → KeyStore
with_report packet k = record k { self_report = packet }

abbrev pub with_temp : List (ℕ × TempConnection) → KeyStore → KeyStore
with_temp m k = record k { temp_connections = m }

-- The key that a quote carries.
abbrev pub key_of : {X509 J : Type 0} → Platform X509 J → List ℕ → List ℕ
key_of p quote = take public_size (p.report_data quote)

module _ {X509 J H : Type 0} (p : Platform X509 J) where
  -- The report on the enclave itself is kept if it carries the own public key.
  abbrev pub keep_report : List ℕ → Option (List ℕ) → Entry H Bool
  keep_report packet none = pure false
  keep_report packet (some q) = do
    e ← get
    if bytes_eq (key_of p q) e.keys.self_public
        then modify (λ e. record e { keys = with_report packet e.keys }) >> pure true
        else pure false

  unfoldable pub register_report : List ℕ → Entry H Bool
  unfolding validate_verification_report bytes_eq
  register_report packet = do
    e ← get
    if is_empty e.keys.self_report
        then lift (validate_verification_report p packet) >>= keep_report packet
        else lift (err runtime_error)

  -- The key of an accepted report is kept.
  abbrev pub keep_key : ℕ → Option (List ℕ) → Entry H Bool
  keep_key id none = pure false
  keep_key id (some q) =
      modify (λ e. record e { keys = with_store (set_id id (key_of p q) e.keys.store) e.keys })
      >> pure true

  unfoldable pub receive_report : ℕ → List ℕ → Entry H Bool
  unfolding validate_verification_report set_id
  receive_report id packet = lift (validate_verification_report p packet) >>= keep_key id

  -- `add_srv`; what it returns is dropped.
  -- `open_client` is `ocall_rpc_client_create`: the host's name for a new client.
  module _ (now : ℕ) (open_client : List ℕ → ℕ) where
    abbrev pub add_to_cluster : ℕ → List ℕ → Entry H (Unit {0})
    add_to_cluster id endpoint =
        on_raft (Leader.add_srv {H = H} false now (record { id = id; endpoint = endpoint }))
        >> pure tt

    -- `RpcClientPort::send_xchg_request`
    unfoldable pub send_xchg_request : ℕ → ℕ → List ℕ → Entry H (Unit {0})
    send_xchg_request client my_id my_report = modify λ e.
        let uid = (e.clients.last_req_uid + 1) % 2 ^ 32 in
        let body = p.json.dump (
          p.json.object (
            (codes "server_id", p.json.of_int my_id)
            ∷ ((codes "report", p.json.of_string my_report) ∷ []))) in
        record e {
          clients = record e.clients {
            last_req_uid = uid;
            wire =
                record { client = client; message = 7 ∷ (0 ∷ body); unique_id = uid }
                ∷ e.clients.wire;
          };
        }

    abbrev pub connect_to : ℕ → ℕ → List ℕ → Entry H (Unit {0})
    connect_to id client endpoint = modify λ e. record e {
      keys =
          with_temp
            (set_id id (record { client = client; endpoint = endpoint }) e.keys.temp_connections)
            e.keys;
    }

    -- A server whose key is known is added; one that is not is asked for its report, once.
    abbrev pub exchange_with :
        ℕ → List ℕ → Option (List ℕ) → Option TempConnection → Entry H (Unit {0})
    exchange_with id endpoint (some key) c = add_to_cluster id endpoint
    exchange_with id endpoint none (some c) = connect_to id c.client endpoint
    exchange_with id endpoint none none = do
      e ← get
      connect_to id (open_client endpoint) endpoint
      send_xchg_request (open_client endpoint) e.raft.id e.keys.self_report

    unfoldable pub build_key_xchg_req : ℕ → List ℕ → Entry H (Unit {0})
    unfolding send_xchg_request find_id set_id
    build_key_xchg_req id endpoint = do
      e ← get
      exchange_with id endpoint (find_id id e.keys.store) (find_id id e.keys.temp_connections)

    -- The client goes away with its connection: its destructor looks its own id up in the pool.
    unfoldable pub drop_connection : ℕ → TempConnection → Entry H (Unit {0})
    unfolding erase_id erase_callback
    drop_connection id c = modify λ e. record e {
      keys = with_temp (erase_id id e.keys.temp_connections) e.keys;
      clients = record e.clients {
        callback_pool = erase_callback c.client e.clients.callback_pool;
      };
      closed = c.client ∷ e.closed;
    }

    abbrev pub finish_with : ℕ → Bool → Option TempConnection → Entry H (Unit {0})
    finish_with id accepted none = lift (err fault)
    finish_with id true (some c) = drop_connection id c >> add_to_cluster id c.endpoint
    finish_with id false (some c) = drop_connection id c

    unfoldable pub finish_exchange : ℕ → Bool → Entry H (Unit {0})
    unfolding drop_connection find_id
    finish_exchange id accepted = do
      e ← get
      finish_with id accepted (find_id id e.keys.temp_connections)

    -- The server that answers says who it is.
    abbrev pub answer_of : J → Entry H (Unit {0})
    answer_of rsp =
        let id = p.json.int_value (p.json.member (codes "server_id") rsp) in
        let report = p.json.string_value (p.json.member (codes "report") rsp) in
        receive_report id (c_str report) >>= finish_exchange id

    unfoldable pub handle_key_xchg_resp : List ℕ → List ℕ → Entry H (Unit {0})
    unfolding receive_report finish_exchange c_str
    handle_key_xchg_resp payload exception =
        if is_empty exception
        then (if (p.json.parse payload).1 then pure tt else answer_of (p.json.parse payload).0)
        else pure tt
