-- ===== src/Host/Client.antt =====
-- raft_app/port/asio_rpc_client.hxx: a connection of the host to another one, over which the requests of
-- its enclave go. What the socket and the resolver do is a sequence of events; a synchronous write is
-- part of the event that makes it, and the loop that reads a size is a phase.
pub mod Reported
use enclave_raft.Prelude.{
  ℕ, zero, suc, ◌+◌, ◌%◌, ◌^◌, Bool, true, false, ◌&&◌, Option, none, some, List, [], ◌∷◌, ◌++◌,
  leb, ◌==◌, if◌then◌else◌, length,
}
use enclave_raft.Buffer.{write_loop}
use enclave_raft.Enclave.{find_id, set_id, erase_id}
use enclave_raft.Host.Handler.{zero_bytes}

-- What a request waits for: the resolver, the connection, its write, the size and the rest of its
-- response.
pub data Wait : Type 0 where
  resolving connecting writing looping reading : Wait

-- A call of `ecall_rpc_response`: `none` is an exception.
pub record Report : Type 0 where
  pub request : ℕ
  pub response : Option (List ℕ)

-- `written` is what went into the socket, the latest first; `lost` are the requests whose handler ended
-- by an exception, or by a read through a null pointer, which may end the process.
pub record Client : Type 0 where
  pub is_open : Bool
  pub req_map : List (ℕ × List ℕ)
  pub resp_map : List (ℕ × List ℕ)
  pub pending : List (Wait × ℕ)
  pub written : List (List ℕ)
  pub reports : List Report
  pub lost : List ℕ

abbrev pub wait_code : Wait → ℕ
wait_code resolving = 0
wait_code connecting = 1
wait_code writing = 2
wait_code looping = 3
wait_code reading = 4

-- The operation is taken out, if it is under way.
unfoldable pub take_op : Wait → ℕ → List (Wait × ℕ) → Option (List (Wait × ℕ))
take_op w uid [] = none
take_op w uid ((v, k) ∷ ops) =
    if wait_code v == wait_code w && k == uid
    then some ops
    else elim (take_op w uid ops) [ none ↦ none | some rest ↦ some ((v, k) ∷ rest) ]

abbrev pub begin : Wait → ℕ → Client → Client
begin w uid c = record c { pending = (w, uid) ∷ c.pending }

abbrev pub report : ℕ → Option (List ℕ) → Client → Client
report uid response c = record c {
  reports = record { request = uid; response = response } ∷ c.reports;
}

unfoldable pub handle_error : ℕ → Client → Client
handle_error uid c = record (report uid none c) { is_open = false }

abbrev pub found : Option (List ℕ) → List ℕ
found none = []
found (some m) = m

-- The size is written at once, with success or not, and then the request. A request that is not in the
-- map would be a null pointer; `send` puts it there.
unfoldable pub send_message : ℕ → Bool → Client → Client
unfolding handle_error find_id
send_message uid false c = handle_error uid c
send_message uid true c =
    let m = found (find_id uid c.req_map) in
    begin writing uid (record c { written = (write_loop 4 0 (length m % 2 ^ 32) ++ m) ∷ c.written })

-- `size_written` is used only where the socket is open.
unfoldable pub send : ℕ → List ℕ → Bool → Client → Client
unfolding send_message set_id
send uid message size_written c =
    let d : Client = record c { req_map = set_id uid message c.req_map } in
    if c.is_open then send_message uid size_written d else begin resolving uid d

-- What the socket and the resolver report; a response that was read comes with whether the socket can
-- still name both of its ends.
pub data Event : Type 0 where
  sent : ℕ → List ℕ → Bool → Event
  resolved : ℕ → Bool → Event
  connected : ℕ → Bool → Bool → Event
  request_written : ℕ → Bool → Event
  size_at_end : ℕ → Event
  size_failed : ℕ → Event
  size_read : ℕ → ℕ → Event
  response_read : ℕ → List ℕ → Bool → Event
  response_failed : ℕ → Event

-- The connection opens the socket before it is made.
abbrev pub on_resolved : ℕ → Bool → Client → Client
on_resolved uid true c = begin connecting uid (record c { is_open = true })
on_resolved uid false c = handle_error uid c

abbrev pub on_connected : ℕ → Bool → Bool → Client → Client
on_connected uid true size_written c = send_message uid size_written c
on_connected uid false size_written c = handle_error uid c

-- `request_sent`
abbrev pub on_written : ℕ → Bool → Client → Client
on_written uid true c = begin looping uid c
on_written uid false c = handle_error uid c

-- The end of `recv_message`. A negative size is an exception of the vector.
unfoldable pub on_size : ℕ → ℕ → Client → Client
unfolding zero_bytes set_id
on_size uid n c =
    if leb (2 ^ 31) n
    then record c { lost = uid ∷ c.lost }
    else begin reading uid (record c { resp_map = set_id uid (zero_bytes n) c.resp_map })

-- What `response_read` does with the buffer of the response: the names of both ends are asked for before
-- the response is reported, and a socket that has none throws.
unfoldable pub answered : ℕ → Option (List ℕ) → Bool → Client → Client
unfolding handle_error erase_id
answered uid none named c =
    let d = handle_error uid c in record d { resp_map = erase_id uid d.resp_map }
answered uid (some bs) true c =
    let d = report uid (some bs) c in record d { resp_map = erase_id uid d.resp_map }
answered uid (some bs) false c = record c { lost = uid ∷ c.lost }

abbrev pub with_buffer : ℕ → Option (List ℕ) → Bool → Client → Option (List ℕ) → Client
with_buffer uid response named c none = record c { lost = uid ∷ c.lost }
with_buffer uid response named c (some buffer) = answered uid response named c

-- `response_read`. The buffer is not there if another response to the same id has taken it: its size is
-- then asked of a null pointer, and the map has a null pointer for the id.
unfoldable pub on_response : ℕ → Option (List ℕ) → Bool → Client → Client
unfolding find_id answered
on_response uid response named c = with_buffer uid response named c (find_id uid c.resp_map)

-- An operation that is under way ends.
abbrev pub ended : Client → (Client → Client) → Option (List (Wait × ℕ)) → Client
ended c f none = c
ended c f (some ops) = f (record c { pending = ops })

unfoldable pub step : Event → Client → Client
unfolding send send_message on_size on_response take_op handle_error
step (sent uid message w) c = send uid message w c
step (resolved uid b) c = ended c (on_resolved uid b) (take_op resolving uid c.pending)
step (connected uid b w) c = ended c (on_connected uid b w) (take_op connecting uid c.pending)
step (request_written uid b) c = ended c (on_written uid b) (take_op writing uid c.pending)
step (size_at_end uid) c = c
step (size_failed uid) c = ended c (handle_error uid) (take_op looping uid c.pending)
step (size_read uid n) c = ended c (on_size uid n) (take_op looping uid c.pending)
step (response_read uid bs named) c =
    ended c (on_response uid (some bs) named) (take_op reading uid c.pending)
step (response_failed uid) c = ended c (on_response uid none true) (take_op reading uid c.pending)

unfoldable pub run : List Event → Client → Client
unfolding step
run [] c = c
run (v ∷ vs) c = run vs (step v c)

-- A new client has no connection.
abbrev pub new_client : Client
new_client = record {
  is_open = false;
  req_map = [];
  resp_map = [];
  pending = [];
  written = [];
  reports = [];
  lost = [];
}
