-- ===== src/Host/Client/Reported.antt =====
-- raft_app/port/asio_rpc_client.hxx: where each request of a client is.
use enclave_raft.Prelude.{
  ℕ, ◌+◌, ◌≡◌, refl, ap, ◌∙◌, Bool, true, false, Option-cases, inl, inr, Option, none, some, List,
  [], ◌∷◌, ◌==◌, if◌then◌else◌, arith,
}
use enclave_raft.Enclave.{set_id, find_id}
use enclave_raft.Host.Client.{
  Client, Report, Wait, resolving, connecting, writing, looping, reading, Event, sent, resolved,
  connected, request_written, size_at_end, size_failed, size_read, response_read, response_failed,
  take_op, begin, handle_error, send_message, send, on_resolved, on_connected, on_written, on_size,
  answered, with_buffer, on_response, ended, step, run, new_client,
}

abbrev pub is_one : ℕ → ℕ → ℕ
is_one uid k = if k == uid then 1 else 0

-- How often a request is under way, reported, lost, and given to the client.
abbrev pub under_way : ℕ → List (Wait × ℕ) → ℕ
under_way uid [] = 0
under_way uid ((w, k) ∷ ops) = is_one uid k + under_way uid ops

abbrev pub reported : ℕ → List Report → ℕ
reported uid [] = 0
reported uid (r ∷ rs) = is_one uid r.request + reported uid rs

abbrev pub times : ℕ → List ℕ → ℕ
times uid [] = 0
times uid (k ∷ ks) = is_one uid k + times uid ks

abbrev pub given : ℕ → List Event → ℕ
given uid [] = 0
given uid (sent k m w ∷ vs) = is_one uid k + given uid vs
given uid (v ∷ vs) = given uid vs

-- Where a request can be.
abbrev pub total : ℕ → Client → ℕ
total uid c = under_way uid c.pending + reported uid c.reports + times uid c.lost

take_op-under_way :
    (uid : ℕ) (w : Wait) (k : ℕ) (ops rest : List (Wait × ℕ))
    → take_op w k ops ≡ some rest
    → under_way uid ops ≡ is_one uid k + under_way uid rest
unfolding take_op
take_op-under_way uid w k [] rest h = cc
take_op-under_way uid w k ((v, j) ∷ ops) rest h = elim (Option-cases (take_op w k ops)) [
  | inl q ↦ ground arith
  | inr (more, q) ↦ ground (arith, take_op-under_way uid w k ops more q)
]

send_message-total :
    (uid k : ℕ) (b : Bool) (c : Client)
    → total uid (send_message k b c) ≡ is_one uid k + total uid c
unfolding send_message handle_error
send_message-total uid k true c = omega arith
send_message-total uid k false c = omega arith

on_size-total : (uid k n : ℕ) (c : Client) → total uid (on_size k n c) ≡ is_one uid k + total uid c
unfolding on_size
on_size-total uid k n c = ground arith

answered-total :
    (uid k : ℕ) (r : Option (List ℕ)) (named : Bool) (c : Client)
    → total uid (answered k r named c) ≡ is_one uid k + total uid c
unfolding answered handle_error
answered-total uid k none named c = omega arith
answered-total uid k (some bs) true c = omega arith
answered-total uid k (some bs) false c = omega arith

with_buffer-total :
    (uid k : ℕ) (r : Option (List ℕ)) (named : Bool) (c : Client) (b : Option (List ℕ))
    → total uid (with_buffer k r named c b) ≡ is_one uid k + total uid c
with_buffer-total uid k r named c none = omega arith
with_buffer-total uid k r named c (some b) = answered-total uid k r named c

on_response-total :
    (uid k : ℕ) (r : Option (List ℕ)) (named : Bool) (c : Client)
    → total uid (on_response k r named c) ≡ is_one uid k + total uid c
unfolding on_response find_id
on_response-total uid k r named c = with_buffer-total uid k r named c (find_id k c.resp_map)

ended-total :
    (uid k : ℕ) (w : Wait) (f : Client → Client) (c : Client)
    → ((d : Client) → total uid (f d) ≡ is_one uid k + total uid d)
    → total uid (ended c f (take_op w k c.pending)) ≡ total uid c
ended-total uid k w f c keep = elim (Option-cases (take_op w k c.pending)) [
  | inl q ↦ rw q refl
  | inr (ops, q) ↦
      rw q (
        omega (arith, keep (record c { pending = ops }), take_op-under_way uid w k c.pending ops q))
]

either : (P : Client → Type 0) (b : Bool) (x y : Client) → P x → P y → P (if b then x else y)
either P true x y h k = h
either P false x y h k = k

send-total :
    (uid k : ℕ) (m : List ℕ) (b : Bool) (c : Client)
    → total uid (send k m b c) ≡ is_one uid k + total uid c
unfolding send
send-total uid k m b c =
    either (λ d. total uid d ≡ is_one uid k + total uid c) c.is_open
      (send_message k b (record c { req_map = set_id k m c.req_map }))
      (begin resolving k (record c { req_map = set_id k m c.req_map }))
      (send_message-total uid k b (record c { req_map = set_id k m c.req_map })) (omega arith)

on_resolved-total :
    (uid k : ℕ) (b : Bool) (c : Client) → total uid (on_resolved k b c) ≡ is_one uid k + total uid c
unfolding handle_error
on_resolved-total uid k true c = omega arith
on_resolved-total uid k false c = omega arith

on_connected-total :
    (uid k : ℕ) (b w : Bool) (c : Client)
    → total uid (on_connected k b w c) ≡ is_one uid k + total uid c
unfolding handle_error
on_connected-total uid k true w c = send_message-total uid k w c
on_connected-total uid k false w c = omega arith

on_written-total :
    (uid k : ℕ) (b : Bool) (c : Client) → total uid (on_written k b c) ≡ is_one uid k + total uid c
unfolding handle_error
on_written-total uid k true c = omega arith
on_written-total uid k false c = omega arith

abbrev given_by : ℕ → Event → ℕ → ℕ
given_by uid (sent k m w) n = is_one uid k + n
given_by uid (resolved k b) n = n
given_by uid (connected k b w) n = n
given_by uid (request_written k b) n = n
given_by uid (size_at_end k) n = n
given_by uid (size_failed k) n = n
given_by uid (size_read k m) n = n
given_by uid (response_read k bs named) n = n
given_by uid (response_failed k) n = n

step-total :
    (uid : ℕ) (v : Event) (c : Client) → total uid (step v c) ≡ given_by uid v (total uid c)
unfolding step handle_error
step-total uid (sent k m w) c = send-total uid k m w c
step-total uid (resolved k b) c =
    ended-total uid k resolving (on_resolved k b) c (on_resolved-total uid k b)
step-total uid (connected k b w) c =
    ended-total uid k connecting (on_connected k b w) c (on_connected-total uid k b w)
step-total uid (request_written k b) c =
    ended-total uid k writing (on_written k b) c (on_written-total uid k b)
step-total uid (size_at_end k) c = refl
step-total uid (size_failed k) c = ended-total uid k looping (handle_error k) c (λ d. omega arith)
step-total uid (size_read k n) c = ended-total uid k looping (on_size k n) c (on_size-total uid k n)
step-total uid (response_read k bs named) c =
    ended-total uid k reading (on_response k (some bs) named) c
      (on_response-total uid k (some bs) named)
step-total uid (response_failed k) c =
    ended-total uid k reading (on_response k none true) c (on_response-total uid k none true)

given-by :
    (uid : ℕ) (v : Event) (vs : List Event) (n : ℕ)
    → given uid vs + given_by uid v n ≡ given uid (v ∷ vs) + n
given-by uid (sent k m w) vs n = omega arith
given-by uid v vs n = refl

run-total :
    (uid : ℕ) (vs : List Event) (c : Client) → total uid (run vs c) ≡ given uid vs + total uid c
unfolding run
run-total uid [] c = omega arith
run-total uid (v ∷ vs) c =
    run-total uid vs (step v c)
    ∙ ap (λ (n : ℕ). given uid vs + n) (step-total uid v c)
    ∙ given-by uid v vs (total uid c)

-- Whatever the socket and the resolver do, a new client accounts for each request: as often as it was
-- given to the client, it is under way, has been reported to the enclave, by a response or an error, or
-- was lost to an exception or a null pointer in the handler of its response.
pub run-reported :
    (uid : ℕ) (vs : List Event)
    → under_way uid (run vs new_client).pending
        + reported uid (run vs new_client).reports
        + times uid (run vs new_client).lost
      ≡ given uid vs
run-reported uid vs = omega (arith, run-total uid vs new_client)
