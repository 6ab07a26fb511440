-- ===== src/Server/Responses/Pace.antt =====
-- The pace of a peer.
use enclave_raft.Prelude.{ℕ, zero, suc, ◌+◌, ◌*◌, ◌≤◌, ◌≡◌, Bool, min, true, false, arith}
use enclave_raft.Messages.{Req}
use enclave_raft.Server.State.{Peer, slow_down_hb, resume_hb_speed}
use enclave_raft.Server.Responses.{handle_rpc_result}

-- The peer after so many requests in a row that end in an error.
abbrev pub after_errors : ℕ → Req → Peer → Peer
after_errors zero req p = p
after_errors (suc n) req p = handle_rpc_result req false (after_errors n req p)

handle_rpc_result_limits :
    (req : Req) (answered : Bool) (p : Peer)
    → ((handle_rpc_result req answered p).max_hb_interval ≡ p.max_hb_interval)
      × ((handle_rpc_result req answered p).hb_interval ≡ p.hb_interval)
      × ((handle_rpc_result req answered p).rpc_backoff ≡ p.rpc_backoff)
unfolding handle_rpc_result slow_down_hb resume_hb_speed
handle_rpc_result_limits req answered p = ground arith

after_errors_limits :
    (n : ℕ) (req : Req) (p : Peer)
    → ((after_errors n req p).max_hb_interval ≡ p.max_hb_interval)
      × ((after_errors n req p).hb_interval ≡ p.hb_interval)
      × ((after_errors n req p).rpc_backoff ≡ p.rpc_backoff)
after_errors_limits zero req p = ground arith
after_errors_limits (suc n) req p =
    ground (
      arith,
      after_errors_limits n req p,
      handle_rpc_result_limits req false (after_errors n req p),
    )

error_interval :
    (req : Req) (p : Peer)
    → (handle_rpc_result req false p).current_hb_interval
      ≡ min p.max_hb_interval (p.current_hb_interval + p.rpc_backoff)
unfolding handle_rpc_result slow_down_hb
error_interval req p = ground arith

answer_interval :
    (req : Req) (p : Peer) → (handle_rpc_result req true p).current_hb_interval ≡ p.hb_interval
unfolding handle_rpc_result resume_hb_speed
answer_interval req p = ground arith

errors_interval :
    (n : ℕ) (req : Req) (p : Peer)
    → p.current_hb_interval ≤ p.max_hb_interval
    → (after_errors n req p).current_hb_interval
      ≡ min p.max_hb_interval (p.current_hb_interval + n * p.rpc_backoff)
errors_interval zero req p h = ground arith
errors_interval (suc n) req p h = ground (
  arith,
  error_interval req (after_errors n req p),
  after_errors_limits n req p,
  errors_interval n req p h,
)

-- The heartbeat interval of a peer that is within its maximum grows by the backoff with each of `n`
-- errors in a row, up to the maximum; the next answer sets it back to the full speed, after however many
-- errors.
pub handle_rpc_result_pace :
    (n : ℕ) (req : Req) (p : Peer)
    → p.current_hb_interval ≤ p.max_hb_interval
    → ((after_errors n req p).current_hb_interval
        ≡ min p.max_hb_interval (p.current_hb_interval + n * p.rpc_backoff))
      × ((handle_rpc_result req true (after_errors n req p)).current_hb_interval ≡ p.hb_interval)
handle_rpc_result_pace n req p h = (
  errors_interval n req p h,
  ground (arith, answer_interval req (after_errors n req p), after_errors_limits n req p),
)
