-- ===== src/Port/Tasks.antt =====
-- raft_enclave/port/service_port.hxx and service_port.cxx, raft_enclave/raft/include/async_task: tasks
-- that run when a timer of the host expires. A number names a task object. When a timer expires, and
-- whether it was cancelled, is the host's choice.
pub mod Cancelled
use enclave_raft.Prelude.{
  ℕ, ◌+◌, ◌%◌, ◌^◌, Bool, true, false, Option, none, some, List, [], ◌∷◌, ◌==◌, if◌then◌else◌, not,
  ◌&&◌,
}

-- `delayed_task`: the flag, and the id of its timer once it has one.
pub record Task : Type 0 where
  pub cancelled : Bool
  pub impl_context : Option ℕ

-- A request to the host.
pub data TimerCall : Type 0 where
  schedule_timer : ℕ → ℕ → TimerCall
  cancel_timer : ℕ → TimerCall

-- `task_pool` is a map from timers to tasks; `executed` are the tasks that ran and `calls` what the
-- host was asked, the latest first.
pub record Service : Type 0 where
  pub last_task_uid : ℕ
  pub tasks : ℕ → Task
  pub task_pool : List (ℕ × ℕ)
  pub executed : List ℕ
  pub calls : List TimerCall

unfoldable pub set_task : ℕ → Task → (ℕ → Task) → ℕ → Task
set_task t x tasks u = if u == t then x else tasks u

unfoldable pub find_task : ℕ → List (ℕ × ℕ) → Option ℕ
find_task k [] = none
find_task k ((j, t) ∷ ts) = if j == k then some t else find_task k ts

-- `pool[k] = t`
unfoldable pub set_pool : ℕ → ℕ → List (ℕ × ℕ) → List (ℕ × ℕ)
set_pool k t [] = (k, t) ∷ []
set_pool k t ((j, u) ∷ ts) = if j == k then (j, t) ∷ ts else (j, u) ∷ set_pool k t ts

-- The id of the task's timer, a new one if it has none.
abbrev pub uid_of : ℕ → Service → ℕ
uid_of t s = elim (s.tasks t).impl_context [ some k ↦ k | none ↦ (s.last_task_uid + 1) % 2 ^ 64 ]

unfoldable pub schedule : ℕ → ℕ → Service → Service
unfolding set_task set_pool
schedule t ms s = record s {
  last_task_uid = elim (s.tasks t).impl_context [ some k ↦ s.last_task_uid | none ↦ uid_of t s ];
  tasks = set_task t (record { cancelled = false; impl_context = some (uid_of t s) }) s.tasks;
  task_pool = set_pool (uid_of t s) t s.task_pool;
  calls = schedule_timer (uid_of t s) ms ∷ s.calls;
}

-- `cancel`, with `cancel_impl`: a task without a timer has nothing for the host to cancel.
unfoldable pub cancel : ℕ → Service → Service
unfolding set_task
cancel t s = record s {
  tasks = set_task t (record (s.tasks t) { cancelled = true }) s.tasks;
  calls = elim (s.tasks t).impl_context [ some k ↦ cancel_timer k ∷ s.calls | none ↦ s.calls ];
}

-- `execute`: the body runs unless the task is cancelled.
unfoldable pub execute : ℕ → Service → Service
execute t s = if (s.tasks t).cancelled then s else record s { executed = t ∷ s.executed }

-- `ecall_timer_expired_callback`
unfoldable pub timer_expired : ℕ → Bool → Service → Service
unfolding find_task execute
timer_expired uid success s = elim (find_task uid s.task_pool) [
  | none ↦ s
  | some t ↦ if success then execute t s else s
]
