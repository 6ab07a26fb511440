-- ===== src/Port/Tasks/Cancelled.antt =====
-- When a task runs, and when it does not.
use enclave_raft.Prelude.{
  ℕ, ◌+◌, ◌≡◌, ◌≢◌, refl, ◌∙◌, Bool, true, some, List, [], ◌∷◌, ◌==◌, if◌then◌else◌, arith, All,
}
use enclave_raft.Port.Tasks.{
  Service, set_task, find_task, set_pool, uid_of, schedule, cancel, execute, timer_expired,
}

-- What happens to the tasks: the server schedules or cancels one, or the host reports a timer.
pub data Event : Type 0 where
  scheduled : ℕ → ℕ → Event
  cancelled : ℕ → Event
  expired : ℕ → Bool → Event

abbrev pub step : Event → Service → Service
step (scheduled t ms) s = schedule t ms s
step (cancelled t) s = cancel t s
step (expired uid success) s = timer_expired uid success s

abbrev pub run : List Event → Service → Service
run [] s = s
run (e ∷ es) s = run es (step e s)

-- How often a task has run.
abbrev pub count : ℕ → List ℕ → ℕ
count t [] = 0
count t (u ∷ us) = (if u == t then 1 else 0) + count t us

abbrev pub IsOther : ℕ → Event → Type 0
IsOther t (scheduled u ms) = u ≢ t
IsOther t (cancelled u) = Unit {0}
IsOther t (expired uid success) = Unit {0}

step-cancelled :
    (t : ℕ) (e : Event) (s : Service)
    → IsOther t e
    → (s.tasks t).cancelled ≡ true
    → (((step e s).tasks t).cancelled ≡ true) × (count t (step e s).executed ≡ count t s.executed)
unfolding schedule cancel execute timer_expired set_task
step-cancelled t (scheduled u ms) s h c = ground (arith, h, c)
step-cancelled t (cancelled u) s h c = ground (arith, c)
step-cancelled t (expired uid success) s h c = ground (arith, c)

runs-cancelled :
    (t : ℕ) (es : List Event) (s : Service)
    → All (IsOther t) es
    → (s.tasks t).cancelled ≡ true
    → (((run es s).tasks t).cancelled ≡ true) × (count t (run es s).executed ≡ count t s.executed)
runs-cancelled t [] s h c = (c, refl)
runs-cancelled t (e ∷ es) s (he, hes) c =
    let (still, same) = step-cancelled t e s he c in
    let (ends, all_same) = runs-cancelled t es (step e s) hes still in (ends, all_same ∙ same)

find_task-set_pool : (k t : ℕ) (ts : List (ℕ × ℕ)) → find_task k (set_pool k t ts) ≡ some t
unfolding find_task set_pool
find_task-set_pool k t [] = ground arith
find_task-set_pool k t ((j, u) ∷ ts) = ground (arith, find_task-set_pool k t ts)

-- From the cancellation of a task to its next scheduling it does not run, whatever timers the host
-- reports and whatever is done with other tasks.
pub run-cancelled :
    (t : ℕ) (es : List Event) (s : Service)
    → All (IsOther t) es
    → count t (run es (cancel t s)).executed ≡ count t s.executed
unfolding cancel set_task
run-cancelled t es s h = (runs-cancelled t es (cancel t s) h (ground arith)).1

-- A scheduled task, also one that was cancelled before, runs once when the host reports that its timer
-- has expired, and does not run when the host reports that the timer was cancelled.
pub timer_expired-schedule :
    (t ms : ℕ) (success : Bool) (s : Service)
    → (timer_expired (uid_of t s) success (schedule t ms s)).executed
      ≡ (if success then t ∷ s.executed else s.executed)
unfolding schedule timer_expired execute set_task
timer_expired-schedule t ms success s =
    rw (find_task-set_pool (uid_of t s) t s.task_pool, timer_expired) (ground arith)
