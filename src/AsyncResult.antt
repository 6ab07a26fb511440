-- ===== src/AsyncResult.antt =====
-- raft_enclave/raft/include/rpc/async_result.hxx: a result that may come later, and its handler.
-- `H` is what names a handler; a call of it is a value, in the order of the calls. The parts
-- of an operation under the lock and behind it are steps of their own, since another thread can come
-- between them.
pub mod Once
use enclave_raft.Prelude.{
  ℕ, Bool, true, false, Option, none, some, List, [], ◌∷◌, if◌then◌else◌, Result, Error, ok, err,
}

-- `result` is what fresh memory holds until there is a result.
pub record AsyncResult (A H : Type 0) : Type 0 where
  pub result : A
  pub error : Option Error
  pub has_result : Bool
  pub handler : Option H

-- A call of a handler on a result and an error.
pub record Call (A H : Type 0) : Type 0 where
  pub called : H
  pub given : A
  pub failure : Option Error

module _ {A H : Type 0} where
  -- The three constructors. The last one has a result from the start.
  unfoldable pub pending : A → AsyncResult A H
  pending blank = record { result = blank; error = none; has_result = false; handler = none }

  unfoldable pub ready : A → AsyncResult A H
  ready a = record { result = a; error = none; has_result = true; handler = none }

  unfoldable pub handled_by : A → H → AsyncResult A H
  handled_by blank h = record { result = blank; error = none; has_result = true; handler = some h }

  -- The first half of `when_ready`, under the lock.
  unfoldable pub register : H → AsyncResult A H → AsyncResult A H
  register h r = record r { handler = some h }

  -- A call of a handler on what the result is at that time.
  abbrev pub call_of : AsyncResult A H → H → Call A H
  call_of r h = record { called = h; given = r.result; failure = r.error }

  -- The second half of `when_ready`, without the lock. It calls the handler that is there, which is not
  -- empty once one was set.
  unfoldable pub call_if_ready : AsyncResult A H → List (Call A H)
  call_if_ready r =
      if r.has_result then elim r.handler [ some h ↦ call_of r h ∷ [] | none ↦ [] ] else []

  -- The first half of `set_result`, under the lock, with the copy that it takes of the handler.
  unfoldable pub store_result : A → Option Error → AsyncResult A H → AsyncResult A H × Option H
  store_result a e r = (record r { result = a; error = e; has_result = true }, r.handler)

  -- The second half of `set_result`, without the lock.
  unfoldable pub call_copy : Option H → AsyncResult A H → List (Call A H)
  call_copy none r = []
  call_copy (some h) r = call_of r h ∷ []

  -- Each operation when no other thread comes in between.
  unfoldable pub when_ready : H → AsyncResult A H → AsyncResult A H × List (Call A H)
  unfolding register call_if_ready
  when_ready h r = let r' = register h r in (r', call_if_ready r')

  unfoldable pub set_result : A → Option Error → AsyncResult A H → AsyncResult A H × List (Call A H)
  unfolding store_result call_copy
  set_result a e r = let (r', c) = store_result a e r in (r', call_copy c r')

  -- `none` is a wait for the result.
  unfoldable pub get : AsyncResult A H → Option (Result A)
  get r = if r.has_result then some (elim r.error [ none ↦ ok r.result | some e ↦ err e ]) else none
