-- ===== src/AsyncResult/Once.antt =====
-- raft/include/rpc/async_result.hxx: a result and its handler, each from a thread of its own.
use enclave_raft.Prelude.{
  ◌≤◌, ◌≡◌, refl, true, Option, none, some, List, [], ◌∷◌, ◌++◌, Error, Result, ok, err, length,
  arith, All,
}
use enclave_raft.AsyncResult.{
  AsyncResult, Call, pending, register, call_if_ready, store_result, call_copy, get,
}

abbrev pub outcome_of {ℓ} : {A : Type ℓ} → A → Option Error → Result A
outcome_of a none = ok a
outcome_of a (some e) = err e

-- The steps of `when_ready` in one thread, and of `set_result` in another.
pub data Step : Type 0 where
  registers tests stores delivers : Step

-- The orders of two sequences of steps, each of which keeps its own.
pub data Interleaves : List Step → List Step → List Step → Type 0 where
  finished : Interleaves [] [] []
  left :
      {x : Step} → {xs ys zs : List Step} → Interleaves xs ys zs → Interleaves (x ∷ xs) ys (x ∷ zs)
  right :
      {y : Step} → {xs ys zs : List Step} → Interleaves xs ys zs → Interleaves xs (y ∷ ys) (y ∷ zs)

-- The result, the copy of the handler that `set_result` holds, and the calls so far.
pub record Shared (A H : Type 0) : Type 0 where
  pub at : AsyncResult A H
  pub copy : Option H
  pub calls : List (Call A H)

module _ {A H : Type 0} where
  abbrev pub take_step : H → A → Option Error → Step → Shared A H → Shared A H
  take_step h a e registers s = record s { at = register h s.at }
  take_step h a e tests s = record s { calls = s.calls ++ call_if_ready s.at }
  take_step h a e stores s = let (r, c) = store_result a e s.at in record s { at = r; copy = c }
  take_step h a e delivers s = record s { calls = s.calls ++ call_copy s.copy s.at }

  abbrev pub take_steps : H → A → Option Error → List Step → Shared A H → Shared A H
  take_steps h a e [] s = s
  take_steps h a e (x ∷ xs) s = take_steps h a e xs (take_step h a e x s)

  abbrev pub begun : A → Shared A H
  begun blank = record { at = pending blank; copy = none; calls = [] }

  abbrev pub IsCall : H → A → Option Error → Call A H → Type 0
  IsCall h a e c = c ≡ record { called = h; given = a; failure = e }

  -- What holds when both threads are through.
  abbrev pub Met : H → A → Option Error → Shared A H → Type 0
  Met h a e s =
      All (IsCall h a e) s.calls
      × (1 ≤ length s.calls)
      × (length s.calls ≤ 2)
      × (get s.at ≡ some (outcome_of a e))

  get_outcome :
      (a : A) (e : Option Error) (h : Option H)
      → get (record { result = a; error = e; has_result = true; handler = h })
        ≡ some (outcome_of a e)
  unfolding get
  get_outcome a none h = refl
  get_outcome a (some e) h = refl

  -- However the steps of `when_ready` and of `set_result` on a pending result fall, the handler is called,
  -- once or twice, each time with the result and the error, and at the end `get` returns the result or
  -- throws the error.
  pub take_steps-Met :
      (h : H) (a : A) (e : Option Error) (blank : A) (steps : List Step)
      → Interleaves (registers ∷ tests ∷ []) (stores ∷ delivers ∷ []) steps
      → Met h a e (take_steps h a e steps (begun blank))
  unfolding pending register call_if_ready store_result call_copy
  take_steps-Met h a e blank _ (left (left (right (right finished)))) =
      ((refl, tt), omega arith, omega arith, get_outcome a e (some h))
  take_steps-Met h a e blank _ (left (right (left (right finished)))) =
      ((refl, (refl, tt)), omega arith, omega arith, get_outcome a e (some h))
  take_steps-Met h a e blank _ (left (right (right (left finished)))) =
      ((refl, (refl, tt)), omega arith, omega arith, get_outcome a e (some h))
  take_steps-Met h a e blank _ (right (left (left (right finished)))) =
      ((refl, tt), omega arith, omega arith, get_outcome a e (some h))
  take_steps-Met h a e blank _ (right (left (right (left finished)))) =
      ((refl, tt), omega arith, omega arith, get_outcome a e (some h))
  take_steps-Met h a e blank _ (right (right (left (left finished)))) =
      ((refl, tt), omega arith, omega arith, get_outcome a e (some h))
