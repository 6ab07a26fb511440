-- ===== src/LogStore/View.antt =====
-- The log as a list of entries behind a start index.
mod Numbered
pub use Numbered.{number, last, drop_cons}
use Numbered.{
  length-number, insert-number, erase_from-number, find-number, find_high, find_low, erase-first,
  erase_loop-low, erase_loop-nil, erase_loop-number, get_elem?-last,
}
use enclave_raft.Prelude.{
  length-take_le, ℕ, suc, ◌+◌, ◌-◌, ◌≤◌, ◌<◌, ◌≡◌, refl, ap, none, some, List, [], ◌∷◌, ◌++◌,
  length, take, drop, get_elem?, arith, ◌⊎◌,
}
use enclave_raft.Entry.{LogEntry}
use enclave_raft.LogStore.{
  LogMap, LogStore, find, insert, erase, erase_from, make_clone, next_slot, find_or_dummy,
  last_entry, entry_at, term_at, append, write_at, erase_loop, compact,
}

-- The store that holds `es` from the index `st` on, with the dummy `d`.
abbrev pub store : LogEntry → ℕ → List LogEntry → LogStore
store d st es = record { logs = (0, d) ∷ number st es; start_idx = st }

pub next_slot-store :
    (d : LogEntry) (st : ℕ) (es : List LogEntry) → next_slot (store d st es) ≡ st + length es
unfolding next_slot
next_slot-store d st es = omega (arith, length-number st es)

-- An entry that is put under the next slot stands last.
pub insert-store :
    (d : LogEntry) (st : ℕ) (es : List LogEntry) (e : LogEntry)
    → 1 ≤ st
    → insert (st + length es) e (store d st es).logs ≡ (store d st (es ++ (e ∷ []))).logs
unfolding insert
insert-store d st es e h = ground (arith, insert-number st es (st + length es) e)

-- In a log that starts at 1 or later an appended entry gets the next slot, and a copy of it stands
-- last.
pub append-store :
    (d : LogEntry) (st : ℕ) (es : List LogEntry) (e : LogEntry)
    → 1 ≤ st
    → append e (store d st es) ≡ (st + length es, store d st (es ++ (make_clone e ∷ [])))
unfolding append
append-store d st es e h =
    ground (arith, length-number st es, insert-number st es (st + length es) (make_clone e))

-- In a log that starts at 1 or later a write at one of its indices, or at its next slot, cuts the log
-- there and puts a copy of the entry last.
pub write_at-store :
    (d : LogEntry) (st : ℕ) (es : List LogEntry) (n : ℕ) (e : LogEntry)
    → 1 ≤ st
    → n ≤ length es
    → write_at (st + n) e (store d st es) ≡ store d st (take n es ++ (make_clone e ∷ []))
unfolding write_at
write_at-store d st es n e h k = ground (
  arith,
  erase_from-number st es n,
  length-take_le n es,
  insert-number st (take n es) (st + n) (make_clone e),
)

-- An entry of the log is found under its index.
pub find-store :
    (d : LogEntry) (st : ℕ) (es : List LogEntry) (n : ℕ)
    → 1 ≤ st
    → find (st + n) (store d st es).logs ≡ get_elem? es n
unfolding find
find-store d st es n h = ground (arith, find-number st es n)

find_or_dummy-store :
    (d : LogEntry) (st : ℕ) (es : List LogEntry) (n : ℕ) {e : LogEntry}
    → 1 ≤ st
    → get_elem? es n ≡ some e
    → find_or_dummy (st + n) (store d st es) ≡ some e
unfolding find_or_dummy
find_or_dummy-store d st es n h g = ground (arith, find-number st es n)

-- In a log that starts at 1 or later the entry at one of its indices is a copy of what stands there,
-- and its term is the term there.
pub entry_at-store :
    (d : LogEntry) (st : ℕ) (es : List LogEntry) (n : ℕ) {e : LogEntry}
    → 1 ≤ st
    → get_elem? es n ≡ some e
    → (entry_at (st + n) (store d st es) ≡ some (make_clone e))
      × (term_at (st + n) (store d st es) ≡ some e.term)
unfolding entry_at term_at
entry_at-store d st es n h g =
    (rw (find_or_dummy-store d st es n h g), rw (find_or_dummy-store d st es n h g))

-- Outside the log the dummy answers.
pub term_at-outside :
    (d : LogEntry) (st : ℕ) (es : List LogEntry) (k : ℕ)
    → (k < st) ⊎ (st + length es ≤ k)
    → term_at k (store d st es) ≡ some d.term
unfolding term_at find
term_at-outside d st es k h = ground (arith, find_low st es k, find_high st es k)

-- A log that starts at 1 or later, compacted at an index from the one before its start on, begins
-- behind that index with the entries that it had there.
pub compact-store :
    (d : LogEntry) (st : ℕ) (es : List LogEntry) (k : ℕ)
    → 1 ≤ st
    → st ≤ k + 1
    → compact k (store d st es) ≡ store d (k + 1) (drop (k + 1 - st) es)
unfolding compact
compact-store d st es k h g =
    rw (erase_loop-low (k + 1 - st) st d (number st es) h)
      (rw (erase_loop-number (k + 1 - st) st (k + 1) es (omega arith)) refl)

last_entry-full :
    (d : LogEntry) (st : ℕ) (es : List LogEntry) (n : ℕ)
    → 1 ≤ st
    → length es ≡ suc n
    → last_entry (store d st es) ≡ some (make_clone (last es d))
unfolding last_entry
last_entry-full d st es n h e =
    ground (arith, length-number st es, find-number st es n, get_elem?-last es d n e)

-- The last entry of a log that starts at 1 or later is a copy of what stands last. Where no entry is,
-- as when the whole log was compacted, that is the dummy.
pub last_entry-store :
    (d : LogEntry) (st : ℕ) (es : List LogEntry)
    → 1 ≤ st
    → last_entry (store d st es) ≡ some (make_clone (last es d))
unfolding last_entry
last_entry-store d st [] h = ground arith
last_entry-store d st (e ∷ es) h = last_entry-full d st (e ∷ es) (length es) h refl
