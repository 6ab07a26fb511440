-- ===== src/LogStore.antt =====
-- raft_enclave/app_impl/in_memory_log_store.hxx: the log, as a `std::map` from indices to entries
-- that keeps a dummy entry under the key 0. The map is an association list in the order of its
-- keys. Indices are natural numbers: none comes near 2 ^ 64.
pub mod View
pub mod Packs
use enclave_raft.Prelude.{
  ℕ, zero, suc, ◌+◌, ◌*◌, ◌-◌, ◌%◌, ◌^◌, Option, none, some, List, [], ◌∷◌, ltb, leb, ◌==◌,
  if◌then◌else◌, length, Result, ok, err, ◌>>=◌, fault,
}
use enclave_raft.Buffer.{
  Buffer, size, rest_of, sz_int, sz_ulong, alloc, seek, get_int, get_buffer, put_int, put_buffer,
}
use enclave_raft.Config.{total_size}
use enclave_raft.Entry
use enclave_raft.Entry.{LogEntry, app_log}

abbrev pub LogMap : Type 0
LogMap = List (ℕ × LogEntry)

unfoldable pub find : ℕ → LogMap → Option LogEntry
find k [] = none
find k ((j, e) ∷ m) = if k == j then some e else find k m

-- `logs_[k] = e`
unfoldable pub insert : ℕ → LogEntry → LogMap → LogMap
insert k e [] = (k, e) ∷ []
insert k e ((j, f) ∷ m) =
    if k == j then (k, e) ∷ m else if ltb k j then (k, e) ∷ ((j, f) ∷ m) else (j, f) ∷ insert k e m

-- `erase(find(k))`, if there is one.
unfoldable pub erase : ℕ → LogMap → LogMap
erase k [] = []
erase k ((j, f) ∷ m) = if k == j then m else (j, f) ∷ erase k m

-- `lower_bound(k)`, and the erasure of all from there on.
unfoldable pub erase_from : ℕ → LogMap → LogMap
erase_from k [] = []
erase_from k ((j, f) ∷ m) = if ltb j k then (j, f) ∷ erase_from k m else []

-- The key of `upper_bound(0)`.
unfoldable pub first_key : LogMap → Option ℕ
first_key [] = none
first_key ((j, f) ∷ m) = if ltb 0 j then some j else first_key m

pub record LogStore : Type 0 where
  pub logs : LogMap
  pub start_idx : ℕ

-- `make_clone`: the buffer is copied from its position on (`Buffer.Writes.copy_lem`).
abbrev pub make_clone : LogEntry → LogEntry
make_clone e = record e { buf = record { bytes = rest_of e.buf; pos = 0 } }

-- The dummy holds eight bytes of fresh memory.
unfoldable pub new_store : Buffer → LogStore
new_store dummy = record {
  logs = (0, record { term = 0; val_type = app_log; buf = dummy }) ∷ [];
  start_idx = 1;
}

unfoldable pub next_slot : LogStore → ℕ
next_slot s = s.start_idx + length s.logs - 1

unfoldable pub start_index : LogStore → ℕ
start_index s = s.start_idx

-- The entry under the key, or else the one under 0; a map with neither is dereferenced at its end.
unfoldable pub find_or_dummy : ℕ → LogStore → Option LogEntry
unfolding find
find_or_dummy k s = elim (find k s.logs) [ some e ↦ some e | none ↦ find 0 s.logs ]

abbrev cloned : Option LogEntry → Option LogEntry
cloned none = none
cloned (some e) = some (make_clone e)

abbrev term_of : Option LogEntry → Option ℕ
term_of none = none
term_of (some e) = some e.term

unfoldable pub last_entry : LogStore → Option LogEntry
unfolding find_or_dummy next_slot
last_entry s = cloned (find_or_dummy (next_slot s - 1) s)

unfoldable pub entry_at : ℕ → LogStore → Option LogEntry
unfolding find_or_dummy
entry_at i s = cloned (find_or_dummy i s)

unfoldable pub term_at : ℕ → LogStore → Option ℕ
unfolding find_or_dummy
term_at i s = term_of (find_or_dummy i s)

-- The new entry's index, and the store.
unfoldable pub append : LogEntry → LogStore → ℕ × LogStore
unfolding insert
append e s =
    let idx = s.start_idx + length s.logs - 1 in
    (idx, record s { logs = insert idx (make_clone e) s.logs })

unfoldable pub write_at : ℕ → LogEntry → LogStore → LogStore
unfolding insert erase_from
write_at i e s = record s { logs = insert i (make_clone e) (erase_from i s.logs) }

-- The loop of `log_entries`: `n` entries from `i` on. A missing entry trips the `assert`.
unfoldable pub entries_loop : ℕ → ℕ → LogStore → Option (List LogEntry)
unfolding find
entries_loop zero i s = some []
entries_loop (suc n) i s = elim (find i s.logs) [
  | none ↦ none
  | some e ↦ elim (entries_loop n (suc i) s) [ none ↦ none | some es ↦ some (make_clone e ∷ es) ]
]

unfoldable pub log_entries : ℕ → ℕ → LogStore → Option (List LogEntry)
unfolding entries_loop
log_entries start end s = entries_loop (end - start) start s

-- The loop of `compact`: `n` keys from `i` on are erased.
unfoldable pub erase_loop : ℕ → ℕ → LogMap → LogMap
unfolding erase
erase_loop zero i m = m
erase_loop (suc n) i m = erase_loop n (suc i) (erase i m)

-- It always succeeds.
unfoldable pub compact : ℕ → LogStore → LogStore
unfolding erase_loop
compact last s = record {
  logs = erase_loop (last + 1 - s.start_idx) s.start_idx s.logs;
  start_idx = last + 1;
}

-- The first loop of `pack`: `n` entries from `i` on, serialized. A missing one trips the `assert`.
unfoldable pub pack_entries : (ℕ → ℕ) → ℕ → ℕ → LogStore → Result (List Buffer)
unfolding find
pack_entries raw zero i s = ok []
pack_entries raw (suc n) i s = elim (find i s.logs) [
  | none ↦ err fault
  | some e ↦ Entry.serialize raw e >>= λ b. pack_entries raw n (suc i) s >>= λ bs. ok (b ∷ bs)
]

-- The second loop: the size of each entry, and the entry.
unfoldable pub put_entries : List Buffer → Buffer → Result Buffer
put_entries [] b = ok b
put_entries (x ∷ xs) b = put_int (size x % 2 ^ 32) b >>= put_buffer x >>= put_entries xs

-- The pack is left at its end.
unfoldable pub pack : (ℕ → ℕ) → ℕ → ℕ → LogStore → Result Buffer
unfolding pack_entries put_entries
pack raw i cnt s = pack_entries raw cnt i s >>= λ bufs.
    alloc raw (sz_int + cnt * sz_int + total_size bufs)
    >>= put_int (cnt % 2 ^ 32)
    >>= put_entries bufs

-- How often the loop of `apply_pack` runs from the index `i` on, by the count in the pack. A
-- negative count that makes `index + num_logs` wrap lets it run until the pack is used up.
unfoldable pub pack_rounds : ℕ → ℕ → Buffer → ℕ
pack_rounds i num b =
    if leb (2 ^ 31) num then (if ltb i (2 ^ 32 - num) then size b + 1 else 0) else num

-- One entry of a pack, and the pack behind it.
unfoldable pub read_entry : (ℕ → ℕ) → Buffer → Result (LogEntry × Buffer)
read_entry raw b = get_int b >>= λ (sz, b1). alloc raw sz >>= λ local.
    get_buffer local b1 >>= λ (filled, b2). Entry.deserialize raw filled >>= λ e. ok (e, b2)

-- What was stored before a throw stays stored.
unfoldable pub apply_loop : (ℕ → ℕ) → ℕ → ℕ → Buffer → LogStore → Result (Unit {0}) × LogStore
unfolding read_entry insert
apply_loop raw zero i b s = (ok tt, s)
apply_loop raw (suc n) i b s = elim (read_entry raw b) [
  | err x ↦ (err x, s)
  | ok (e, b') ↦ apply_loop raw n (suc i) b' (record s { logs = insert i e s.logs })
]

abbrev key_or_one : Option ℕ → ℕ
key_or_one none = 1
key_or_one (some k) = k

abbrev pub set_start : Result (Unit {0}) × LogStore → Result (Unit {0}) × LogStore
set_start (err x, s) = (err x, s)
set_start (ok u, s) = (ok u, record s { start_idx = key_or_one (first_key s.logs) })

unfoldable pub apply_pack : (ℕ → ℕ) → ℕ → Buffer → LogStore → Result (Unit {0}) × LogStore
unfolding apply_loop first_key pack_rounds
apply_pack raw i b s = elim (get_int (seek 0 b)) [
  | err x ↦ (err x, s)
  | ok (num, b') ↦ set_start (apply_loop raw (pack_rounds i num b) i b' s)
]
