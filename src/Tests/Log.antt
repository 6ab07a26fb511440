-- ===== src/Tests/Log.antt =====
-- The log on concrete data.
use enclave_raft.Prelude.{ok, ◌≡◌, refl, some, [], ◌∷◌, arith}
use enclave_raft.LogStore.{append, write_at, compact, last_entry, pack, apply_pack}
use enclave_raft.Buffer.{Buffer, write_loop}
use enclave_raft.LogStore.Packs.Applied.{apply_pack-pack}
use enclave_raft.LogStore.View.{
  store, append-store, write_at-store, compact-store, last_entry-store,
}
use enclave_raft.Tests.{fresh, dummy, entry, entries, log}

append-store_example :
    append (entry 3 13) log
    ≡ (4, store dummy 1 (entry 1 10 ∷ entry 1 11 ∷ entry 2 12 ∷ entry 3 13 ∷ []))
append-store_example = append-store dummy 1 entries (entry 3 13) (omega arith)

write_at-store_example : write_at 2 (entry 3 13) log ≡ store dummy 1 (entry 1 10 ∷ entry 3 13 ∷ [])
write_at-store_example = write_at-store dummy 1 entries 1 (entry 3 13) (omega arith) (omega arith)

compact-store_example : compact 2 log ≡ store dummy 3 (entry 2 12 ∷ [])
compact-store_example = compact-store dummy 1 entries 2 (omega arith) (omega arith)

last_entry-store_example : last_entry log ≡ some (entry 2 12)
last_entry-store_example = last_entry-store dummy 1 entries (omega arith)

-- The second and third entries, sent to a log that holds the first.
apply_pack-pack_example :
    (p : Buffer) × (pack fresh 2 2 log ≡ ok p)
    × (apply_pack fresh 2 p (store dummy 1 (entry 1 10 ∷ [])) ≡ (ok tt, log))
unfolding write_loop
apply_pack-pack_example =
    apply_pack-pack fresh fresh dummy dummy 1 1 entries (entry 1 10 ∷ []) 1 2 (omega arith)
      (omega arith) (omega arith) refl (omega arith) ((omega arith, tt), ((omega arith, tt), tt))
      (omega arith)
