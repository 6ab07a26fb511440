-- ===== src/LogStore/Packs/Applied.antt =====
-- A pack of entries: what `apply_pack` makes of it.
use enclave_raft.Prelude.{
  ℕ, suc, ◌+◌, ◌^◌, ◌≤◌, ◌<◌, ◌≡◌, refl, ap, ◌∙◌, some, List, [], ◌∷◌, ◌++◌, length, length-append,
  length-take_le, length-drop, take, drop, map, All, arith, ok, append-nil, append_assoc, le→ltb,
  lt→leb, length-map,
}
use enclave_raft.Buffer.{Buffer, seek, get_int, fresh_bytes, max_size}
use enclave_raft.Buffer.Cursor.{
  cursor, Fits, Fits-next, int_bytes, alloc-cursor, length-fresh_bytes, length-write_loop,
}
use enclave_raft.Buffer.Reads.{get_int-cursor, get_buffer-cursor}
use enclave_raft.Entry.{LogEntry}
use enclave_raft.Entry.RoundTrip.{IsKnown, entry_bytes, rewound, deserialize-entry_bytes}
use enclave_raft.LogStore.{
  LogMap, LogStore, set_start, pack, pack_rounds, read_entry, apply_loop, first_key, apply_pack,
  insert,
}
use enclave_raft.LogStore.View.{store, insert-store}
use enclave_raft.LogStore.Packs.{
  item_bytes, items, pack_bytes, length-item_bytes, length-items, pack-store,
}

-- An entry with a 64-bit term and a type that has a name.
abbrev pub IsPackable : LogEntry → Type 0
IsPackable e = (e.term < 2 ^ 64) × IsKnown e.val_type

read_entry-item_bytes :
    (raw : ℕ → ℕ) (e : LogEntry) (front rest : List ℕ)
    → IsPackable e
    → Fits front (item_bytes e ++ rest)
    → read_entry raw (cursor front (item_bytes e ++ rest))
      ≡ ok (rewound e, cursor (front ++ item_bytes e) rest)
unfolding read_entry
read_entry-item_bytes raw e front rest (word, known) f = rw regroup (
    rw (get_int-cursor n front (entry_bytes e ++ rest) (omega (arith, small)) whole) (
      rw (alloc-cursor raw n small) (
        rw
          (get_buffer-cursor (fresh_bytes raw 0 n) (entry_bytes e) (front ++ int_bytes n) rest
            (length-fresh_bytes raw 0 n)
            (Fits-next (int_bytes n) front (entry_bytes e ++ rest) whole))
          (rw (deserialize-entry_bytes raw e word known small)
            (rw (append_assoc front (int_bytes n) (entry_bytes e)) refl)))))
  where
    n : ℕ
    n = length (entry_bytes e)

    regroup : item_bytes e ++ rest ≡ int_bytes n ++ (entry_bytes e ++ rest)
    regroup = append_assoc (int_bytes n) (entry_bytes e) rest

    whole : Fits front (int_bytes n ++ (entry_bytes e ++ rest))
    whole = rw regroup at f

    small : n < max_size
    small = omega (arith, f, length-append (item_bytes e) rest, length-item_bytes e)

pub apply_step :
    (raw : ℕ → ℕ) (n i : ℕ) (b b' : Buffer) (e : LogEntry) (s : LogStore)
    → read_entry raw b ≡ ok (e, b')
    → apply_loop raw (suc n) i b s
      ≡ apply_loop raw n (suc i) b' (record s { logs = insert i e s.logs })
unfolding apply_loop
apply_step raw n i b b' e s p = rw (p, apply_loop) refl

apply_loop-items :
    (raw : ℕ → ℕ) (d : LogEntry) (st i : ℕ) (es fs : List LogEntry) (front : List ℕ)
    → 1 ≤ st
    → i ≡ st + length fs
    → All IsPackable es
    → Fits front (items es)
    → apply_loop raw (length es) i (cursor front (items es)) (store d st fs)
      ≡ (ok tt, store d st (fs ++ map rewound es))
unfolding apply_loop
apply_loop-items raw d st i [] fs front h k w f = rw append-nil refl
apply_loop-items raw d st i (e ∷ es) fs front h k (w, ws) f =
    apply_step raw (length es) i _ _ (rewound e) (store d st fs)
      (read_entry-item_bytes raw e front (items es) w f)
    ∙ ap
        (λ (m : LogMap). apply_loop raw (length es) (suc i) b (record { logs = m; start_idx = st }))
        put
    ∙ apply_loop-items raw d st (suc i) es (fs ++ (rewound e ∷ [])) (front ++ item_bytes e) h
        (omega (arith, k, length-append fs (rewound e ∷ []))) ws
        (Fits-next (item_bytes e) front (items es) f)
    ∙ ap (λ (l : List LogEntry). (ok tt, store d st l))
        (append_assoc fs (rewound e ∷ []) (map rewound es))
  where
    b : Buffer
    b = cursor (front ++ item_bytes e) (items es)

    put : insert i (rewound e) (store d st fs).logs ≡ (store d st (fs ++ (rewound e ∷ []))).logs
    put =
        ap (λ (n : ℕ). insert n (rewound e) (store d st fs).logs) k
        ∙ insert-store d st fs (rewound e) h

first_key-store :
    (d e : LogEntry) (st : ℕ) (es : List LogEntry)
    → 1 ≤ st
    → first_key (store d st (e ∷ es)).logs ≡ some st
unfolding first_key
first_key-store d e st es h = ground arith

nonempty :
    (es : List LogEntry) → 1 ≤ length es → (e : LogEntry) × (fs : List LogEntry) × (es ≡ e ∷ fs)
nonempty [] h = absurd (omega arith)
nonempty (e ∷ fs) h = (e, fs, refl)

set_start-store :
    (d : LogEntry) (st : ℕ) (es : List LogEntry)
    → 1 ≤ st
    → 1 ≤ length es
    → set_start (ok tt, store d st es) ≡ (ok tt, store d st es)
set_start-store d st es h k =
    let (e, fs, p) = nonempty es k in rw p (rw (first_key-store d e st fs h) refl)

seek_start : (bs : List ℕ) → seek 0 (cursor bs []) ≡ cursor [] bs
unfolding seek
seek_start bs = rw (append-nil, le→ltb (length bs) 0 (omega arith)) refl

apply_pack_step :
    (raw : ℕ → ℕ) (i n : ℕ) (b b' : Buffer) (s : LogStore)
    → get_int (seek 0 b) ≡ ok (n, b')
    → n < 2 ^ 31
    → apply_pack raw i b s ≡ set_start (apply_loop raw n i b' s)
unfolding apply_pack pack_rounds
apply_pack_step raw i n b b' s p h = rw (p, apply_pack) (rw (lt→leb n (2 ^ 31) h) refl)

apply_pack-pack_bytes :
    (raw : ℕ → ℕ) (d : LogEntry) (st : ℕ) (es fs : List LogEntry)
    → 1 ≤ st
    → 1 ≤ length (fs ++ map rewound es)
    → All IsPackable es
    → length (pack_bytes es) < max_size
    → apply_pack raw (st + length fs) (cursor (pack_bytes es) []) (store d st fs)
      ≡ (ok tt, store d st (fs ++ map rewound es))
unfolding apply_pack
apply_pack-pack_bytes raw d st es fs h ne w f =
    apply_pack_step raw (st + length fs) (length es) (cursor (pack_bytes es) [])
      (cursor front (items es)) (store d st fs)
      (rw start
        (get_int-cursor (length es) [] (items es) (omega (arith, small)) (omega (arith, f))))
      (omega (arith, small))
    ∙ ap set_start (
        apply_loop-items raw d st (st + length fs) es fs front h refl w
          (omega (arith, whole, f, length-write_loop 4 0 (length es))))
    ∙ set_start-store d st (fs ++ map rewound es) h ne
  where
    front : List ℕ
    front = int_bytes (length es)

    whole : length (pack_bytes es) ≡ 4 + length (items es)
    whole = omega (arith, length-append front (items es), length-write_loop 4 0 (length es))

    small : length es < 2 ^ 31
    small = omega (arith, f, whole, length-items es)

    start : seek 0 (cursor (pack_bytes es) []) ≡ cursor [] (pack_bytes es)
    start = seek_start (pack_bytes es)

-- A pack of entries with 64-bit terms and named types from inside a log, small enough for a buffer,
-- brings another log that ends where the pack begins up to date: its entries stand behind those that are
-- there, each with its buffer at the start, and the start index stays. Both logs start at 1 or later,
-- and the second is not left empty; what the fresh memory held does not matter.
pub apply_pack-pack :
    (raw raw' : ℕ → ℕ) (d d' : LogEntry) (st st' : ℕ) (es fs : List LogEntry) (j n : ℕ)
    → 1 ≤ st
    → 1 ≤ st'
    → j + n ≤ length es
    → st + j ≡ st' + length fs
    → 1 ≤ length fs + n
    → All IsPackable (take n (drop j es))
    → length (pack_bytes (take n (drop j es))) < max_size
    → (p : Buffer) × (pack raw (st + j) n (store d st es) ≡ ok p)
      × (apply_pack raw' (st + j) p (store d' st' fs)
          ≡ (ok tt, store d' st' (fs ++ map rewound (take n (drop j es)))))
apply_pack-pack raw raw' d d' st st' es fs j n h h' g e ne w f = (
  cursor (pack_bytes xs) [],
  pack-store raw d st es j n h g f,
  ap (λ (i : ℕ). apply_pack raw' i (cursor (pack_bytes xs) []) (store d' st' fs)) e
      ∙ apply_pack-pack_bytes raw' d' st' xs fs h'
          (omega (
            arith,
            ne,
            g,
            length-append fs (map rewound xs),
            length-map rewound xs,
            length-take_le n (drop j es),
            length-drop j es,
          ))
          w f,
)
  where
    xs : List LogEntry
    xs = take n (drop j es)
