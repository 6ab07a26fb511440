-- ===== src/LogStore/Packs.antt =====
-- A pack of entries, which brings a new server's log up to date: what `pack` writes.
pub mod Applied
pub mod Rounds
use enclave_raft.Prelude.{
  ℕ, zero, suc, ◌+◌, ◌*◌, ◌%◌, ◌^◌, ◌≤◌, ◌<◌, ◌≡◌, refl, ap, ◌∙◌, sym, subst, some, List, [], ◌∷◌,
  ◌++◌, length, length-append, length-take_le, length-drop, take, drop, arith, Result, ok, err,
  ◌>>=◌, append-nil, append_assoc, length-eq-zero,
}
use enclave_raft.Buffer.{Buffer, size, alloc, put_int, put_buffer, max_size}
use enclave_raft.Buffer.Cursor.{cursor, int_bytes, length-write_loop}
use enclave_raft.Buffer.Writes.{Wrote, alloc-Wrote, put_int-Wrote, put_buffer-Wrote}
use enclave_raft.Config.{total_size}
use enclave_raft.Config.Blocks.{all_bytes, cursors, total_size-cursors}
use enclave_raft.Entry
use enclave_raft.Entry.{LogEntry}
use enclave_raft.Entry.RoundTrip.{entry_bytes, length-entry_bytes, serialize_lem}
use enclave_raft.LogStore.{LogStore, find, pack_entries, put_entries, pack}
use enclave_raft.LogStore.View.{store, find-store, drop_cons}

-- An entry in a pack: its size and its bytes.
abbrev pub item_bytes : LogEntry → List ℕ
item_bytes e = int_bytes (length (entry_bytes e)) ++ entry_bytes e

abbrev pub items : List LogEntry → List ℕ
items es = all_bytes item_bytes es

-- The pack: the number of entries, and the entries.
abbrev pub pack_bytes : List LogEntry → List ℕ
pack_bytes es = int_bytes (length es) ++ items es

length-item_bytes : (e : LogEntry) → length (item_bytes e) ≡ 4 + length (entry_bytes e)
length-item_bytes e = omega (
  arith,
  length-append (int_bytes (length (entry_bytes e))) (entry_bytes e),
  length-write_loop 4 0 (length (entry_bytes e)),
)

pub length-items :
    (es : List LogEntry) → length (items es) ≡ 4 * length es + length (all_bytes entry_bytes es)
length-items [] = omega arith
length-items (e ∷ es) = omega (
  arith,
  length-items es,
  length-append (item_bytes e) (items es),
  length-append (entry_bytes e) (all_bytes entry_bytes es),
  length-item_bytes e,
)

pack_step :
    (raw : ℕ → ℕ) (n i : ℕ) (s : LogStore) (e : LogEntry) (b : Buffer) (bs : List Buffer)
    → find i s.logs ≡ some e
    → Entry.serialize raw e ≡ ok b
    → pack_entries raw n (suc i) s ≡ ok bs
    → pack_entries raw (suc n) i s ≡ ok (b ∷ bs)
unfolding pack_entries
pack_step raw n i s e b bs p q r = rw (p, pack_entries) (rw q (rw r refl))

pack_entries-store :
    (raw : ℕ → ℕ) (d : LogEntry) (st : ℕ) (es : List LogEntry) (n j : ℕ)
    → 1 ≤ st
    → j + n ≤ length es
    → length (all_bytes entry_bytes (take n (drop j es))) < max_size
    → pack_entries raw n (st + j) (store d st es) ≡ ok (cursors entry_bytes (take n (drop j es)))
pack_entries-store raw d st es zero j h g k = unfold pack_entries in refl
pack_entries-store raw d st es (suc n) j h g k =
    let (e, at_j, split) = drop_cons j es (omega arith) in
    let small : length (all_bytes entry_bytes (take (suc n) (e ∷ drop (suc j) es))) < max_size =
      rw split at k in
    let both = length-append (entry_bytes e) (all_bytes entry_bytes (take n (drop (suc j) es))) in
    pack_step raw n (st + j) (store d st es) e (cursor [] (entry_bytes e))
      (cursors entry_bytes (take n (drop (suc j) es))) (find-store d st es j h ∙ at_j)
      (serialize_lem raw e (omega (arith, small, both)))
      (ap (λ (i : ℕ). pack_entries raw n i (store d st es)) (omega arith)
        ∙ pack_entries-store raw d st es n (suc j) h (omega arith) (omega (arith, small, both)))
    ∙ ap (λ (l : List LogEntry). ok (cursors entry_bytes (take (suc n) l))) (sym split)

put_step :
    (x : LogEntry) (es : List LogEntry) (front : List ℕ) (m : ℕ) (r : Result Buffer)
    → length (entry_bytes x) < 2 ^ 32
    → Wrote (front ++ int_bytes (length (entry_bytes x)) ++ entry_bytes x ++ items es) m (
        r
        >>= put_int (length (entry_bytes x))
        >>= put_buffer (cursor [] (entry_bytes x))
        >>= put_entries (cursors entry_bytes es))
    → Wrote (front ++ items (x ∷ es)) m (r >>= put_entries (cursors entry_bytes (x ∷ es)))
unfolding put_entries
put_step x es front m r f next = (
  next.0,
  next.1,
  rw same at (next.2),
  split r ∙ next.3 ∙ ap (λ (l : List ℕ). ok (cursor l next.0)) same,
)
  where
    word : length (entry_bytes x) % 2 ^ 32 ≡ length (entry_bytes x)
    word = omega (arith, f)

    split :
        (q : Result Buffer)
        → (q >>= put_entries (cursors entry_bytes (x ∷ es))) ≡ (
            q
            >>= put_int (length (entry_bytes x))
            >>= put_buffer (cursor [] (entry_bytes x))
            >>= put_entries (cursors entry_bytes es))
    split (ok b) = rw word refl
    split (err e) = refl

    same :
        front ++ int_bytes (length (entry_bytes x)) ++ entry_bytes x ++ items es
        ≡ front ++ items (x ∷ es)
    same = simp append_assoc

-- The second loop: the sizes and the entries, behind what is written.
put_entries-Wrote :
    (es : List LogEntry) (front : List ℕ) (m : ℕ) (r : Result Buffer)
    → length (items es) < max_size
    → Wrote front (length (items es) + m) r
    → Wrote (front ++ items es) m (r >>= put_entries (cursors entry_bytes es))
unfolding put_entries
put_entries-Wrote [] front m r f (rest, room, fits, e) =
    (rest, omega (arith, room), rw append-nil (omega (arith, fits)), rw (e, append-nil) refl)
put_entries-Wrote (x ∷ es) front m r f w = put_step x es front m r (omega (arith, f, both)) (
    put_entries-Wrote es (front ++ int_bytes (length (entry_bytes x)) ++ entry_bytes x) m
      (r >>= put_int (length (entry_bytes x)) >>= put_buffer (cursor [] (entry_bytes x)))
      (omega (arith, f, both))
      (put_buffer-Wrote (cursor [] (entry_bytes x)) (front ++ int_bytes (length (entry_bytes x)))
        (length (items es) + m) (r >>= put_int (length (entry_bytes x)))
        (put_int-Wrote (length (entry_bytes x)) front
          (length (entry_bytes x) + (length (items es) + m)) r
          (subst (λ (n : ℕ). Wrote front n r) (omega (arith, both)) w))))
  where
    both : length (items (x ∷ es)) ≡ 4 + length (entry_bytes x) + length (items es)
    both = omega (arith, length-append (item_bytes x) (items es), length-item_bytes x)

end-Wrote : (front : List ℕ) (r : Result Buffer) → Wrote front 0 r → r ≡ ok (cursor front [])
end-Wrote front r (rest, room, fits, e) = rw (length-eq-zero rest room) at e

write_pack :
    (raw : ℕ → ℕ) (es : List LogEntry) (n : ℕ)
    → length es ≡ n
    → length (pack_bytes es) < max_size
    → (alloc raw (4 + n * 4 + total_size (cursors entry_bytes es))
        >>= put_int (n % 2 ^ 32)
        >>= put_entries (cursors entry_bytes es))
      ≡ ok (cursor (pack_bytes es) [])
write_pack raw es n e h = end-Wrote (pack_bytes es) _ (
    put_entries-Wrote es (int_bytes (length es)) 0 _ (omega (arith, h, whole)) (
      subst
        (λ (k : ℕ).
          Wrote (int_bytes (length es)) (length (items es) + 0) (alloc raw room >>= put_int k))
        word
        (put_int-Wrote (length es) [] (length (items es) + 0) _ (
          alloc-Wrote raw room _
            (omega (arith, e, length-items es, total_size-cursors entry_bytes es))
            (omega (arith, h, whole))))))
  where
    room : ℕ
    room = 4 + n * 4 + total_size (cursors entry_bytes es)

    whole : length (pack_bytes es) ≡ 4 + length (items es)
    whole =
        omega (
          arith,
          length-append (int_bytes (length es)) (items es),
          length-write_loop 4 0 (length es),
        )

    word : length es ≡ n % 2 ^ 32
    word = omega (arith, e, h, whole, length-items es)

-- The pack of entries inside a log that starts at 1 or later is their number and the entries, whatever
-- the fresh memory held, if it fits a buffer; it is left at its end.
pub pack-store :
    (raw : ℕ → ℕ) (d : LogEntry) (st : ℕ) (es : List LogEntry) (j n : ℕ)
    → 1 ≤ st
    → j + n ≤ length es
    → length (pack_bytes (take n (drop j es))) < max_size
    → pack raw (st + j) n (store d st es) ≡ ok (cursor (pack_bytes (take n (drop j es))) [])
unfolding pack
pack-store raw d st es j n h g k =
    rw
      (pack_entries-store raw d st es n j h g (
        omega (
          arith,
          k,
          length-items (take n (drop j es)),
          length-append (int_bytes (length (take n (drop j es)))) (items (take n (drop j es))),
        )))
      (write_pack raw (take n (drop j es)) n
        (omega (arith, g, length-take_le n (drop j es), length-drop j es)) k)
