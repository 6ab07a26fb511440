-- ===== src/Server/Requests/Merge.antt =====
-- What a request of a leader makes of the log: the entries that the log has already stay, and from
-- the first that it has not the log is that of the request.
use enclave_raft.Prelude.{
  append_assoc, append-nil, take_all, drop_all, length-take_le, ℕ, suc, ◌+◌, ◌≤◌, ◌<◌, ◌≡◌, refl,
  ap, ◌∙◌, sym, true, false, Bool-cases, inl, inr, some, List, [], ◌∷◌, ◌++◌, ok, arith, ltb,
  length, take, drop, map, subst, ltb→lt, lt→ltb, length-append, length-drop,
}
use enclave_raft.Entry.{LogEntry}
use enclave_raft.LogStore.{LogStore, next_slot, term_at, make_clone}
use enclave_raft.LogStore.View.{
  store, next_slot-store, append-store, write_at-store, entry_at-store, drop_cons,
}
use enclave_raft.Server.State.{Server}
use enclave_raft.Server.Monad.{M, ◌>>=◌, ◌>>◌}
use enclave_raft.Server.Elect.{append_entry}
use enclave_raft.Server.Requests.{
  skip_matching, revert, announce, overwrite_entry, overwrite, append_rest, write_entries,
}
use enclave_raft.Server.Requests.Overlap.{agree, merge, cut, agree_le, cut-merge}

-- The operation succeeds with `a` and leaves the log.
abbrev pub Leaves : {A : Type 0} → M A → Server → A → LogStore → Type 0
Leaves m s a log = ((m s).0 ≡ ok a) × ((m s).1.log_store ≡ log)

bind-Leaves :
    {A B : Type 0} (m : M A) (f : A → M B) (s : Server) (a : A) (b : B) (l l' : LogStore)
    → Leaves m s a l
    → ((t : Server) → t.log_store ≡ l → Leaves (f a) t b l')
    → Leaves (m >>= f) s b l'
bind-Leaves m f s a b l l' (h, k) g = rw h (g (m s).1 k)

append_entry-Leaves :
    (d : LogEntry) (st : ℕ) (es : List LogEntry) (e : LogEntry) (s : Server)
    → 1 ≤ st
    → s.log_store ≡ store d st es
    → Leaves (append_entry e) s (st + length es) (store d st (es ++ (make_clone e ∷ [])))
unfolding append_entry
append_entry-Leaves d st es e s h k = rw k (rw (append-store d st es e h) (refl, refl))

announce-Leaves : (i : ℕ) (e : LogEntry) (s : Server) → Leaves (announce i e) s tt (s.log_store)
unfolding announce
announce-Leaves i e s = ground arith

revert-Leaves : (i : ℕ) (e : LogEntry) (s : Server) → Leaves (revert i e) s tt (s.log_store)
unfolding revert
revert-Leaves i e s = ground arith

append_rest-Leaves :
    (d : LogEntry) (st : ℕ) (es left : List LogEntry) (s : Server)
    → 1 ≤ st
    → s.log_store ≡ store d st es
    → Leaves (append_rest left) s tt (store d st (es ++ map make_clone left))
unfolding append_rest
append_rest-Leaves d st es [] s h k = (refl, k ∙ ap (store d st) (sym (append-nil es)))
append_rest-Leaves d st es (e ∷ left) s h k =
    bind-Leaves (append_entry e) (λ i. announce i e >> append_rest left) s (st + length es) tt
      (store d st es') whole (append_entry-Leaves d st es e s h k)
      (λ t l.
        bind-Leaves (announce (st + length es) e) (λ _. append_rest left) t tt tt (t.log_store)
          whole (announce-Leaves (st + length es) e t)
          (λ u m.
            subst (λ (fs : List LogEntry). Leaves (append_rest left) u tt (store d st fs))
              (append_assoc es (make_clone e ∷ []) (map make_clone left))
              (append_rest-Leaves d st es' left u h (m ∙ l))))
  where
    es' : List LogEntry
    es' = es ++ (make_clone e ∷ [])

    whole : LogStore
    whole = store d st (es ++ (make_clone e ∷ map make_clone left))

skip_matching-store :
    (d : LogEntry) (st : ℕ) (es new : List LogEntry) (j i : ℕ)
    → 1 ≤ st
    → j ≤ length es
    → i ≡ st + j
    → skip_matching (store d st es) i new
      ≡ some (i + agree (drop j es) new, drop (agree (drop j es) new) new)
unfolding skip_matching agree
skip_matching-store d st es [] j i h g q = ground arith
skip_matching-store d st es (e ∷ new) j i h g q = elim (Bool-cases (ltb j (length es))) [
  | inl l ↦
      (let (x, found, split) = drop_cons j es (ltb→lt j (length es) l) in
        let inside =
          lt→ltb i (next_slot (store d st es))
            (omega (arith, next_slot-store d st es, ltb→lt j (length es) l)) in
        let rest =
          skip_matching-store d st es new (suc j) (i + 1) h (omega (arith, ltb→lt j (length es) l))
            (omega arith) in
        let term =
          ap (λ (k : ℕ). term_at k (store d st es)) q ∙ (entry_at-store d st es j h found).1 in
        rw split (rw inside (rw term (ground (arith, rest)))))
  | inr l ↦ rw (drop_all j es (ground arith)) (rw q (ground (arith, next_slot-store d st es)))
]

overwrite_entry-Leaves :
    (d : LogEntry) (st : ℕ) (es : List LogEntry) (k i : ℕ) (e : LogEntry) (s : Server)
    → 1 ≤ st
    → k < length es
    → i ≡ st + k
    → s.log_store ≡ store d st es
    → Leaves (overwrite_entry i e) s tt (store d st (take k es ++ (make_clone e ∷ [])))
unfolding overwrite_entry revert announce
overwrite_entry-Leaves d st es k i e s h g q l =
    let (x, found, split) = drop_cons k es g in
    rw q (
      rw l (
        ground (
          arith,
          (entry_at-store d st es k h found).0,
          write_at-store d st es k e h (omega arith),
        )))

-- Past the end of the log nothing is overwritten.
overwrite-end :
    (i : ℕ) (es : List LogEntry) (s : Server)
    → next_slot s.log_store ≤ i
    → overwrite i es s ≡ (ok es, s)
unfolding overwrite
overwrite-end i [] s h = refl
overwrite-end i (e ∷ es) s h = ground arith

-- One entry is overwritten, since the rest of the log goes with it.
overwrite-Leaves :
    (d : LogEntry) (st : ℕ) (es : List LogEntry) (k i : ℕ) (e : LogEntry) (left : List LogEntry)
    (s : Server)
    → 1 ≤ st
    → k < length es
    → i ≡ st + k
    → s.log_store ≡ store d st es
    → Leaves (overwrite i (e ∷ left)) s left (store d st (take k es ++ (make_clone e ∷ [])))
unfolding overwrite
overwrite-Leaves d st es k i e left s h g q l = rw below (
    bind-Leaves (overwrite_entry i e) (λ _. overwrite (i + 1) left) s tt left es' es'
      (overwrite_entry-Leaves d st es k i e s h g q l)
      (λ t m. rw (overwrite-end (i + 1) left t (above t m)) (refl, m)))
  where
    es' : LogStore
    es' = store d st (take k es ++ (make_clone e ∷ []))

    below : ltb i (next_slot s.log_store) ≡ true
    below = rw l (lt→ltb i (next_slot (store d st es)) (omega (arith, next_slot-store d st es)))

    above : (t : Server) → t.log_store ≡ es' → next_slot t.log_store ≤ i + 1
    above t m = rw m (
        omega (
          arith,
          next_slot-store d st (take k es ++ (make_clone e ∷ [])),
          length-append (take k es) (make_clone e ∷ []),
          length-take_le k es (omega arith),
        ))

-- The second and the third loop.
rest-Leaves :
    (d : LogEntry) (st : ℕ) (es : List LogEntry) (k i : ℕ) (left : List LogEntry) (s : Server)
    → 1 ≤ st
    → k ≤ length es
    → i ≡ st + k
    → s.log_store ≡ store d st es
    → Leaves (overwrite i left >>= append_rest) s tt (store d st (cut k es left))
unfolding overwrite append_rest
rest-Leaves d st es k i [] s h g q l = (refl, l)
rest-Leaves d st es k i (e ∷ left) s h g q l = elim (Bool-cases (ltb k (length es))) [
  | inl b ↦
      bind-Leaves (overwrite i (e ∷ left)) append_rest s left tt
        (store d st (take k es ++ (make_clone e ∷ []))) (store d st (cut k es (e ∷ left)))
        (overwrite-Leaves d st es k i e left s h (ltb→lt k (length es) b) q l)
        (λ t m.
          subst (λ (fs : List LogEntry). Leaves (append_rest left) t tt (store d st fs))
            (append_assoc (take k es) (make_clone e ∷ []) (map make_clone left))
            (append_rest-Leaves d st (take k es ++ (make_clone e ∷ [])) left t h m))
  | inr b ↦
      rw (overwrite-end i (e ∷ left) s (rw l (end b)))
        (rw (take_all k es (ground arith)) (append_rest-Leaves d st es (e ∷ left) s h l))
]
  where
    end : ltb k (length es) ≡ false → next_slot (store d st es) ≤ i
    end b = ground (arith, next_slot-store d st es)

-- Entries that are written behind the first `j` of a log that starts at 1 or later are written without
-- an exception: those `j` stay, and behind them the log is `merge` of what it was and the entries.
pub write_entries-store :
    (d : LogEntry) (st : ℕ) (es : List LogEntry) (j : ℕ) (new : List LogEntry) (s : Server)
    → 1 ≤ st
    → j ≤ length es
    → s.log_store ≡ store d st es
    → Leaves (write_entries (st + j) new) s tt (store d st (take j es ++ merge (drop j es) new))
unfolding write_entries
write_entries-store d st es j new s h g l = rw (found) (
    (subst
      (λ (fs : List LogEntry).
        Leaves (overwrite (st + j + n) (drop n new) >>= append_rest) s tt (store d st fs))
      (cut-merge es new j)
      (rest-Leaves d st es (j + n) (st + j + n) (drop n new) s h inside (omega arith) l)))
  where
    n : ℕ
    n = agree (drop j es) new

    found : skip_matching s.log_store (st + j) new ≡ some (st + j + n, drop n new)
    found = rw l (skip_matching-store d st es new j (st + j) h g refl)

    inside : j + n ≤ length es
    inside = omega (arith, agree_le (drop j es) new, length-drop j es)
