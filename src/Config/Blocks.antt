-- ===== src/Config/Blocks.antt =====
-- Blocks of bytes that are put into a buffer one behind the other.
use enclave_raft.Prelude.{
  ℕ, ◌+◌, ◌≡◌, refl, ap, ◌∙◌, subst, List, [], ◌∷◌, ◌++◌, length, length-append, arith, >>=_assoc,
  Result, ok, ◌>>=◌, append-nil, append_assoc,
}
use enclave_raft.Buffer.{Buffer, put_buffer}
use enclave_raft.Buffer.Cursor.{cursor}
use enclave_raft.Buffer.Writes.{Wrote, put_buffer-Wrote}
use enclave_raft.Config.{total_size, put_all}

module _ {A : Type 0} (bytes : A → List ℕ) where
  abbrev pub all_bytes : List A → List ℕ
  all_bytes [] = []
  all_bytes (s ∷ ss) = bytes s ++ all_bytes ss

  abbrev pub cursors : List A → List Buffer
  cursors [] = []
  cursors (s ∷ ss) = cursor [] (bytes s) ∷ cursors ss

  pub total_size-cursors : (ss : List A) → total_size (cursors ss) ≡ length (all_bytes ss)
  total_size-cursors [] = refl
  total_size-cursors (s ∷ ss) =
      omega (arith, total_size-cursors ss, length-append (bytes s) (all_bytes ss))

  -- The loop after its first round.
  pub put_all_step :
      (s : A) (ss : List A) (front : List ℕ) (m : ℕ) (r : Result Buffer)
      → Wrote
          (front ++ bytes s ++ all_bytes ss)
          m
          (r >>= put_buffer (cursor [] (bytes s)) >>= put_all (cursors ss))
      → Wrote (front ++ all_bytes (s ∷ ss)) m (r >>= put_all (cursors (s ∷ ss)))
  unfolding put_all
  put_all_step s ss front m r next = (
    next.0,
    next.1,
    rw same at (next.2),
    >>=_assoc r (put_buffer (cursor [] (bytes s))) (put_all (cursors ss))
        ∙ next.3
        ∙ ap (λ (l : List ℕ). ok (cursor l next.0)) same,
  )
    where
      same : front ++ bytes s ++ all_bytes ss ≡ front ++ all_bytes (s ∷ ss)
      same = append_assoc front (bytes s) (all_bytes ss)

  pub put_all-Wrote :
      (ss : List A) (front : List ℕ) (m : ℕ) (r : Result Buffer)
      → Wrote front (length (all_bytes ss) + m) r
      → Wrote (front ++ all_bytes ss) m (r >>= put_all (cursors ss))
  unfolding put_all
  put_all-Wrote [] front m r (rest, room, fits, e) =
      (rest, omega (arith, room), rw append-nil (omega (arith, fits)), rw (e, append-nil) refl)
  put_all-Wrote (s ∷ ss) front m r w = put_all_step s ss front m r (
      put_all-Wrote ss (front ++ bytes s) m (r >>= put_buffer (cursor [] (bytes s))) (
        put_buffer-Wrote (cursor [] (bytes s)) front (length (all_bytes ss) + m) r
          (subst (λ (n : ℕ). Wrote front n r) room w)))
    where
      room : length (all_bytes (s ∷ ss)) + m ≡ length (bytes s) + (length (all_bytes ss) + m)
      room = omega (arith, length-append (bytes s) (all_bytes ss))
