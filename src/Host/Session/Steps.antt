-- ===== src/Host/Session/Steps.antt =====
-- One read of the session: it answers the frames that are complete.
use enclave_raft.Prelude.{
  ℕ, zero, suc, ◌≤◌, ◌<◌, ◌≡◌, refl, ap, subst, Option, none, some, List, [], ◌∷◌, ◌++◌, ltb,
  if◌then◌else◌, length, length-append, length-drop, take, drop, take-append, drop-append, Result,
  Error, ok, err, arith, append-nil, ◌∙◌, sym, ◌⊎◌, inl, inr, Bool-cases, ltb→lt, ltb→ge,
}
use enclave_raft.Host.Session.{
  Session, RequestHandler, header, payload, writing, stopped, word_of, framed, stop, write_response,
  handle_request, handle_request_header, written, finish, bytes_read, receive,
}
use enclave_raft.Host.Session.Frames.{wait, frame, frame_partial, frame_whole, length-frame}
use enclave_raft.Host.Session.Waiting.{
  Waits, at_header, at_payload, Ends, Brings, finish_idle, reply-Ends, refuse-Ends, header-Ends,
  written-Ends, cleared-Ends, body, asked, payload_of, behind,
}

answer-cases :
    (r : Result (Option (List ℕ)))
    → ((bs : List ℕ) × (r ≡ ok (some bs))) ⊎ ((r ≡ ok none) ⊎ ((x : Error) × (r ≡ err x)))
answer-cases (err x) = inr (inr (x, refl))
answer-cases (ok none) = inr (inl refl)
answer-cases (ok (some bs)) = inl (bs, refl)

module _ {A : Type 0} (handler : RequestHandler A) where
  -- A request in the buffer is answered, and the writes after it go on with what is behind it.
  handle-Ends :
      (n : ℕ) (u : List ℕ) (s : Session A) (k : ℕ) (q : List ℕ)
      → frame u ≡ some (take k q, drop k q)
      → length (drop k q) < n
      → Ends handler s
          (finish handler n (handle_request handler (record s { payload_size = k; request = q })))
          u
  unfolding handle_request write_response stop finish written
  handle-Ends zero u s k q f h = absurd (omega arith)
  handle-Ends (suc n) u s k q f h = elim (answer-cases answer.0) [
    | inl (r, e) ↦
        rw (e, handle_request)
          (reply-Ends handler u _ rest r s (after r) _ f (paired e) refl (
            written-Ends handler n (after r) (λ fr.
              handle-Ends n rest (after r) (asked (after r)) (body (after r)) fr
                (omega (arith, length-frame rest _ (behind (after r)) fr, h)))))
    | inr (inl e) ↦
        rw (e, handle_request)
          (refuse-Ends handler u _ rest (ok none) s halt f (paired e) (λ r z. cc) refl refl)
    | inr (inr (x, e)) ↦
        rw (e, handle_request)
          (refuse-Ends handler u _ rest (err x) s halt f (paired e) (λ r z. cc) refl refl)
  ]
    where
      answer : Result (Option (List ℕ)) × A
      answer = handler (take k q) s.host

      paired : {x : Result (Option (List ℕ))} → answer.0 ≡ x → answer ≡ (x, answer.1)
      paired e = ap (λ (x : Result (Option (List ℕ))). (x, answer.1)) e

      rest : List ℕ
      rest = drop k q

      halt : Session A
      halt = record {
        phase = stopped;
        payload_size = k;
        request = rest;
        host = answer.1;
        sent = s.sent;
      }

      after : List ℕ → Session A
      after r = record {
        phase = writing;
        payload_size = 0;
        request = rest;
        host = answer.1;
        sent = s.sent ++ (framed r ∷ []);
      }

  bytes_read_header :
      (s : Session A) → s.phase ≡ header → bytes_read handler s ≡ handle_request_header handler s
  unfolding bytes_read
  bytes_read_header s e = ground arith

  bytes_read_payload :
      (s : Session A)
      → s.phase ≡ payload
      → bytes_read handler s
        ≡ (if ltb (length s.request) s.payload_size then s else handle_request handler s)
  unfolding bytes_read
  bytes_read_payload s e = ground arith

  -- A read that brings enough: the session answers what is complete of `u` and the new bytes.
  pub receive-Ends :
      (s : Session A) (u bs : List ℕ)
      → Waits s u
      → Brings s bs
      → Ends handler s (receive handler bs s) (u ++ bs)
  unfolding receive
  receive-Ends s u bs (at_header e f h) b =
      subst (λ v. Ends handler s (receive handler bs s) (v ++ bs)) f
        (rw (bytes_read_header more e) (
          cleared-Ends handler s s.phase s.payload_size (s.request ++ bs) (
            header-Ends handler (length more.request) more
              (omega (arith, b e, length-append s.request bs))
              (λ fr.
                handle-Ends (length more.request) more.request more (asked more) (body more) fr
                  (omega (arith, length-frame more.request (payload_of more) (behind more) fr))))))
    where
      more : Session A
      more = record s { request = s.request ++ bs }
  receive-Ends s u bs (at_payload e f g h l) b =
      rw (bytes_read_payload more e) (elim (Bool-cases (ltb (length more.request) s.payload_size)) [
        | inl c ↦ rw c (
            rw (finish_idle handler (length more.request) payload more e (λ q. cc)) (record {
              answers = [];
              left = some (u ++ bs);
              serves = wait (
                  frame_partial (u ++ bs) s.payload_size more.request longer word tail
                    (ltb→lt (length more.request) s.payload_size c));
              written_down = sym (append-nil s.sent);
              left_over =
                  at_payload e tail word (ltb→lt (length more.request) s.payload_size c) longer;
            }))
        | inr c ↦ rw c (
            cleared-Ends handler s s.phase s.payload_size (s.request ++ bs) (
              handle-Ends (length more.request) (u ++ bs) more s.payload_size more.request
                (frame_whole (u ++ bs) s.payload_size more.request longer word tail
                  (ltb→ge (length more.request) s.payload_size c))
                (omega (
                  arith,
                  h,
                  ltb→ge (length more.request) s.payload_size c,
                  length-drop s.payload_size more.request,
                ))))
      ])
    where
      more : Session A
      more = record s { request = s.request ++ bs }

      longer : 4 ≤ length (u ++ bs)
      longer = omega (arith, length-append u bs)

      tail : drop 4 (u ++ bs) ≡ s.request ++ bs
      tail = drop-append 4 u bs l ∙ ap (λ (v : List ℕ). v ++ bs) f

      word : word_of (take 4 (u ++ bs)) ≡ s.payload_size
      word = ap word_of (take-append 4 u bs l) ∙ g
