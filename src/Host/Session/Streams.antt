-- ===== src/Host/Session/Streams.antt =====
-- However the network cuts a stream, the session answers the requests of the whole of it.
use enclave_raft.Prelude.{
  ℕ, suc, ◌≡◌, refl, ap, subst, Bool, true, false, Option, none, some, List, [], ◌∷◌, ◌++◌, length,
  arith, append_assoc, append-nil, ◌∙◌, sym,
}
use enclave_raft.Host.Session.{
  Session, RequestHandler, Phase, header, payload, writing, stopped, open_session, finish,
  bytes_read, receive, receive_all,
}
use enclave_raft.Host.Session.Frames.{
  wait, frame, frame_partial, frame_short, serve, Serves, serve-Serves, Serves-append, Serves-ended,
  is_open,
}
use enclave_raft.Host.Session.Waiting.{
  Waits, at_header, at_payload, Left, Ends, Brings, finish_idle,
}
use enclave_raft.Host.Session.Steps.{receive-Ends}

-- The pieces of a stream behind one another.
abbrev pub concat {ℓ} : {A : Type ℓ} → List (List A) → List A
concat [] = []
concat (x ∷ xs) = x ++ concat xs

abbrev is_running : Phase → Bool
is_running stopped = false
is_running header = true
is_running payload = true
is_running writing = true

module _ {A : Type 0} where
  -- The host, what is written, and whether the session is open.
  abbrev pub outcome : Session A → A × List (List ℕ) × Bool
  outcome s = (s.host, s.sent, is_running s.phase)

  -- The session has stopped, with nothing more done.
  abbrev Halted : Session A → Session A → Type 0
  Halted s t = (t.host ≡ s.host) × (t.sent ≡ s.sent) × (t.phase ≡ stopped)

module _ {A : Type 0} (handler : RequestHandler A) where
  abbrev pub Delivers : List (List ℕ) → Session A → Type 0
  Delivers [] s = Unit {0}
  Delivers (bs ∷ rest) s = Brings s bs × Delivers rest (receive handler bs s)

  frame-Waits : (s : Session A) (u : List ℕ) → Waits s u → frame u ≡ none
  frame-Waits s u (at_header e f h) = frame_short u h
  frame-Waits s u (at_payload e f g h l) = frame_partial u s.payload_size s.request l g f h

  -- A session that has stopped does nothing more.
  receive_stopped :
      (bs : List ℕ) (s : Session A)
      → s.phase ≡ stopped
      → receive handler bs s ≡ record s { request = s.request ++ bs }
  unfolding receive bytes_read
  receive_stopped bs s e =
      ap (finish handler (length more.request)) idle
      ∙ finish_idle handler (length more.request) stopped more e (λ q. cc)
    where
      more : Session A
      more = record s { request = s.request ++ bs }

      idle : bytes_read handler more ≡ more
      idle = ground arith

  receive_all_stopped :
      (cs : List (List ℕ)) (s t : Session A)
      → t.host ≡ s.host
      → t.sent ≡ s.sent
      → t.phase ≡ stopped
      → Halted s (receive_all handler cs t)
  unfolding receive_all
  receive_all_stopped [] s t eh es ep = (eh, es, ep)
  receive_all_stopped (bs ∷ cs) s t eh es ep =
      rw (receive_stopped bs t ep, receive_all)
        (receive_all_stopped cs s (record t { request = t.request ++ bs }) eh es ep)

  -- One more read, by what is left of the reads before.
  more-Ends :
      (s t t' : Session A) (u d : List ℕ) (sent : List (List ℕ)) (left : Option (List ℕ))
      → Serves handler u s.host t.host sent left
      → t.sent ≡ s.sent ++ sent
      → Left t left
      → ((v : List ℕ) → Waits t v → Ends handler t t' (v ++ d))
      → (t.phase ≡ stopped → Halted t t')
      → Ends handler s t' (u ++ d)
  more-Ends s t t' u d sent none se es le go halt =
      let (eh, et, ep) = halt le in
      record {
        answers = sent;
        left = none;
        serves =
            subst (λ b. Serves handler (u ++ d) s.host b sent none) (sym eh)
              (Serves-ended handler d se);
        written_down = et ∙ es;
        left_over = ep;
      }
  more-Ends s t t' u d sent (some v) se es le go halt =
      let w = go v le in
      record {
        answers = sent ++ w.answers;
        left = w.left;
        serves = Serves-append handler d se w.serves;
        written_down = w.written_down ∙ rw (es, append_assoc s.sent sent w.answers) refl;
        left_over = w.left_over;
      }

  receive_all-Ends :
      (cs : List (List ℕ)) (s : Session A) (u : List ℕ)
      → Waits s u
      → Delivers cs s
      → Ends handler s (receive_all handler cs s) (u ++ concat cs)
  unfolding receive_all
  receive_all-Ends [] s u w d = rw (append-nil u) (record {
    answers = [];
    left = some u;
    serves = wait (frame-Waits s u w);
    written_down = sym (append-nil s.sent);
    left_over = w;
  })
  receive_all-Ends (bs ∷ cs) s u w d =
      let v = receive-Ends handler s u bs w d.0 in
      subst (λ x. Ends handler s (receive_all handler cs (receive handler bs s)) x)
        (append_assoc u bs (concat cs))
        (more-Ends s (receive handler bs s) (receive_all handler cs (receive handler bs s))
          (u ++ bs) (concat cs) v.answers v.left v.serves v.written_down v.left_over
          (λ x wx. receive_all-Ends cs (receive handler bs s) x wx d.1)
          (receive_all_stopped cs (receive handler bs s) (receive handler bs s) refl refl))

  running :
      (s : Session A) (left : Option (List ℕ)) → Left s left → is_running s.phase ≡ is_open left
  running s none e = rw e refl
  running s (some v) (at_header e f h) = rw e refl
  running s (some v) (at_payload e f g h l) = rw e refl

  -- Whatever pieces a stream comes in, each read with what it asks for, the session has written the
  -- answers to the frames of the whole stream, in order, has brought the host where they bring it,
  -- and is open exactly if each was answered by a response.
  pub receive_all-serve :
      (cs : List (List ℕ)) (a : A)
      → Delivers cs (open_session a)
      → outcome (receive_all handler cs (open_session a))
        ≡ serve handler (suc (length (concat cs))) (concat cs) a
  unfolding open_session
  receive_all-serve cs a d = rw (end.written_down) (
      rw (running _ end.left end.left_over)
        (sym (serve-Serves handler (suc (length (concat cs))) end.serves (omega arith))))
    where
      end : Ends handler (open_session a) (receive_all handler cs (open_session a)) (concat cs)
      end = receive_all-Ends cs (open_session a) [] (at_header refl refl (omega arith)) d
