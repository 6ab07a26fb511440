-- ===== src/Host/Session/Waiting.antt =====
-- What the session waits for, and what the answer to one frame makes of it.
use enclave_raft.Prelude.{
  ℕ, zero, suc, ◌-◌, ◌≤◌, ◌<◌, ◌≡◌, ◌≢◌, refl, Option, none, some, List, [], ◌∷◌, ◌++◌, ltb, leb,
  length, take, drop, Result, ok, arith, append_assoc, append-nil, ◌∙◌, sym, inl, inr, Bool-cases,
  ltb→lt, ltb→ge, leb→le, leb→gt,
}
use enclave_raft.Host.Session.{
  Session, RequestHandler, Phase, header, payload, writing, stopped, word_of, request_header_size,
  framed, handle_request, handle_request_header, written, finish,
}
use enclave_raft.Host.Session.Frames.{
  wait, refuse, reply, frame, frame_partial, frame_whole, frame_short, Serves,
}

module _ {A : Type 0} where
  -- The session waits, and `u` is what it has of the next frame.
  pub data Waits (s : Session A) (u : List ℕ) : Type 0 where
    at_header : s.phase ≡ header → s.request ≡ u → length u < 4 → Waits s u
    at_payload :
        s.phase ≡ payload
        → drop 4 u ≡ s.request
        → word_of (take 4 u) ≡ s.payload_size
        → length s.request < s.payload_size
        → 4 ≤ length u
        → Waits s u

  abbrev pub Left : Session A → Option (List ℕ) → Type 0
  Left s none = s.phase ≡ stopped
  Left s (some v) = Waits s v

  -- From `s`, with `u` to read, the session comes to `t`.
  pub record Ends (handler : RequestHandler A) (s t : Session A) (u : List ℕ) : Type 0 where
    pub answers : List (List ℕ)
    pub left : Option (List ℕ)
    pub serves : Serves handler u s.host t.host answers left
    pub written_down : t.sent ≡ s.sent ++ answers
    pub left_over : Left t left

  -- A read brings what was asked for: a header's missing bytes, or one byte of a payload.
  abbrev pub Brings : Session A → List ℕ → Type 0
  Brings s bs = s.phase ≡ header → request_header_size - length s.request ≤ length bs

module _ {A : Type 0} where
  abbrev pub body : Session A → List ℕ
  body s = drop 4 s.request

  abbrev pub asked : Session A → ℕ
  asked s = word_of (take 4 s.request)

  abbrev pub payload_of : Session A → List ℕ
  payload_of s = take (asked s) (body s)

  abbrev pub behind : Session A → List ℕ
  behind s = drop (asked s) (body s)

  -- The session once the header is read.
  abbrev pub held : Session A → Session A
  held s = record s { payload_size = asked s; request = body s }

  abbrev pub cleared : Session A → Session A
  cleared s = record s { payload_size = 0 }

module _ {A : Type 0} (handler : RequestHandler A) where
  pub finish_idle :
      (n : ℕ) (ph : Phase) (s : Session A) → s.phase ≡ ph → ph ≢ writing → finish handler n s ≡ s
  unfolding finish
  finish_idle zero ph s e h = refl
  finish_idle (suc n) header s e h = ground arith
  finish_idle (suc n) payload s e h = ground arith
  finish_idle (suc n) stopped s e h = ground arith
  finish_idle (suc n) writing s e h = absurd (h refl)

  -- A frame in the buffer is answered, given that a further write goes on as it should.
  pub header-Ends :
      (n : ℕ) (s : Session A)
      → 4 ≤ length s.request
      → (frame s.request ≡ some (payload_of s, behind s)
          → Ends handler s (finish handler n (handle_request handler (held s))) s.request)
      → Ends handler s (finish handler n (handle_request_header handler s)) s.request
  unfolding handle_request_header
  header-Ends n s h go = elim (Bool-cases (ltb (length (body s)) (asked s))) [
    | inl e ↦
        rw (e, finish_idle n payload waiting refl (λ q. cc))
          (record {
            answers = [];
            left = some s.request;
            serves = wait (
                frame_partial s.request (asked s) (body s) h refl refl
                  (ltb→lt (length (body s)) (asked s) e));
            written_down = sym (append-nil s.sent);
            left_over = at_payload refl refl refl (ltb→lt (length (body s)) (asked s) e) h;
          })
    | inr e ↦ rw e (
        go (
          frame_whole s.request (asked s) (body s) h refl refl
            (ltb→ge (length (body s)) (asked s) e)))
  ]
    where
      waiting : Session A
      waiting = record (held s) { phase = payload }

  -- An answer to the first frame, and the session after it.
  pub reply-Ends :
      (u p rest r : List ℕ) (s w t : Session A)
      → frame u ≡ some (p, rest)
      → handler p s.host ≡ (ok (some r), w.host)
      → w.sent ≡ s.sent ++ (framed r ∷ [])
      → Ends handler w t rest
      → Ends handler s t u
  reply-Ends u p rest r s w t f e g v = record {
    answers = framed r ∷ v.answers;
    left = v.left;
    serves = reply f e v.serves;
    written_down = v.written_down ∙ rw (g, append_assoc s.sent (framed r ∷ []) v.answers) refl;
    left_over = v.left_over;
  }

  -- No answer to the first frame, and the session that stops.
  pub refuse-Ends :
      (u p rest : List ℕ) (e : Result (Option (List ℕ))) (s t : Session A)
      → frame u ≡ some (p, rest)
      → handler p s.host ≡ (e, t.host)
      → ((r : List ℕ) → e ≡ ok (some r) → ⊥)
      → t.sent ≡ s.sent
      → t.phase ≡ stopped
      → Ends handler s t u
  refuse-Ends u p rest e s t f h refused es ep = record {
    answers = [];
    left = none;
    serves = refuse f h refused;
    written_down = es ∙ sym (append-nil s.sent);
    left_over = ep;
  }

  -- What ends a run does not depend on what the session waits for and has read.
  pub cleared-Ends :
      (s : Session A) (ph : Phase) (k : ℕ) (q : List ℕ) {t : Session A} {u : List ℕ}
      → Ends handler (record s { phase = ph; payload_size = k; request = q }) t u
      → Ends handler s t u
  cleared-Ends s ph k q v = record {
    answers = v.answers;
    left = v.left;
    serves = v.serves;
    written_down = v.written_down;
    left_over = v.left_over;
  }

  -- After a write the session goes on with the next header, or waits for it.
  pub written-Ends :
      (n : ℕ) (s : Session A)
      → (frame s.request ≡ some (payload_of s, behind s)
          → Ends handler (cleared s) (finish handler n (handle_request handler (held s))) s.request)
      → Ends handler s (finish handler n (written handler s)) s.request
  unfolding written
  written-Ends n s go = elim (Bool-cases (leb 4 (length s.request))) [
    | inl e ↦
        rw (e, written)
          (cleared-Ends s s.phase 0 s.request
            (header-Ends n (cleared s) (leb→le 4 (length s.request) e) go))
    | inr e ↦
        rw (e, written)
          (rw (finish_idle n header reading refl (λ q. cc)) (record {
            answers = [];
            left = some s.request;
            serves = wait (frame_short s.request (leb→gt 4 (length s.request) e));
            written_down = sym (append-nil s.sent);
            left_over = at_header refl refl (leb→gt 4 (length s.request) e);
          }))
  ]
    where
      reading : Session A
      reading = record s { payload_size = 0; phase = header }
