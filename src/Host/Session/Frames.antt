-- ===== src/Host/Session/Frames.antt =====
-- What a stream of requests asks for: its frames in order, each answered by the handler, up to the
-- first that has no answer or is not complete.
use enclave_raft.Prelude.{
  ℕ, zero, suc, ◌+◌, ◌≤◌, ◌<◌, ◌≡◌, refl, Bool, true, false, Option, none, some, List, lt→ltb,
  le→ltb, [], ◌∷◌, ◌++◌, ltb, if◌then◌else◌, length, length-append, length-drop, take, drop,
  take-append, drop-append, Result, ok, err, arith,
}
use enclave_raft.Host.Session.{RequestHandler, word_of, request_header_size, framed}

-- The first frame of a stream, and what is behind it.
unfoldable pub frame : List ℕ → Option (List ℕ × List ℕ)
frame u =
    let n = word_of (take request_header_size u) in
    let body = drop request_header_size u in
    if ltb (length u) request_header_size
    then none
    else if ltb (length body) n
    then none
    else some (take n body, drop n body)

module _ (u : List ℕ) (n : ℕ) (body : List ℕ) where
  pub frame_partial :
      4 ≤ length u → word_of (take 4 u) ≡ n → drop 4 u ≡ body → length body < n → frame u ≡ none
  unfolding frame
  frame_partial h e f l = rw (e, f) (rw (le→ltb (length u) 4 h, lt→ltb (length body) n l) refl)

  pub frame_whole :
      4 ≤ length u
      → word_of (take 4 u) ≡ n
      → drop 4 u ≡ body
      → n ≤ length body
      → frame u ≡ some (take n body, drop n body)
  unfolding frame
  frame_whole h e f l = rw (e, f) (rw (le→ltb (length u) 4 h, le→ltb (length body) n l) refl)

pub frame_short : (u : List ℕ) → length u < 4 → frame u ≡ none
unfolding frame
frame_short u h = rw (lt→ltb (length u) 4 h) refl

-- A frame stays the first one when more bytes come.
pub frame-append :
    (u d p rest : List ℕ) → frame u ≡ some (p, rest) → frame (u ++ d) ≡ some (p, rest ++ d)
unfolding frame
frame-append u d p rest h = ground (
  arith,
  length-append u d,
  take-append 4 u d,
  drop-append 4 u d,
  length-drop 4 u,
  length-append (drop 4 u) d,
  take-append (word_of (take 4 u)) (drop 4 u) d,
  drop-append (word_of (take 4 u)) (drop 4 u) d,
)

-- A frame takes its header off the stream.
pub length-frame : (u p rest : List ℕ) → frame u ≡ some (p, rest) → length rest + 4 ≤ length u
unfolding frame
length-frame u p rest h =
    ground (arith, length-drop 4 u, length-drop (word_of (take 4 u)) (drop 4 u))

abbrev pub is_open : Option (List ℕ) → Bool
is_open none = false
is_open (some v) = true

module _ {A : Type 0} (handler : RequestHandler A) where
  -- The host at the end, the responses written, and whether the session is still open.
  unfoldable pub serve : ℕ → List ℕ → A → A × List (List ℕ) × Bool
  unfolding frame
  serve zero u a = (a, [], true)
  serve (suc n) u a = elim (frame u) [
    | none ↦ (a, [], true)
    | some (p, rest) ↦ elim (handler p a).0 [
      | ok resp ↦ elim resp [
        | some r ↦
            let (b, sent, opened) = serve n rest (handler p a).1 in (b, framed r ∷ sent, opened)
        | none ↦ ((handler p a).1, [], false)
      ]
      | err e ↦ ((handler p a).1, [], false)
    ]
  ]

  -- The same as a relation; the last index is the incomplete frame that is left, or `none` at the
  -- end of the session.
  pub data Serves : List ℕ → A → A → List (List ℕ) → Option (List ℕ) → Type 0 where
    wait : {u : List ℕ} {a : A} → frame u ≡ none → Serves u a a [] (some u)
    refuse :
        {u p rest : List ℕ} {a b : A} {e : Result (Option (List ℕ))}
        → frame u ≡ some (p, rest)
        → handler p a ≡ (e, b)
        → ((r : List ℕ) → e ≡ ok (some r) → ⊥)
        → Serves u a b [] none
    reply :
        {u p rest r : List ℕ} {a b c : A} {sent : List (List ℕ)} {left : Option (List ℕ)}
        → frame u ≡ some (p, rest)
        → handler p a ≡ (ok (some r), b)
        → Serves rest b c sent left
        → Serves u a c (framed r ∷ sent) left

  -- The relation is the function, with one round for each frame.
  pub serve-Serves :
      (n : ℕ) {u : List ℕ} {a b : A} {sent : List (List ℕ)} {left : Option (List ℕ)}
      → Serves u a b sent left
      → length u < n
      → serve n u a ≡ (b, sent, is_open left)
  unfolding serve
  serve-Serves zero s h = absurd (omega arith)
  serve-Serves (suc n) (wait e) h = rw (e, serve) refl
  serve-Serves (suc n) (refuse {e = err x} e f g) h = rw (e, serve, f) (rw f refl)
  serve-Serves (suc n) (refuse {e = ok none} e f g) h = rw (e, serve, f) (rw f refl)
  serve-Serves (suc n) (refuse {e = ok (some r)} e f g) h = absurd (g r refl)
  serve-Serves (suc n) (reply {u} {p} {rest} {r} {a} {b} e f s) h =
      rw (e, serve, f)
        (rw f (rw (serve-Serves n s (omega (arith, length-frame u p rest e, h))) refl))

  -- More bytes come: they go behind what is left.
  pub Serves-append :
      {u : List ℕ} (d : List ℕ) {a b c : A} {sent more : List (List ℕ)} {v : List ℕ}
      {left : Option (List ℕ)}
      → Serves u a b sent (some v)
      → Serves (v ++ d) b c more left
      → Serves (u ++ d) a c (sent ++ more) left
  Serves-append d (wait e) t = t
  Serves-append d (reply {u} {p} {rest} e f s) t =
      reply (frame-append u d p rest e) f (Serves-append d s t)

  -- A session that has ended reads no more.
  pub Serves-ended :
      {u : List ℕ} (d : List ℕ) {a b : A} {sent : List (List ℕ)}
      → Serves u a b sent none
      → Serves (u ++ d) a b sent none
  Serves-ended d (refuse {u} {p} {rest} e f g) = refuse (frame-append u d p rest e) f g
  Serves-ended d (reply {u} {p} {rest} e f s) =
      reply (frame-append u d p rest e) f (Serves-ended d s)
