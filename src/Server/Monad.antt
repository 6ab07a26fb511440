-- ===== src/Server/Monad.antt =====
-- A handler: it reads and changes the server's state, and may throw. What was changed before a
-- throw stays changed, since `system_exit` returns (raft_enclave/app_impl/in_memory_state_mgr.hxx)
-- and the caller of `process_req` catches the exception.
use enclave_raft.Prelude.{
  ℕ, ◌≡◌, refl, ◌∙◌, Bool, true, false, Option, none, some, [], ◌∷◌, ◌++◌, if◌then◌else◌, ◌==◌,
  Result, ok, err, raft_exception, fault,
}
use enclave_raft.Server.State.{Server, Action, system_exit, Peer, PeerMap}

abbrev pub M : Type 0 → Type 0
M A = Server → Result A × Server

-- What follows a result: the rest, or nothing after a throw.
abbrev pub continue : {A B : Type 0} → (A → M B) → Result A → M B
continue f (ok a) s = f a s
continue f (err e) s = (err e, s)

infixl 5 ◌>>=◌ ◌>>◌
abbrev pub ◌>>=◌ : {A B : Type 0} → M A → (A → M B) → M B
◌>>=◌ m f s = let (r, s') = m s in continue f r s'

abbrev pub ◌>>◌ : {A B : Type 0} → M A → M B → M B
m >> k = m >>= λ _. k

abbrev pub pure : {A : Type 0} → A → M A
pure a s = (ok a, s)

abbrev pub done : M (Unit {0})
done s = (ok tt, s)

abbrev pub lift : {A : Type 0} → Result A → M A
lift r s = (r, s)

abbrev pub gets : {A : Type 0} → (Server → A) → M A
gets f s = (ok (f s), s)

abbrev pub modify : (Server → Server) → M (Unit {0})
modify f s = (ok tt, f s)

abbrev pub emit : Action → Server → Server
emit a s = record s { trace = a ∷ s.trace }

abbrev pub act : Action → M (Unit {0})
act a = modify (emit a)

-- `system_exit(-1)` and the exception after it.
abbrev pub fatal : {A : Type 0} → M A
fatal s = (err raft_exception, emit (system_exit 0xffff_ffff) s)

-- A pointer that must not be null, or an `assert`.
abbrev pub or_fault : {A : Type 0} → Option A → M A
or_fault none s = (err fault, s)
or_fault (some a) s = (ok a, s)

abbrev pub when : Bool → M (Unit {0}) → M (Unit {0})
when b m s = if b then m s else (ok tt, s)

-- An operation on a peer, outside the map or in it.
abbrev pub PeerM : Type 0 → Type 0
PeerM A = Peer → Server → Result A × Peer × Server

-- A loop over `peers_` by `f`: `front` has been passed, and `ps` is left. A throw ends it.
unfoldable pub each_peer : {A : Type 0} → PeerM A → PeerMap → PeerMap → M (Unit {0})
each_peer f front [] s = (ok tt, record s { peers = front })
each_peer f front ((k, p) ∷ ps) s =
    let (r, p', s') = f p s in
    elim r [
      | err e ↦ (err e, record s' { peers = front ++ ((k, p') ∷ ps) })
      | ok a ↦ each_peer f (front ++ ((k, p') ∷ [])) ps s'
    ]

abbrev pub for_peers : {A : Type 0} → PeerM A → M (Unit {0})
for_peers f s = each_peer f [] s.peers s

unfoldable pub find_peer : ℕ → PeerMap → Option Peer
find_peer k [] = none
find_peer k ((j, p) ∷ ps) = if j == k then some p else find_peer k ps

-- The peer under a key replaced.
unfoldable pub set_peer : ℕ → Peer → PeerMap → PeerMap
set_peer k q [] = []
set_peer k q ((j, p) ∷ ps) = if j == k then (j, q) ∷ ps else (j, p) ∷ set_peer k q ps

unfoldable pub erase_peer : ℕ → PeerMap → PeerMap
erase_peer k [] = []
erase_peer k ((j, p) ∷ ps) = if j == k then ps else (j, p) ∷ erase_peer k ps

-- An operation on the peer under a key, which is there.
abbrev pub on_peer : {A : Type 0} → ℕ → Peer → PeerM A → M A
on_peer k p f s = let (r, p', s') = f p s in (r, record s' { peers = set_peer k p' s'.peers })

-- A part of the server that a handler leaves alone.
module _ {P A : Type 0} (part : Server → P) where
  pub continue_keeps :
      {B : Type 0} (f : A → M B) (r : Result A) (s : Server)
      → ((a : A) (t : Server) → part (f a t).1 ≡ part t)
      → part (continue f r s).1 ≡ part s
  continue_keeps f (ok a) s h = h a s
  continue_keeps f (err e) s h = refl

  pub bind_keeps :
      {B : Type 0} (m : M A) (f : A → M B) (s : Server)
      → part (m s).1 ≡ part s
      → ((a : A) (t : Server) → part (f a t).1 ≡ part t)
      → part ((m >>= f) s).1 ≡ part s
  bind_keeps m f s h k = continue_keeps f (m s).0 (m s).1 k ∙ h

  pub if_keeps :
      (b : Bool) (m n : M A) (s : Server)
      → part (m s).1 ≡ part s
      → part (n s).1 ≡ part s
      → part ((if b then m else n) s).1 ≡ part s
  if_keeps true m n s h k = h
  if_keeps false m n s h k = k

pub when_keeps :
    {P : Type 0} (part : Server → P) (b : Bool) (m : M (Unit {0})) (s : Server)
    → part (m s).1 ≡ part s
    → part (when b m s).1 ≡ part s
when_keeps part true m s h = h
when_keeps part false m s h = refl
