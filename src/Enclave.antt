-- ===== src/Enclave.antt =====
-- The state of an enclave, which its entry points share: the server, the requests that wait for their
-- responses, the keys of other enclaves, and the responses that wait for the host.
use enclave_raft.Prelude.{
  ℕ, ◌≡◌, refl, ◌∙◌, Bool, true, false, Option, none, some, List, [], ◌∷◌, ◌==◌, if◌then◌else◌,
  Result, ok, err,
}
use enclave_raft.Server.State.{Server}
use enclave_raft.Server.Monad.{M}
use enclave_raft.Port.Client.{Clients}
use enclave_raft.Port.Listener.{Mailbox}

-- A client for the exchange of keys with a server that is not known yet, and the server's endpoint.
pub record TempConnection : Type 0 where
  pub client : ℕ
  pub endpoint : List ℕ

-- `er_key_store`: the maps by server ids, the own public key and the report on it. The private key is
-- used by nothing.
pub record KeyStore : Type 0 where
  pub self_report : List ℕ
  pub self_public : List ℕ
  pub store : List (ℕ × List ℕ)
  pub temp_connections : List (ℕ × TempConnection)

-- `closed` names the clients that the host was told to close, the latest first.
pub record Enclave (H : Type 0) : Type 0 where
  pub raft : Server
  pub clients : Clients H
  pub keys : KeyStore
  pub mailbox : Mailbox
  pub closed : List ℕ

-- An entry point, which may throw; what was changed before stays changed.
abbrev pub Entry : Type 0 → Type 0 → Type 0
Entry H A = Enclave H → Result A × Enclave H

abbrev pub after : {H A B : Type 0} → (A → Entry H B) → Result A → Entry H B
after f (ok a) e = f a e
after f (err x) e = (err x, e)

infixl 5 ◌>>=◌ ◌>>◌
abbrev pub ◌>>=◌ : {H A B : Type 0} → Entry H A → (A → Entry H B) → Entry H B
◌>>=◌ m f e = let (r, e') = m e in after f r e'

abbrev pub ◌>>◌ : {H A B : Type 0} → Entry H A → Entry H B → Entry H B
m >> k = m >>= λ _. k

abbrev pub pure : {H A : Type 0} → A → Entry H A
pure a e = (ok a, e)

abbrev pub lift : {H A : Type 0} → Result A → Entry H A
lift r e = (r, e)

abbrev pub get : {H : Type 0} → Entry H (Enclave H)
get e = (ok e, e)

abbrev pub modify : {H : Type 0} → (Enclave H → Enclave H) → Entry H (Unit {0})
modify f e = (ok tt, f e)

-- A call of the server.
abbrev pub on_raft : {H A : Type 0} → M A → Entry H A
on_raft m e = let (r, s) = m e.raft in (r, record e { raft = s })

-- The maps by ids.
module _ {V : Type 0} where
  unfoldable pub find_id : ℕ → List (ℕ × V) → Option V
  find_id k [] = none
  find_id k ((j, v) ∷ m) = if j == k then some v else find_id k m

  unfoldable pub set_id : ℕ → V → List (ℕ × V) → List (ℕ × V)
  set_id k v [] = (k, v) ∷ []
  set_id k v ((j, w) ∷ m) = if j == k then (j, v) ∷ m else (j, w) ∷ set_id k v m

  unfoldable pub erase_id : ℕ → List (ℕ × V) → List (ℕ × V)
  erase_id k [] = []
  erase_id k ((j, w) ∷ m) = if j == k then m else (j, w) ∷ erase_id k m

-- A part of the enclave that an entry point leaves alone.
module _ {H P A : Type 0} (part : Enclave H → P) where
  after_keeps :
      {B : Type 0} (f : A → Entry H B) (r : Result A) (e : Enclave H)
      → ((a : A) (d : Enclave H) → part (f a d).1 ≡ part d)
      → part (after f r e).1 ≡ part e
  after_keeps f (ok a) e h = h a e
  after_keeps f (err x) e h = refl

  pub bind_keeps :
      {B : Type 0} (m : Entry H A) (f : A → Entry H B) (e : Enclave H)
      → part (m e).1 ≡ part e
      → ((a : A) (d : Enclave H) → part (f a d).1 ≡ part d)
      → part ((m >>= f) e).1 ≡ part e
  bind_keeps m f e h k = after_keeps f (m e).0 (m e).1 k ∙ h

  pub if_keeps :
      (b : Bool) (m n : Entry H A) (e : Enclave H)
      → part (m e).1 ≡ part e
      → part (n e).1 ≡ part e
      → part ((if b then m else n) e).1 ≡ part e
  if_keeps true m n e h k = h
  if_keeps false m n e h k = k

-- A call of the server whose result is dropped.
pub drop_result :
    {H A : Type 0} (m : M A) (e : Enclave H)
    → ((on_raft m >> pure tt) e).1 ≡ record e { raft = (m e.raft).1 }
drop_result {H} {A} m e = go (m e.raft).0 (record e { raft = (m e.raft).1 })
  where
    go : (r : Result A) (d : Enclave H) → (after (λ _. pure tt) r d).1 ≡ d
    go (ok a) d = refl
    go (err x) d = refl
