-- ===== src/Keys/Store/Attested.antt =====
-- What stands in the key store comes from accepted reports, and only such servers are added.
use enclave_raft.Prelude.{
  codes, ◌==◌, subst, sym, ◌≢◌, ℕ, ◌≡◌, refl, ap, Bool, true, false, Bool-cases, ◌⊎◌, inl, inr,
  Option, none, some, List, [], ◌∷◌, All, Result, ok, err, arith,
}
use enclave_raft.Config.{SrvConfig}
use enclave_raft.Server.State.{Server}
use enclave_raft.Server.Leader
use enclave_raft.Enclave.{
  bind_keeps, if_keeps, drop_result, lift, pure, modify, ◌>>◌, TempConnection, Enclave, find_id,
  set_id,
}
use enclave_raft.Keys.Certs.{is_empty}
use enclave_raft.Keys.CText.{c_str}
use enclave_raft.Keys.Report.{bytes_eq, Platform, validate_verification_report}
use enclave_raft.Keys.Store.{
  key_of, with_store, keep_report, answer_of, exchange_with, finish_with, send_xchg_request,
  with_report, drop_connection, register_report, receive_report, add_to_cluster, build_key_xchg_req,
  finish_exchange, handle_key_xchg_resp,
}

same : (j k : ℕ) → (j == k) ≡ true → j ≡ k
same j k h = ground arith

module _ {V : Type 0} (P : ℕ × V → Type 0) where
  All-set_id : (k : ℕ) (v : V) (m : List (ℕ × V)) → All P m → P (k, v) → All P (set_id k v m)
  unfolding set_id
  All-set_id k v [] h q = (q, tt)
  All-set_id k v ((j, w) ∷ m) (g, h) q = elim (Bool-cases (j == k)) [
    | inl b ↦ rw b (subst (λ i. P (i, v)) (sym (same j k b)) q, h)
    | inr b ↦ rw b (g, All-set_id k v m h q)
  ]

find_id-set_id : {V : Type 0} (k : ℕ) (v : V) (m : List (ℕ × V)) → find_id k (set_id k v m) ≡ some v
unfolding find_id set_id
find_id-set_id k v [] = ground arith
find_id-set_id k v ((j, w) ∷ m) = ground (arith, find_id-set_id k v m)

-- What happens to a key store, by the host or by a message.
pub data KeyEvent : Type 0 where
  registered : List ℕ → KeyEvent
  requested : ℕ → List ℕ → KeyEvent
  reported : ℕ → List ℕ → KeyEvent
  answered : List ℕ → List ℕ → KeyEvent

-- The key is that of a report which was accepted.
abbrev pub IsAttested : {X509 J : Type 0} → Platform X509 J → ℕ × List ℕ → Type 0
IsAttested p (id, key) =
    (packet : List ℕ) × (quote : List ℕ) × (validate_verification_report p packet ≡ ok (some quote))
    × (key ≡ key_of p quote)

module _ {X509 J H : Type 0} (p : Platform X509 J) where
  -- Neither the server nor the keys of others change.
  abbrev Quiet : Enclave H → Enclave H → Type 0
  Quiet e e' = (e'.raft ≡ e.raft) × (e'.keys.store ≡ e.keys.store)

  module _ (now : ℕ) (open_client : List ℕ → ℕ) where
    abbrev pub step : KeyEvent → Enclave H → Enclave H
    step (registered packet) e = (register_report p packet e).1
    step (requested id endpoint) e = (build_key_xchg_req p now open_client id endpoint e).1
    step (reported id packet) e = (receive_report p id packet e).1
    step (answered payload exception) e =
        (handle_key_xchg_resp p now open_client payload exception e).1

    -- The server is left alone, or asked to add a server whose key is stored.
    abbrev pub Admits : Enclave H → Enclave H → Type 0
    Admits e e' =
        (e'.raft ≡ e.raft)
        ⊎ ((srv : SrvConfig) × (key : List ℕ) × (find_id srv.id e'.keys.store ≡ some key)
            × (e'.raft ≡ (Leader.add_srv {H = H} false now srv e.raft).1))

    abbrev Guarded : Enclave H → Enclave H → Type 0
    Guarded e e' = All (IsAttested p) e'.keys.store × Admits e e'

    Quiet-Guarded : (e e' : Enclave H) → All (IsAttested p) e.keys.store → Quiet e e' → Guarded e e'
    Quiet-Guarded e e' h (r, s) = (rw s h, inl r)

    -- A report is accepted, and its key stored, or nothing changes.
    receive_report_cases :
        (id : ℕ) (packet : List ℕ) (e : Enclave H)
        → ((quote : List ℕ) × (validate_verification_report p packet ≡ ok (some quote))
            × (receive_report p id packet e ≡ (
              ok true,
              record e { keys = with_store (set_id id (key_of p quote) e.keys.store) e.keys },
            )))
          ⊎ ((r : Result Bool) × (receive_report p id packet e ≡ (r, e)) × (r ≢ ok true))
    unfolding receive_report
    receive_report_cases id packet e = go (validate_verification_report p packet) refl
      where
        go :
            (v : Result (Option (List ℕ)))
            → validate_verification_report p packet ≡ v
            → ((quote : List ℕ) × (validate_verification_report p packet ≡ ok (some quote))
                × (receive_report p id packet e ≡ (
                  ok true,
                  record e { keys = with_store (set_id id (key_of p quote) e.keys.store) e.keys },
                )))
              ⊎ ((r : Result Bool) × (receive_report p id packet e ≡ (r, e)) × (r ≢ ok true))
        go (err x) q = inr (err x, rw (q, receive_report) refl, λ c. cc)
        go (ok none) q = inr (ok false, rw (q, receive_report) refl, λ c. cc)
        go (ok (some quote)) q = inl (quote, q, rw (q, receive_report) refl)

    abbrev other : Enclave H → Server × List (ℕ × List ℕ)
    other e = (e.raft, e.keys.store)

    keep_report-other :
        (packet : List ℕ) (q : Option (List ℕ)) (e : Enclave H)
        → other (keep_report p packet q e).1 ≡ other e
    keep_report-other packet none e = refl
    keep_report-other packet (some q) e =
        if_keeps other (bytes_eq (key_of p q) e.keys.self_public)
          (modify (λ e. record e { keys = with_report packet e.keys }) >> pure true) (pure false) e
          refl refl

    registered-other :
        (packet : List ℕ) (e : Enclave H) → other (register_report p packet e).1 ≡ other e
    unfolding register_report
    registered-other packet e =
        if_keeps other (is_empty e.keys.self_report) _ _ e
          (bind_keeps other (lift (validate_verification_report p packet)) (keep_report p packet) e
            refl (keep_report-other packet))
          refl

    add_to_cluster-Guarded :
        (id : ℕ) (endpoint key : List ℕ) (e : Enclave H)
        → All (IsAttested p) e.keys.store
        → find_id id e.keys.store ≡ some key
        → Guarded e (add_to_cluster p now open_client id endpoint e).1
    add_to_cluster-Guarded id endpoint key e h f =
        subst (Guarded e)
          (sym (
            drop_result (Leader.add_srv {H = H} false now (record { id = id; endpoint = endpoint }))
              e))
          (h, inr (record { id = id; endpoint = endpoint }, key, f, refl))

    exchange_with-Guarded :
        (id : ℕ) (endpoint : List ℕ) (o : Option (List ℕ)) (c : Option TempConnection)
        (e : Enclave H)
        → All (IsAttested p) e.keys.store
        → find_id id e.keys.store ≡ o
        → Guarded e (exchange_with p now open_client id endpoint o c e).1
    unfolding send_xchg_request
    exchange_with-Guarded id endpoint (some key) c e h f =
        add_to_cluster-Guarded id endpoint key e h f
    exchange_with-Guarded id endpoint none (some c) e h f = (h, inl refl)
    exchange_with-Guarded id endpoint none none e h f = (h, inl refl)

    requested-Guarded :
        (id : ℕ) (endpoint : List ℕ) (e : Enclave H)
        → All (IsAttested p) e.keys.store
        → Guarded e (build_key_xchg_req p now open_client id endpoint e).1
    unfolding build_key_xchg_req
    requested-Guarded id endpoint e h = exchange_with-Guarded id endpoint _ _ e h refl

    reported-Guarded :
        (id : ℕ) (packet : List ℕ) (e : Enclave H)
        → All (IsAttested p) e.keys.store
        → Guarded e (receive_report p id packet e).1
    reported-Guarded id packet e h = elim (receive_report_cases id packet e) [
      | inl (quote, v, q) ↦ rw q (
        All-set_id (IsAttested p) id (key_of p quote) e.keys.store h (packet, quote, v, refl),
        inl refl,
      )
      | inr (r, q, n) ↦ rw q (h, inl refl)
    ]

    finish_with-Guarded :
        (id : ℕ) (key : List ℕ) (b : Bool) (c : Option TempConnection) (e : Enclave H)
        → All (IsAttested p) e.keys.store
        → (b ≡ true → find_id id e.keys.store ≡ some key)
        → Guarded e (finish_with p now open_client id b c e).1
    unfolding drop_connection
    finish_with-Guarded id key b none e h f = (h, inl refl)
    finish_with-Guarded id key true (some c) e h f =
        add_to_cluster-Guarded id c.endpoint key (drop_connection p now open_client id c e).1 h
          (f refl)
    finish_with-Guarded id key false (some c) e h f = (h, inl refl)

    answer_of-Guarded :
        (rsp : J) (e : Enclave H)
        → All (IsAttested p) e.keys.store
        → Guarded e (answer_of p now open_client rsp e).1
    unfolding finish_exchange
    answer_of-Guarded rsp e h = elim (receive_report_cases id (c_str report) e) [
      | inl (quote, v, q) ↦ rw q (
          finish_with-Guarded id (key_of p quote) true _ (stored quote)
            (All-set_id (IsAttested p) id (key_of p quote) e.keys.store h
              (c_str report, quote, v, refl))
            (λ u. find_id-set_id id (key_of p quote) e.keys.store))
      | inr (ok true, q, n) ↦ absurd (n refl)
      | inr (ok false, q, n) ↦ rw q (finish_with-Guarded id [] false _ e h (λ u. cc))
      | inr (err x, q, n) ↦ rw q (h, inl refl)
    ]
      where
        id : ℕ
        id = p.json.int_value (p.json.member (codes "server_id") rsp)

        report : List ℕ
        report = p.json.string_value (p.json.member (codes "report") rsp)

        stored : List ℕ → Enclave H
        stored quote = record e {
          keys = with_store (set_id id (key_of p quote) e.keys.store) e.keys;
        }

    answered-Guarded :
        (payload exception : List ℕ) (e : Enclave H)
        → All (IsAttested p) e.keys.store
        → Guarded e (handle_key_xchg_resp p now open_client payload exception e).1
    unfolding handle_key_xchg_resp
    answered-Guarded payload exception e h = elim (Bool-cases (is_empty exception)) [
      | inr q ↦ rw q (h, inl refl)
      | inl q ↦ rw q (elim (Bool-cases (p.json.parse payload).1) [
        | inl r ↦ rw r (h, inl refl)
        | inr r ↦ rw r (answer_of-Guarded (p.json.parse payload).0 e h)
      ])
    ]

    -- If every key that is stored is that of an accepted report, then it is so after each event; and
    -- the server is left alone, or asked to add a server whose key is stored.
    step-Attested :
        (v : KeyEvent) (e : Enclave H)
        → All (IsAttested p) e.keys.store
        → All (IsAttested p) (step v e).keys.store × Admits e (step v e)
    step-Attested (registered packet) e h =
        let k = registered-other packet e in
        Quiet-Guarded e (register_report p packet e).1 h (ap (λ x. x.0) k, ap (λ x. x.1) k)
    step-Attested (requested id endpoint) e h = requested-Guarded id endpoint e h
    step-Attested (reported id packet) e h = reported-Guarded id packet e h
    step-Attested (answered payload exception) e h = answered-Guarded payload exception e h

    -- The events one after the other.
    abbrev pub run : List KeyEvent → Enclave H → Enclave H
    run [] e = e
    run (v ∷ vs) e = run vs (step v e)

    run-Attested :
        (vs : List KeyEvent) (e : Enclave H)
        → All (IsAttested p) e.keys.store
        → All (IsAttested p) (run vs e).keys.store
    run-Attested [] e h = h
    run-Attested (v ∷ vs) e h = run-Attested vs (step v e) (step-Attested v e h).0

    -- An enclave that starts with no keys of others stores, after whatever happens to its keys, only keys
    -- of accepted reports; and the event after that leaves its server alone, or asks it to add a server
    -- whose key is then stored.
    pub run-step-Attested :
        (vs : List KeyEvent) (v : KeyEvent) (e : Enclave H)
        → e.keys.store ≡ []
        → All (IsAttested p) (step v (run vs e)).keys.store × Admits (run vs e) (step v (run vs e))
    run-step-Attested vs v e h =
        step-Attested v (run vs e) (run-Attested vs e (subst (All (IsAttested p)) (sym h) tt))
