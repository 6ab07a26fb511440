-- ===== src/Messages/RoundTrip.antt =====
-- What the serializer writes of a response is read back.
use enclave_raft.Prelude.{
  le→ltb, ℕ, ◌%◌, ◌^◌, ◌<◌, ◌≡◌, refl, ap, ◌∙◌, Bool, true, false, List, [], ◌∷◌, ◌++◌, ◌==◌,
  if◌then◌else◌, length, length-append, arith, ok, ◌>>=◌, append_assoc,
}
use enclave_raft.Buffer.{seek}
use enclave_raft.Buffer.Cursor.{Fits, Fits-next, cursor, ulong_bytes, int_bytes, length-write_loop}
use enclave_raft.Buffer.Writes.{
  alloc-Wrote, put_ulong-Wrote, put_int-Wrote, put_byte-Wrote, seek-Wrote,
}
use enclave_raft.Buffer.Reads.{get_ulong-cursor, get_int-cursor, get_byte-cursor}
use enclave_raft.Messages.{
  MsgType, msg_code, msg_of_code, Resp, serialize_resp, deserialize_resp, request_vote_request,
  request_vote_response, append_entries_request, append_entries_response, client_request,
  add_server_request, add_server_response, remove_server_request, remove_server_response,
  sync_log_request, sync_log_response, join_cluster_request, join_cluster_response,
  leave_cluster_request, leave_cluster_response, install_snapshot_request,
  install_snapshot_response, unknown,
}

-- One of the types that have a name.
abbrev pub IsNamed : MsgType → Type 0
IsNamed (unknown n) = ⊥
IsNamed _ = Unit {0}

pub msg_of_code-msg_code : (t : MsgType) → IsNamed t → msg_of_code (msg_code t % 256) ≡ t
msg_of_code-msg_code (unknown n) h = absurd h
msg_of_code-msg_code request_vote_request h = refl
msg_of_code-msg_code request_vote_response h = refl
msg_of_code-msg_code append_entries_request h = refl
msg_of_code-msg_code append_entries_response h = refl
msg_of_code-msg_code client_request h = refl
msg_of_code-msg_code add_server_request h = refl
msg_of_code-msg_code add_server_response h = refl
msg_of_code-msg_code remove_server_request h = refl
msg_of_code-msg_code remove_server_response h = refl
msg_of_code-msg_code sync_log_request h = refl
msg_of_code-msg_code sync_log_response h = refl
msg_of_code-msg_code join_cluster_request h = refl
msg_of_code-msg_code join_cluster_response h = refl
msg_of_code-msg_code leave_cluster_request h = refl
msg_of_code-msg_code leave_cluster_response h = refl
msg_of_code-msg_code install_snapshot_request h = refl
msg_of_code-msg_code install_snapshot_response h = refl

abbrev flag : Resp → ℕ
flag r = if r.accepted then 1 else 0

abbrev pub resp_bytes : Resp → List ℕ
resp_bytes r =
    (msg_code r.type % 256)
    ∷ (int_bytes r.src
        ++ (int_bytes r.dst ++ (ulong_bytes r.term ++ (ulong_bytes r.next_idx ++ (flag r ∷ [])))))

flag_back : (b : Bool) → ((if b then 1 else 0) == 1) ≡ b
flag_back true = refl
flag_back false = refl

-- What a read of the fields one by one has behind it and before it.
abbrev front1 : Resp → List ℕ
front1 r = (msg_code r.type % 256) ∷ []

abbrev front2 : Resp → List ℕ
front2 r = front1 r ++ int_bytes r.src

abbrev front3 : Resp → List ℕ
front3 r = front2 r ++ int_bytes r.dst

abbrev front4 : Resp → List ℕ
front4 r = front3 r ++ ulong_bytes r.term

abbrev front5 : Resp → List ℕ
front5 r = front4 r ++ ulong_bytes r.next_idx

abbrev rest5 : Resp → List ℕ
rest5 r = flag r ∷ []

abbrev rest4 : Resp → List ℕ
rest4 r = ulong_bytes r.next_idx ++ rest5 r

abbrev rest3 : Resp → List ℕ
rest3 r = ulong_bytes r.term ++ rest4 r

abbrev rest2 : Resp → List ℕ
rest2 r = int_bytes r.dst ++ rest3 r

abbrev rest1 : Resp → List ℕ
rest1 r = int_bytes r.src ++ rest2 r

-- A response writes its 26 bytes, whatever the fresh memory held.
pub serialize_resp_lem :
    (raw : ℕ → ℕ) (r : Resp) → serialize_resp raw r ≡ ok (cursor [] (resp_bytes r))
unfolding serialize_resp
serialize_resp_lem raw r =
    seek-Wrote _ _ (
      put_byte-Wrote (flag r) (front5 r) 0 _ (
        put_ulong-Wrote r.next_idx (front4 r) 1 _ (
          put_ulong-Wrote r.term (front3 r) 9 _ (
            put_int-Wrote r.dst (front2 r) 17 _ (
              put_int-Wrote r.src (front1 r) 21 _ (
                put_byte-Wrote (msg_code r.type % 256) [] 25 _
                  (alloc-Wrote raw _ _ (omega arith) (omega arith))))))))
    ∙ ap (λ (l : List ℕ). ok (cursor [] l)) whole
  where
    whole : front5 r ++ (flag r ∷ []) ≡ resp_bytes r
    whole = simp append_assoc

start : (l : List ℕ) → seek 0 (cursor [] l) ≡ cursor [] l
unfolding seek
start l = rw (le→ltb (length l) 0 (omega arith)) refl

pub length-resp_bytes : (r : Resp) → length (resp_bytes r) ≡ 26
length-resp_bytes r = omega (
  arith,
  length-append (int_bytes r.src) (rest2 r),
  length-append (int_bytes r.dst) (rest3 r),
  length-append (ulong_bytes r.term) (rest4 r),
  length-append (ulong_bytes r.next_idx) (rest5 r),
  length-write_loop 4 0 r.src,
  length-write_loop 4 0 r.dst,
  length-write_loop 8 0 r.term,
  length-write_loop 8 0 r.next_idx,
)

resp-Fits : (r : Resp) → Fits [] (resp_bytes r)
resp-Fits r = omega (arith, length-resp_bytes r)

-- A response of a type that has a name, with ids of 32 bits and numbers of 64, is read back from what
-- is written of it, whatever the fresh memory held.
pub deserialize_resp-serialize_resp :
    (raw : ℕ → ℕ) (r : Resp)
    → IsNamed r.type
    → r.src < 2 ^ 32
    → r.dst < 2 ^ 32
    → r.term < 2 ^ 64
    → r.next_idx < 2 ^ 64
    → (serialize_resp raw r >>= deserialize_resp) ≡ ok r
unfolding deserialize_resp
deserialize_resp-serialize_resp raw r named src dst term next_idx = rw (serialize_resp_lem raw r) (
    rw (start (resp_bytes r)) (
      rw (get_byte-cursor (msg_code r.type % 256) [] (rest1 r) (resp-Fits r)) (
        rw (get_int-cursor r.src (front1 r) (rest2 r) src fits1) (
          rw (get_int-cursor r.dst (front2 r) (rest3 r) dst fits2) (
            rw (get_ulong-cursor r.term (front3 r) (rest4 r) term fits3) (
              rw (get_ulong-cursor r.next_idx (front4 r) (rest5 r) next_idx fits4) (
                rw (get_byte-cursor (flag r) (front5 r) [] fits5)
                  (rw (msg_of_code-msg_code r.type named) (rw (flag_back r.accepted) refl)))))))))
  where
    fits1 : Fits (front1 r) (rest1 r)
    fits1 = Fits-next (front1 r) [] (rest1 r) (resp-Fits r)

    fits2 : Fits (front2 r) (rest2 r)
    fits2 = Fits-next (int_bytes r.src) (front1 r) (rest2 r) fits1

    fits3 : Fits (front3 r) (rest3 r)
    fits3 = Fits-next (int_bytes r.dst) (front2 r) (rest3 r) fits2

    fits4 : Fits (front4 r) (rest4 r)
    fits4 = Fits-next (ulong_bytes r.term) (front3 r) (rest4 r) fits3

    fits5 : Fits (front5 r) (rest5 r)
    fits5 = Fits-next (ulong_bytes r.next_idx) (front4 r) (rest5 r) fits4
