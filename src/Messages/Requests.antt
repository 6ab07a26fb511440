-- ===== src/Messages/Requests.antt =====
-- A request on the wire: what is written of it is read back.
mod Header
pub use Header.{log_bytes, header_bytes, length-header_bytes}
use Header.{
  front1, front2, front3, front4, front5, front6, front7, rest7, rest6, rest5, rest4, rest3, rest2,
  rest1,
}
use enclave_raft.Prelude.{
  ℕ, ◌+◌, ◌-◌, ◌%◌, ◌^◌, ◌<◌, ◌≡◌, refl, ap, ◌∙◌, sym, false, List, [], ◌∷◌, ◌++◌, map, All, length,
  length-append, arith, ok, append_assoc, append-nil, le→ltb, if◌then◌else◌, Bool-cases, inl, inr,
}
use enclave_raft.Buffer.{seek, get_int, max_size}
use enclave_raft.Buffer.Cursor.{Fits, Fits-next, cursor, ulong_bytes, int_bytes, length-write_loop}
use enclave_raft.Buffer.Writes.{
  alloc-Wrote, put_ulong-Wrote, put_int-Wrote, put_byte-Wrote, seek-Wrote,
}
use enclave_raft.Buffer.Reads.{get_ulong-cursor, get_int-cursor, get_byte-cursor}
use enclave_raft.Config.{total_size}
use enclave_raft.Config.Blocks.{all_bytes, cursors, total_size-cursors, put_all-Wrote}
use enclave_raft.Entry.{LogEntry}
use enclave_raft.Entry.RoundTrip.{rewound}
use enclave_raft.Messages.{
  Req, rpc_req_header_size, msg_code, serialize_req, deserialize_req, read_entries, is_positive,
}
use enclave_raft.Messages.RoundTrip.{IsNamed, msg_of_code-msg_code}
use enclave_raft.Messages.Entries.{
  wire_bytes, IsWire, entry_buffers_lem, read_entries_lem, length-all_wire_bytes,
}

-- Ids of 32 bits and numbers of 64, a type and entry types that have names, and a size that fits.
pub record IsReq (r : Req) : Type 0 where
  pub named : IsNamed r.type
  pub src_word : r.src < 2 ^ 32
  pub dst_word : r.dst < 2 ^ 32
  pub term_word : r.term < 2 ^ 64
  pub last_log_term_word : r.last_log_term < 2 ^ 64
  pub last_log_idx_word : r.last_log_idx < 2 ^ 64
  pub commit_idx_word : r.commit_idx < 2 ^ 64
  pub wire_entries : All IsWire r.log_entries
  pub fits : 45 + length (log_bytes r) < max_size

-- A request writes its header and its entries, whatever the fresh memory held.
pub serialize_req_lem :
    (raw : ℕ → ℕ) (r : Req)
    → IsReq r
    → serialize_req raw r ≡ ok (cursor [] (header_bytes r ++ log_bytes r))
unfolding serialize_req
serialize_req_lem raw r h = rw (entry_buffers_lem raw r.log_entries (omega (arith, h.fits))) (
    rw total (
      seek-Wrote (front7 r ++ int_bytes n ++ log_bytes r) _ (
        put_all-Wrote wire_bytes r.log_entries (front7 r ++ int_bytes n) 0 _ (
          put_int-Wrote n (front7 r) (n + 0) _ (
            put_ulong-Wrote r.commit_idx (front6 r) (4 + (n + 0)) _ (
              put_ulong-Wrote r.last_log_idx (front5 r) (8 + (4 + (n + 0))) _ (
                put_ulong-Wrote r.last_log_term (front4 r) (8 + (8 + (4 + (n + 0)))) _ (
                  put_ulong-Wrote r.term (front3 r) (8 + (8 + (8 + (4 + (n + 0))))) _ (
                    put_int-Wrote r.dst (front2 r) (8 + (8 + (8 + (8 + (4 + (n + 0)))))) _ (
                      put_int-Wrote r.src (front1 r) (4 + (8 + (8 + (8 + (8 + (4 + (n + 0))))))) _ (
                        put_byte-Wrote (msg_code r.type % 256) []
                          (4 + (4 + (8 + (8 + (8 + (8 + (4 + (n + 0)))))))) _
                          (alloc-Wrote raw _ _ (omega arith) (omega (arith, h.fits))))))))))))
      ∙ ap (λ (l : List ℕ). ok (cursor [] l)) whole))
  where
    n : ℕ
    n = length (log_bytes r)

    whole : front7 r ++ int_bytes n ++ log_bytes r ≡ header_bytes r ++ log_bytes r
    whole = simp append_assoc

    total : total_size (cursors wire_bytes r.log_entries) % 2 ^ 32 ≡ n
    total = omega (arith, h.fits, total_size-cursors wire_bytes r.log_entries)

start : (l : List ℕ) → seek 0 (cursor [] l) ≡ cursor [] l
unfolding seek
start l = rw (le→ltb (length l) 0 (omega arith)) refl

-- What the entries are read as, by the size in the header.
entries_back :
    (raw : ℕ → ℕ) (r : Req)
    → IsReq r
    → (if is_positive (length (log_bytes r))
        then read_entries raw (length (log_bytes r)) (cursor [] (log_bytes r))
        else ok [])
      ≡ ok (map rewound r.log_entries)
entries_back raw r h = elim (Bool-cases (is_positive (length (log_bytes r)))) [
  | inl e ↦ rw e (read_entries_lem raw r.log_entries h.wire_entries (omega (arith, h.fits)))
  | inr e ↦ rw e (ap (λ (es : List LogEntry). ok (map rewound es)) (sym (nothing e)))
]
  where
    nothing : is_positive (length (log_bytes r)) ≡ false → r.log_entries ≡ []
    nothing e = length-all_wire_bytes r.log_entries (ground (arith, e, h.fits))

header-Fits : (r : Req) → Fits [] (header_bytes r)
header-Fits r = omega (arith, length-header_bytes r)

fits1 : (r : Req) → Fits (front1 r) (rest1 r)
fits1 r = Fits-next (front1 r) [] (rest1 r) (header-Fits r)

fits2 : (r : Req) → Fits (front2 r) (rest2 r)
fits2 r = Fits-next (int_bytes r.src) (front1 r) (rest2 r) (fits1 r)

fits3 : (r : Req) → Fits (front3 r) (rest3 r)
fits3 r = Fits-next (int_bytes r.dst) (front2 r) (rest3 r) (fits2 r)

fits4 : (r : Req) → Fits (front4 r) (rest4 r)
fits4 r = Fits-next (ulong_bytes r.term) (front3 r) (rest4 r) (fits3 r)

fits5 : (r : Req) → Fits (front5 r) (rest5 r)
fits5 r = Fits-next (ulong_bytes r.last_log_term) (front4 r) (rest5 r) (fits4 r)

fits6 : (r : Req) → Fits (front6 r) (rest6 r)
fits6 r = Fits-next (ulong_bytes r.last_log_idx) (front5 r) (rest6 r) (fits5 r)

fits7 : (r : Req) → Fits (front7 r) (rest7 r)
fits7 r = Fits-next (ulong_bytes r.commit_idx) (front6 r) (rest7 r) (fits6 r)

last :
    (r : Req)
    → length (log_bytes r) < 2 ^ 32
    → get_int (cursor (front7 r) (rest7 r))
      ≡ ok (length (log_bytes r), cursor (front7 r ++ rest7 r) [])
last r h =
    rw (append-nil (rest7 r)) at
      (get_int-cursor (length (log_bytes r)) (front7 r) [] h (rw (append-nil (rest7 r)) (fits7 r)))

header-front7 : (r : Req) → header_bytes r ≡ front7 r ++ rest7 r
header-front7 r = simp append_assoc

length-front7 : (r : Req) → length (front7 r) ≡ 41
length-front7 r = omega (arith, length-header_bytes r, split)
  where
    split : length (header_bytes r) ≡ length (front7 r) + 4
    split =
        ap (λ (l : List ℕ). length l) (header-front7 r)
        ∙ length-append (front7 r) (rest7 r)
        ∙ ap (λ (n : ℕ). length (front7 r) + n) (length-write_loop 4 0 (length (log_bytes r)))

-- The size of the entries, read from the end of the header.
pub size-header_bytes :
    (r : Req)
    → IsReq r
    → get_int (seek (rpc_req_header_size - 4) (cursor [] (header_bytes r)))
      ≡ ok (length (log_bytes r), record { bytes = header_bytes r; pos = length (header_bytes r) })
size-header_bytes r h =
    ap get_int at_size
    ∙ last r (omega (arith, h.fits))
    ∙ ap
        (λ (l : List ℕ).
          ok (length (log_bytes r), record { bytes = l; pos = length (front7 r ++ rest7 r) }))
        (append-nil (front7 r ++ rest7 r))
    ∙ ap (λ (l : List ℕ). ok (length (log_bytes r), record { bytes = l; pos = length l }))
        (sym (header-front7 r))
  where
    at_size :
        seek (rpc_req_header_size - 4) (cursor [] (header_bytes r)) ≡ cursor (front7 r) (rest7 r)
    at_size =
        unfold seek in
        rw (le→ltb (length (header_bytes r)) 41 (omega (arith, length-header_bytes r))) (
          ap (λ (l : List ℕ). record { bytes = l; pos = 41 }) (header-front7 r)
          ∙ ap (λ (n : ℕ). record { bytes = front7 r ++ rest7 r; pos = n }) (sym (length-front7 r)))

-- The header and the entries of a request of a type that has a name, with ids of 32 bits and numbers
-- of 64, with entries of 64-bit terms and of types that have names, and of a size that fits a buffer,
-- are read back as the request, its entries' buffers at their start. They are what is written of it.
pub deserialize_req-serialize_req :
    (raw : ℕ → ℕ) (r : Req)
    → IsReq r
    → (serialize_req raw r ≡ ok (cursor [] (header_bytes r ++ log_bytes r)))
      × (length (header_bytes r) ≡ rpc_req_header_size)
      × (deserialize_req raw (cursor [] (header_bytes r)) (cursor [] (log_bytes r))
          ≡ ok (record r { log_entries = map rewound r.log_entries }))
unfolding deserialize_req
deserialize_req-serialize_req raw r h = (
  serialize_req_lem raw r h,
  length-header_bytes r,
  rw (start (header_bytes r), start (log_bytes r))
      (rw (get_byte-cursor (msg_code r.type % 256) [] (rest1 r) (header-Fits r)) (
        rw (get_int-cursor r.src (front1 r) (rest2 r) h.src_word (fits1 r)) (
          rw (get_int-cursor r.dst (front2 r) (rest3 r) h.dst_word (fits2 r)) (
            rw (get_ulong-cursor r.term (front3 r) (rest4 r) h.term_word (fits3 r)) (
              rw
                (get_ulong-cursor r.last_log_term (front4 r) (rest5 r) h.last_log_term_word
                  (fits4 r))
                (rw
                  (get_ulong-cursor r.last_log_idx (front5 r) (rest6 r) h.last_log_idx_word
                    (fits5 r))
                  (rw
                    (get_ulong-cursor r.commit_idx (front6 r) (rest7 r) h.commit_idx_word (fits6 r))
                    (rw (last r (omega (arith, h.fits))) (
                      rw (entries_back raw r h)
                        (rw (msg_of_code-msg_code r.type h.named) refl)))))))))),
)
