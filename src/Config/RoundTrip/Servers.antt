-- ===== src/Config/RoundTrip/Servers.antt =====
-- The servers of a configuration, written and read.
use enclave_raft.Prelude.{
  ℕ, ◌+◌, ◌^◌, ◌<◌, ◌≤◌, ◌≡◌, ◌≢◌, refl, List, [], ◌∷◌, ◌++◌, length, length-append, arith, All, ok,
  append-nil, append_assoc,
}
use enclave_raft.Buffer.{Buffer, max_size}
use enclave_raft.Buffer.Cursor.{
  Fits, Fits-next, Fits, Fits-next, cursor, int_bytes, length-write_loop,
}
use enclave_raft.Buffer.Writes.{alloc-Wrote, put_int-Wrote, put_str-Wrote, seek-Wrote}
use enclave_raft.Buffer.Reads.{get_int-cursor, get_str-cursor}
use enclave_raft.Config.Blocks.{all_bytes, cursors}
use enclave_raft.Config.{SrvConfig, serialize_srv, deserialize_srv, srv_buffers, read_servers}

-- The bytes of a server: its id in four bytes, its endpoint and a zero.
abbrev pub srv_bytes : SrvConfig → List ℕ
srv_bytes c = int_bytes c.id ++ (c.endpoint ++ (0 ∷ []))

-- An id of 32 bits and an endpoint that is a string of C with something in it.
abbrev pub IsSrvConfig : SrvConfig → Type 0
IsSrvConfig c = (c.id < 2 ^ 32) × All (λ x. x ≢ 0) c.endpoint × (c.endpoint ≢ [])

pub length-srv_bytes : (c : SrvConfig) → length (srv_bytes c) ≡ 5 + length c.endpoint
length-srv_bytes c = omega (
  arith,
  length-append (int_bytes c.id) (c.endpoint ++ (0 ∷ [])),
  length-write_loop 4 0 c.id,
  length-append c.endpoint (0 ∷ []),
)

pub serialize_srv_lem :
    (raw : ℕ → ℕ) (c : SrvConfig)
    → length (srv_bytes c) < max_size
    → serialize_srv raw c ≡ ok (cursor [] (srv_bytes c))
unfolding serialize_srv
serialize_srv_lem raw c h = seek-Wrote (srv_bytes c) _ (
    put_str-Wrote c.endpoint (int_bytes c.id) 0 _ (
      put_int-Wrote c.id [] (length c.endpoint + 1 + 0) _
        (alloc-Wrote raw _ _ (omega arith) (omega (arith, length-srv_bytes c)))))

pub deserialize_srv-srv_bytes :
    (c : SrvConfig) (front rest : List ℕ)
    → IsSrvConfig c
    → Fits front (srv_bytes c ++ rest)
    → deserialize_srv (cursor front (srv_bytes c ++ rest))
      ≡ ok (c, cursor (front ++ srv_bytes c) rest)
unfolding deserialize_srv
deserialize_srv-srv_bytes c front rest (small, text, full) k = rw regroup (
    rw (get_int-cursor c.id front (c.endpoint ++ (0 ∷ rest)) small whole) (
      rw
        (get_str-cursor c.endpoint (front ++ int_bytes c.id) rest text full
          (Fits-next (int_bytes c.id) front _ whole))
        (rw (append_assoc front (int_bytes c.id) (c.endpoint ++ (0 ∷ []))) refl)))
  where
    regroup : srv_bytes c ++ rest ≡ int_bytes c.id ++ (c.endpoint ++ (0 ∷ rest))
    regroup = simp append_assoc

    whole : Fits front (int_bytes c.id ++ (c.endpoint ++ (0 ∷ rest)))
    whole = rw regroup at k

abbrev pub servers_bytes : List SrvConfig → List ℕ
servers_bytes ss = all_bytes srv_bytes ss

pub read_servers-servers_bytes :
    (ss : List SrvConfig) (front rest : List ℕ)
    → All IsSrvConfig ss
    → Fits front (servers_bytes ss ++ rest)
    → read_servers (length ss) (cursor front (servers_bytes ss ++ rest))
      ≡ ok (ss, cursor (front ++ servers_bytes ss) rest)
unfolding read_servers
read_servers-servers_bytes [] front rest h k = rw append-nil
read_servers-servers_bytes (s ∷ ss) front rest (hs, hss) k =
    rw (append_assoc (srv_bytes s) (servers_bytes ss) rest) (
      rw (deserialize_srv-srv_bytes s front (servers_bytes ss ++ rest) hs whole) (
        rw
          (read_servers-servers_bytes ss (front ++ srv_bytes s) rest hss
            (Fits-next (srv_bytes s) front _ whole))
          (rw (append_assoc front (srv_bytes s) (servers_bytes ss)) refl)))
  where
    whole : Fits front (srv_bytes s ++ (servers_bytes ss ++ rest))
    whole = rw (append_assoc (srv_bytes s) (servers_bytes ss) rest) at k

pub length-servers_bytes : (ss : List SrvConfig) → length ss ≤ length (servers_bytes ss)
length-servers_bytes [] = omega arith
length-servers_bytes (s ∷ ss) = omega (
  arith,
  length-append (srv_bytes s) (servers_bytes ss),
  length-srv_bytes s,
  length-servers_bytes ss,
)

abbrev pub srv_cursors : List SrvConfig → List Buffer
srv_cursors ss = cursors srv_bytes ss

pub srv_buffers_lem :
    (raw : ℕ → ℕ) (ss : List SrvConfig)
    → length (servers_bytes ss) < max_size
    → srv_buffers raw ss ≡ ok (srv_cursors ss)
unfolding srv_buffers
srv_buffers_lem raw [] h = refl
srv_buffers_lem raw (s ∷ ss) h =
    rw (serialize_srv_lem raw s (omega (arith, length-append (srv_bytes s) (servers_bytes ss)))) (
      rw (srv_buffers_lem raw ss (omega (arith, length-append (srv_bytes s) (servers_bytes ss))))
        refl)
