-- ===== src/Config.antt =====
-- raft_enclave/raft/include/srv_config.hxx and cluster_config.hxx: a server of the cluster, the
-- cluster's configuration, and their wire forms. `raw` is what fresh memory holds.
pub mod Blocks
pub mod RoundTrip
use enclave_raft.Prelude.{
  ℕ, zero, suc, ◌+◌, ◌*◌, ◌%◌, ◌^◌, Option, none, some, List, [], ◌∷◌, leb, ◌==◌, if◌then◌else◌,
  length, fault, Result, ok, err, ◌>>=◌,
}
use enclave_raft.Buffer.{
  Buffer, size, sz_int, sz_ulong, alloc, seek, get_int, get_ulong, get_str, put_int, put_ulong,
  put_str, put_buffer,
}

-- `id` is the bit pattern of an `int32`, `endpoint` the bytes of a string.
pub record SrvConfig : Type 0 where
  pub id : ℕ
  pub endpoint : List ℕ

unfoldable pub serialize_srv : (ℕ → ℕ) → SrvConfig → Result Buffer
serialize_srv raw c =
    alloc raw (sz_int + length c.endpoint + 1) >>= put_int c.id >>= put_str c.endpoint >>= λ b.
    ok (seek 0 b)

-- A null `endpoint` makes no string.
abbrev srv_of : ℕ → Option (List ℕ) × Buffer → Result (SrvConfig × Buffer)
srv_of id (none, b) = err fault
srv_of id (some s, b) = ok (record { id = id; endpoint = s }, b)

unfoldable pub deserialize_srv : Buffer → Result (SrvConfig × Buffer)
deserialize_srv b = get_int b >>= λ (id, b1). srv_of id (get_str b1)

pub record ClusterConfig : Type 0 where
  pub log_idx : ℕ
  pub prev_log_idx : ℕ
  pub servers : List SrvConfig

-- `set_log_idx`
unfoldable pub set_log_idx : ℕ → ClusterConfig → ClusterConfig
set_log_idx i c = record c { prev_log_idx = c.log_idx; log_idx = i }

unfoldable pub find_server : ℕ → List SrvConfig → Option SrvConfig
find_server id [] = none
find_server id (s ∷ ss) = if s.id == id then some s else find_server id ss

unfoldable pub get_server : ℕ → ClusterConfig → Option SrvConfig
unfolding find_server
get_server id c = find_server id c.servers

-- The first loop of `serialize`: the servers' buffers.
unfoldable pub srv_buffers : (ℕ → ℕ) → List SrvConfig → Result (List Buffer)
srv_buffers raw [] = ok []
srv_buffers raw (s ∷ ss) = serialize_srv raw s >>= λ b. srv_buffers raw ss >>= λ bs. ok (b ∷ bs)

abbrev pub total_size : List Buffer → ℕ
total_size [] = 0
total_size (b ∷ bs) = size b + total_size bs

-- The second loop: each buffer is put into the result.
unfoldable pub put_all : List Buffer → Buffer → Result Buffer
put_all [] b = ok b
put_all (x ∷ xs) b = put_buffer x b >>= put_all xs

unfoldable pub serialize : (ℕ → ℕ) → ClusterConfig → Result Buffer
serialize raw c = srv_buffers raw c.servers >>= λ bufs.
    alloc raw (2 * sz_ulong + sz_int + total_size bufs)
    >>= put_ulong c.log_idx
    >>= put_ulong c.prev_log_idx
    >>= put_int (length c.servers % 2 ^ 32)
    >>= put_all bufs
    >>= λ b. ok (seek 0 b)

-- The loop `while (cnt-- > 0)`; a negative count makes no round.
unfoldable pub read_servers : ℕ → Buffer → Result (List SrvConfig × Buffer)
read_servers zero b = ok ([], b)
read_servers (suc n) b =
    deserialize_srv b >>= λ (s, b1). read_servers n b1 >>= λ (ss, b2). ok (s ∷ ss, b2)

unfoldable pub rounds : ℕ → ℕ
rounds cnt = if leb (2 ^ 31) cnt then 0 else cnt

unfoldable pub deserialize : Buffer → Result (ClusterConfig × Buffer)
deserialize b = get_ulong b >>= λ (log_idx, b1). get_ulong b1 >>= λ (prev_log_idx, b2).
    get_int b2 >>= λ (cnt, b3). read_servers (rounds cnt) b3 >>= λ (ss, b4).
    ok (record { log_idx = log_idx; prev_log_idx = prev_log_idx; servers = ss }, b4)
