-- ===== src/Buffer.antt =====
-- raft_enclave/raft/src/buffer.cxx: the byte buffer of fixed size with a position.
-- A buffer is its bytes and its position. Its size is the number of its bytes; the header of a
-- block (two 16-bit words below 0x8000 bytes, two 32-bit words from there on) shows in `mv_fw`,
-- which wraps as the word of the position does. Fresh memory is not initialised: `alloc` takes
-- what it happens to hold.
pub mod Cursor
pub mod Writes
pub mod Reads
use enclave_raft.Prelude.{
  ℕ, zero, suc, ◌+◌, ◌-◌, ◌*◌, ◌/◌, ◌%◌, ◌^◌, ◌||◌, ◌++◌, Option, none, some, List, [], ◌∷◌, leb,
  ltb, ◌==◌, if◌then◌else◌, length, take, drop, splice, out_of_range, overflow_error, fault, Result,
  ok, err, ◌>>=◌,
}

pub record Buffer : Type 0 where
  pub bytes : List ℕ
  pub pos : ℕ

abbrev pub size : Buffer → ℕ
size b = length b.bytes

-- What is at `data()`: the bytes from the position on.
abbrev pub rest_of : Buffer → List ℕ
rest_of b = drop b.pos b.bytes

abbrev pub max_size : ℕ
max_size = 0x80000000

abbrev pub sz_int : ℕ
sz_int = 4

abbrev pub sz_ulong : ℕ
sz_ulong = 8

-- `n` bytes of fresh memory, which holds `raw` from the index `i` on.
unfoldable pub fresh_bytes : (ℕ → ℕ) → ℕ → ℕ → List ℕ
fresh_bytes raw i zero = []
fresh_bytes raw i (suc n) = (raw i % 256) ∷ fresh_bytes raw (suc i) n

unfoldable pub alloc : (ℕ → ℕ) → ℕ → Result Buffer
alloc raw n =
    if leb max_size n
    then err out_of_range
    else ok (record { bytes = fresh_bytes raw 0 n; pos = 0 })

-- `pos(size_t p)`
unfoldable pub seek : ℕ → Buffer → Buffer
seek p b = record b { pos = if ltb (size b) p then size b else p }

-- `__mv_fw_block`
unfoldable pub mv_fw : Buffer → ℕ → Buffer
mv_fw b d = record b { pos = (b.pos + d) % (if leb 0x8000 (size b) then 2 ^ 32 else 2 ^ 16) }

-- The loop of `get_int` and `get_ulong`: `n` bytes are left, and `val` is a word of `w` bits.
unfoldable pub read_loop : ℕ → ℕ → ℕ → ℕ → List ℕ → ℕ
read_loop w zero shift val d = val
read_loop w (suc n) shift val [] = val
read_loop w (suc n) shift val (x ∷ d) =
    read_loop w n (shift + 8) ((val + x * 2 ^ shift % 2 ^ w) % 2 ^ w) d

-- The loop of `put(int32)` and `put(ulong)`: the bytes that it writes.
unfoldable pub write_loop : ℕ → ℕ → ℕ → List ℕ
write_loop zero shift val = []
write_loop (suc n) shift val = (val / 2 ^ shift % 256) ∷ write_loop n (shift + 8) val

-- An `int32` is its bit pattern, below 2 ^ 32.
unfoldable pub get_int : Buffer → Result (ℕ × Buffer)
get_int b =
    if ltb (size b - b.pos) sz_int
    then err overflow_error
    else ok (read_loop 32 sz_int 0 0 (rest_of b), mv_fw b sz_int)

unfoldable pub get_ulong : Buffer → Result (ℕ × Buffer)
get_ulong b =
    if ltb (size b - b.pos) sz_ulong
    then err overflow_error
    else ok (read_loop 64 sz_ulong 0 0 (rest_of b), mv_fw b sz_ulong)

-- `*data()`
abbrev first_byte : List ℕ → ℕ
first_byte [] = 0
first_byte (x ∷ d) = x

unfoldable pub get_byte : Buffer → Result (ℕ × Buffer)
get_byte b =
    if ltb (size b - b.pos) 1 then err overflow_error else ok (first_byte (rest_of b), mv_fw b 1)

-- The loop of `get_str`: how many bytes stand before a zero, or before the end.
unfoldable pub str_len : List ℕ → ℕ
str_len [] = 0
str_len (x ∷ d) = if x == 0 then 0 else suc (str_len d)

-- `none` is the null pointer, which leaves the position alone.
unfoldable pub get_str : Buffer → Option (List ℕ) × Buffer
get_str b =
    let i = str_len (rest_of b) in
    if leb (size b) (b.pos + i) || i == 0
    then (none, b)
    else (some (take i (rest_of b)), mv_fw b (i + 1))

-- What every `put` does: the check, the copy to `data()` and the move of the position.
unfoldable pub put_bytes : List ℕ → Buffer → Result Buffer
put_bytes src b =
    if ltb (size b - b.pos) (length src)
    then err overflow_error
    else ok (mv_fw (record b { bytes = splice b.pos src b.bytes }) (length src))

unfoldable pub put_byte : ℕ → Buffer → Result Buffer
put_byte x = put_bytes (x ∷ [])

unfoldable pub put_int : ℕ → Buffer → Result Buffer
put_int v = put_bytes (write_loop sz_int 0 v)

unfoldable pub put_ulong : ℕ → Buffer → Result Buffer
put_ulong v = put_bytes (write_loop sz_ulong 0 v)

-- `put(const std::string &)`: the bytes of the string and a zero.
unfoldable pub put_str : List ℕ → Buffer → Result Buffer
put_str s b = put_bytes (s ++ (0 ∷ [])) b

-- `put(const buffer &)`
unfoldable pub put_buffer : Buffer → Buffer → Result Buffer
put_buffer src = put_bytes (rest_of src)

-- `get(bufptr &dst)`: the copy has no check, so past the end of the source it is a fault. It
-- returns the filled buffer and the source.
unfoldable pub get_buffer : Buffer → Buffer → Result (Buffer × Buffer)
get_buffer dst b =
    let sz = size dst - dst.pos in
    if ltb (size b - b.pos) sz
    then err fault
    else ok (record dst { bytes = splice dst.pos (take sz (rest_of b)) dst.bytes }, mv_fw b sz)

unfoldable pub copy : (ℕ → ℕ) → Buffer → Result Buffer
copy raw b = alloc raw (size b - b.pos) >>= put_buffer b >>= λ other. ok (seek 0 other)
