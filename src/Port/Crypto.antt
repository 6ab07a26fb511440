-- ===== src/Port/Crypto.antt =====
-- raft_enclave/port/crypto.cxx: what is sent between enclaves. The cipher is OpenSSL's AES in counter
-- mode, and a parameter.
use enclave_raft.Prelude.{
  ℕ, ◌≤◌, ◌≡◌, refl, ap, sym, ◌∙◌, List, [], ◌∷◌, ◌++◌, ltb, if◌then◌else◌, length, length-append,
  take, drop, take-length_append, drop-length_append, Result, ok, err, fault, arith, le→ltb,
}

-- Encryption and decryption with a key and an initial block.
pub record Cipher : Type 0 where
  pub aes_encrypt : List ℕ → List ℕ → List ℕ → List ℕ
  pub aes_decrypt : List ℕ → List ℕ → List ℕ → List ℕ

abbrev pub s_block_size : ℕ
s_block_size = 16

-- `get_key()`
abbrev pub secret : List ℕ
secret =
    0x82 ∷ 0x86 ∷ 0x82 ∷ 0x35 ∷ 0x3d ∷ 0x50 ∷ 0x93 ∷ 0x4b ∷ 0x0a ∷ 0x67 ∷ 0x25 ∷ 0x91 ∷ 0xdb ∷ 0x57
    ∷ 0x0e ∷ 0xea ∷ 0x69 ∷ 0x3e ∷ 0xeb ∷ 0x8c ∷ 0xf1 ∷ 0xad ∷ 0x44 ∷ 0xcf ∷ 0x5e ∷ 0x50 ∷ 0xf8
    ∷ 0xce ∷ 0x5a ∷ 0x07 ∷ 0x46 ∷ 0x1d ∷ []

-- The random initial block `iv` goes before the text.
unfoldable pub raft_encrypt : Cipher → List ℕ → List ℕ → List ℕ
raft_encrypt c iv text = iv ++ c.aes_encrypt secret iv text

-- The block is taken from the message; one that is too short for it is read past its end.
unfoldable pub raft_decrypt : Cipher → List ℕ → Result (List ℕ)
raft_decrypt c msg =
    if ltb (length msg) s_block_size
    then err fault
    else ok (c.aes_decrypt secret (take s_block_size msg) (drop s_block_size msg))

-- Decryption with the same key and block undoes encryption.
abbrev pub IsCipher : Cipher → Type 0
IsCipher c = (key iv text : List ℕ) → c.aes_decrypt key iv (c.aes_encrypt key iv text) ≡ text

pub raft_decrypt-raft_encrypt :
    (c : Cipher) (iv text : List ℕ)
    → IsCipher c
    → length iv ≡ s_block_size
    → raft_decrypt c (raft_encrypt c iv text) ≡ ok text
unfolding raft_decrypt raft_encrypt
raft_decrypt-raft_encrypt c iv text h e =
    rw (le→ltb (length (iv ++ hidden)) 16 long) (rw (front, behind, h secret iv text) refl)
  where
    hidden : List ℕ
    hidden = c.aes_encrypt secret iv text

    long : 16 ≤ length (iv ++ hidden)
    long = omega (arith, e, length-append iv hidden)

    front : take 16 (iv ++ hidden) ≡ iv
    front = ap (λ (n : ℕ). take n (iv ++ hidden)) (sym e) ∙ take-length_append iv hidden

    behind : drop 16 (iv ++ hidden) ≡ hidden
    behind = ap (λ (n : ℕ). drop n (iv ++ hidden)) (sym e) ∙ drop-length_append iv hidden
