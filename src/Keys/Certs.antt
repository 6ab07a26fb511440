-- ===== src/Keys/Certs.antt =====
-- raft_enclave/system/cert_utils.cxx: the chain of certificates of a report, and its signature. The
-- calls of OpenSSL are a parameter; a certificate is what `PEM_read_bio_X509` makes of a text.
pub mod Chain
use enclave_raft.Prelude.{
  ℕ, zero, suc, ◌+◌, ◌-◌, Bool, true, false, ◌||◌, Option, none, some, List, [], ◌∷◌, ◌++◌, ◌==◌,
  leb, fault, codes, if◌then◌else◌, length, take, drop, Result, ok, err, ◌>>=◌, openssl_exception,
  invalid_argument,
}
use enclave_raft.Keys.CText.{strstr}

-- What the code calls of OpenSSL: the reading of a certificate, the verification of a chain against a
-- root, and that of a signature by the key of a certificate. An exception stands for an error code.
pub record OpenSsl (X509 : Type 0) : Type 0 where
  pub read_cert : List ℕ → Option X509
  pub verify_cert : X509 → List X509 → Result Bool
  pub digest_verify : List ℕ → List ℕ → X509 → Result Bool

abbrev pub begin_mark : List ℕ
begin_mark = codes "-----BEGIN"

abbrev pub is_empty : List ℕ → Bool
is_empty [] = true
is_empty (x ∷ xs) = false

-- `find("-----BEGIN", 1)` in a text: the characters before the next mark, and the text from it on.
unfoldable pub cut_cert : List ℕ → List ℕ × Option (List ℕ)
unfolding strstr
cut_cert text = elim (strstr begin_mark (drop 1 text)) [
  | none ↦ (text, none)
  | some rest ↦ (take (length text - length rest) text, some rest)
]

-- `sha256_verify` reads `size` bytes from the start of the body, whose zero byte is the last it has.
unfoldable pub read_content : ℕ → List ℕ → Result (List ℕ)
read_content size body =
    if leb size (length body + 1) then ok (take size (body ++ (0 ∷ []))) else err fault

module _ {X509 : Type 0} (ssl : OpenSsl X509) where
  unfoldable pub load_cert : List ℕ → Result X509
  load_cert text = elim (ssl.read_cert text) [ none ↦ err openssl_exception | some c ↦ ok c ]

  -- The loop of `load_cert_chain`: a certificate, and those of the rest of the text.
  unfoldable pub load_certs : ℕ → List ℕ → Result (List X509)
  unfolding load_cert cut_cert
  load_certs zero text = ok []
  load_certs (suc n) text =
      let (first, rest) = cut_cert text in
      load_cert first >>= λ c. elim rest [
        | none ↦ ok (c ∷ [])
        | some more ↦ load_certs n more >>= λ cs. ok (c ∷ cs)
      ]

  -- Each certificate takes a character at least.
  unfoldable pub load_cert_chain : List ℕ → Result (List X509)
  unfolding load_certs
  load_cert_chain text = load_certs (suc (length text)) text

  -- The end of `verify_certs_and_signature`. The first certificate of the chain is the one that signs.
  unfoldable pub verify_chain : X509 → ℕ → List ℕ → List ℕ → List X509 → Result Bool
  unfolding read_content
  verify_chain root size body sig [] = err openssl_exception
  verify_chain root size body sig (sign_cert ∷ chain) =
      ssl.verify_cert root (sign_cert ∷ chain) >>= λ good.
      (if good
        then (read_content size body >>= λ content. ssl.digest_verify content sig sign_cert)
        else ok false)

  -- `root` is the text of the certificate of Intel's authority.
  unfoldable pub verify_certs_and_signature : List ℕ → List ℕ → List ℕ → ℕ → List ℕ → Result Bool
  unfolding load_cert load_cert_chain verify_chain
  verify_certs_and_signature root certs sig size body =
      if is_empty certs || (is_empty sig || size == 0)
      then err invalid_argument
      else load_cert root >>= λ ca.
          load_cert_chain certs >>= λ chain. verify_chain ca size body sig chain
