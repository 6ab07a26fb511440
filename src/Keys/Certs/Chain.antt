-- ===== src/Keys/Certs/Chain.antt =====
-- The loop over a chain of certificates has rounds enough.
use enclave_raft.Prelude.{
  ℕ, zero, suc, ◌≤◌, ◌<◌, ◌≡◌, refl, Option-cases, inl, inr, none, some, List, [], ◌∷◌, length,
  arith,
}
use enclave_raft.Keys.CText.{starts_with, strstr}
use enclave_raft.Keys.Certs.{OpenSsl, begin_mark, cut_cert, load_certs}

-- A place in a text is not before its start.
strstr_le :
    (needle text found : List ℕ) → strstr needle text ≡ some found → length found ≤ length text
unfolding strstr
strstr_le needle [] found h = ground arith
strstr_le needle (c ∷ cs) found h = ground (arith, strstr_le needle cs found)

strstr_nil : strstr begin_mark [] ≡ none
unfolding strstr starts_with
strstr_nil = refl

-- The rest of the text begins at least one character later.
cut_cert-lt : (text rest : List ℕ) → (cut_cert text).1 ≡ some rest → length rest < length text
unfolding cut_cert
cut_cert-lt [] rest h = absurd (cc (rw (strstr_nil, cut_cert) at h))
cut_cert-lt (c ∷ cs) rest h = ground (arith, strstr_le begin_mark cs rest)

module _ {X509 : Type 0} (ssl : OpenSsl X509) where
  -- Any two numbers of rounds above the length of the text give the same.
  pub load_certs-enough :
      (n m : ℕ) (text : List ℕ)
      → length text < n
      → length text < m
      → load_certs ssl n text ≡ load_certs ssl m text
  unfolding load_certs
  load_certs-enough zero m text h g = absurd (omega arith)
  load_certs-enough (suc n) zero text h g = absurd (omega arith)
  load_certs-enough (suc n) (suc m) text h g = elim (Option-cases (cut_cert text).1) [
    | inl q ↦ rw q refl
    | inr (more, q) ↦
        let shorter = cut_cert-lt text more q in
        rw q (
          rw (load_certs-enough n m more (omega (arith, shorter, h)) (omega (arith, shorter, g)))
            refl)
  ]
