-- ===== src/Keys/Report.antt =====
-- raft_enclave/system/key_store.cxx: the report of the attestation service on another enclave. What a
-- quote holds as report data is the SDK's, and a parameter.
pub mod Accepted
use enclave_raft.Prelude.{
  ℕ, Bool, true, false, ◌||◌, ◌&&◌, not, Option, none, some, List, [], ◌∷◌, ◌==◌, if◌then◌else◌,
  take, Result, ok, err, ◌>>=◌, openssl_exception, codes,
}
use enclave_raft.Json.{Json, Base64}
use enclave_raft.UrlDecode.{url_decode}
use enclave_raft.Keys.CText.{behind, before, strtoul_10}
use enclave_raft.Keys.Certs.{OpenSsl, verify_certs_and_signature}

-- The libraries, the certificate of the authority, and the report data of a quote.
pub record Platform (X509 J : Type 0) : Type 0 where
  pub ssl : OpenSsl X509
  pub json : Json J
  pub base64 : Base64
  pub root_ca : List ℕ
  pub report_data : List ℕ → List ℕ

unfoldable pub bytes_eq : List ℕ → List ℕ → Bool
bytes_eq [] [] = true
bytes_eq [] (y ∷ ys) = false
bytes_eq (x ∷ xs) [] = false
bytes_eq (x ∷ xs) (y ∷ ys) = x == y && bytes_eq xs ys

abbrev pub delimiter : List ℕ
delimiter = 13 ∷ 10 ∷ []

abbrev pub double_delimiter : List ℕ
double_delimiter = 13 ∷ 10 ∷ 13 ∷ 10 ∷ []

-- The value of a header, up to the end of its line.
unfoldable pub header_value : List ℕ → List ℕ → Result (ℕ × List ℕ)
unfolding behind before
header_value name packet = behind name packet >>= λ p. before delimiter p >>= λ n. ok (n, p)

-- `catch (OpenSSLException &)`
abbrev pub verdict : Result Bool → Result Bool
verdict (err openssl_exception) = ok false
verdict r = r

module _ {X509 J : Type 0} (p : Platform X509 J) where
  -- The body says that the quote is good, and holds it.
  unfoldable pub quote_of : J → Result (Option (List ℕ))
  unfolding bytes_eq
  quote_of body =
      if not (p.json.int_value (p.json.member (codes "version") body) == 3)
      then ok none
      else if not (
          bytes_eq (p.json.string_value (p.json.member (codes "isvEnclaveQuoteStatus") body))
            (codes "OK"))
      then ok none
      else p.base64 (p.json.string_value (p.json.member (codes "isvEnclaveQuoteBody") body))
        >>= λ quote. ok (some quote)

  unfoldable pub accept_body : Bool → J × Bool → Result (Option (List ℕ))
  unfolding quote_of
  accept_body good (body, parse_error) = if not good || parse_error then ok none else quote_of body

  unfoldable pub validate_verification_report : List ℕ → Result (Option (List ℕ))
  unfolding header_value url_decode strtoul_10 verify_certs_and_signature accept_body
  validate_verification_report packet = behind (codes "Content-Length: ") packet >>= λ l.
      header_value (codes "X-IASReport-Signature: ") packet >>= λ (n, s).
      p.base64 (take n s) >>= λ signature.
      header_value (codes "X-IASReport-Signing-Certificate: ") packet >>= λ (m, c).
      url_decode m c >>= λ certificates. behind double_delimiter packet >>= λ body.
      verdict
        (verify_certs_and_signature p.ssl p.root_ca certificates signature (strtoul_10 l) body)
      >>= λ good. accept_body good (p.json.parse body)
