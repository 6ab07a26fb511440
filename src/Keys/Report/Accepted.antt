-- ===== src/Keys/Report/Accepted.antt =====
-- What a report that is accepted has been through.
use enclave_raft.Prelude.{
  ℕ, ◌≡◌, refl, ap, ◌∙◌, Bool, true, false, Bool-cases, inl, inr, ◌||◌, ◌==◌, some, List, [], ◌∷◌,
  take, Result, ok, err, bind-ok, codes, arith, openssl_exception,
}
use enclave_raft.Keys.CText.{behind, strtoul_10}
use enclave_raft.UrlDecode.{url_decode}
use enclave_raft.Keys.Certs.{
  OpenSsl, load_cert, load_cert_chain, read_content, verify_chain, verify_certs_and_signature,
  is_empty,
}
use enclave_raft.Keys.Report.{
  Platform, bytes_eq, double_delimiter, header_value, verdict, quote_of, accept_body,
  validate_verification_report,
}

bytes_eq-eq : (xs ys : List ℕ) → bytes_eq xs ys ≡ true → xs ≡ ys
unfolding bytes_eq
bytes_eq-eq [] [] h = refl
bytes_eq-eq [] (y ∷ ys) h = cc
bytes_eq-eq (x ∷ xs) [] h = cc
bytes_eq-eq (x ∷ xs) (y ∷ ys) h = ground (arith, bytes_eq-eq xs ys)

module _ {X509 : Type 0} (ssl : OpenSsl X509) where
  -- The chain leads to the root, and its first certificate has signed the content with `sig`.
  pub record IsSigned (root content sig certs : List ℕ) : Type 0 where
    pub ca : X509
    pub sign_cert : X509
    pub chain : List X509
    pub trusted : load_cert ssl root ≡ ok ca
    pub loaded : load_cert_chain ssl certs ≡ ok (sign_cert ∷ chain)
    pub verified : ssl.verify_cert ca (sign_cert ∷ chain) ≡ ok true
    pub signed : ssl.digest_verify content sig sign_cert ≡ ok true

  verify_chain-true :
      (ca : X509) (size : ℕ) (body sig : List ℕ) (chain : List X509)
      → verify_chain ssl ca size body sig chain ≡ ok true
      → (c : X509) × (cs : List X509) × (content : List ℕ) × (chain ≡ c ∷ cs)
        × (read_content size body ≡ ok content)
        × (ssl.verify_cert ca (c ∷ cs) ≡ ok true)
        × (ssl.digest_verify content sig c ≡ ok true)
  unfolding verify_chain
  verify_chain-true ca size body sig [] h = cc
  verify_chain-true ca size body sig (c ∷ cs) h =
      let (good, k, v) = bind-ok _ (ssl.verify_cert ca (c ∷ cs)) h in
      let yes_good : good ≡ true = ground arith in
      let (content, s, r) =
        bind-ok (λ l. ssl.digest_verify l sig c) (read_content size body) (rw yes_good at k) in
      (c, cs, content, refl, r, rw yes_good at v, s)

  pub verify_certs_and_signature-true :
      (root certs sig : List ℕ) (size : ℕ) (body : List ℕ)
      → verify_certs_and_signature ssl root certs sig size body ≡ ok true
      → ((size == 0) ≡ false)
        × ((content : List ℕ) × (read_content size body ≡ ok content)
            × IsSigned root content sig certs)
  unfolding verify_certs_and_signature
  verify_certs_and_signature-true root certs sig size body h =
      elim (Bool-cases (is_empty certs || (is_empty sig || size == 0))) [
        | inl q ↦ absurd (cc (rw q at h))
        | inr q ↦
            let (ca, k, t) = bind-ok _ (load_cert ssl root) (rw q at h) in
            let (chain, m, l) = bind-ok _ (load_cert_chain ssl certs) k in
            let (c, cs, content, e, r, v, s) = verify_chain-true ca size body sig chain m in
            (
              ground arith,
              (
                content,
                r,
                record {
                  ca = ca;
                  sign_cert = c;
                  chain = cs;
                  trusted = t;
                  loaded = l ∙ ap ok e;
                  verified = v;
                  signed = s;
                },
              ),
            )
      ]

verdict-true : (r : Result Bool) → verdict r ≡ ok true → r ≡ ok true
verdict-true (ok b) h = h
verdict-true (err openssl_exception) h = cc
verdict-true (err x) h = cc

module _ {X509 J : Type 0} (p : Platform X509 J) where
  -- The body of the report names its version and says that the quote is good.
  quote_of-some :
      (body : J) (q : List ℕ)
      → quote_of p body ≡ ok (some q)
      → (p.json.int_value (p.json.member (codes "version") body) ≡ 3)
        × (p.json.string_value (p.json.member (codes "isvEnclaveQuoteStatus") body) ≡ codes "OK")
        × (p.base64 (p.json.string_value (p.json.member (codes "isvEnclaveQuoteBody") body)) ≡ ok q)
  unfolding quote_of
  quote_of-some body q h =
      elim (Bool-cases (p.json.int_value (p.json.member (codes "version") body) == 3)) [
        | inr v ↦ absurd (cc (rw v at h))
        | inl v ↦
            elim (Bool-cases (
              bytes_eq (p.json.string_value (p.json.member (codes "isvEnclaveQuoteStatus") body))
                (codes "OK"))) [
                  | inr s ↦ absurd (cc (rw (v, s) at h))
                  | inl s ↦
                      let (quote, k, b) =
                        bind-ok (λ quote. ok (some quote))
                          (p.base64 (
                            p.json.string_value (p.json.member (codes "isvEnclaveQuoteBody") body)))
                          (rw (v, s) at h) in
                      (ground arith, bytes_eq-eq _ _ s, b ∙ ap ok (cc))
                ]
      ]

  accept_body-some :
      (good : Bool) (body : J) (parse_error : Bool) (q : List ℕ)
      → accept_body p good (body, parse_error) ≡ ok (some q)
      → (good ≡ true) × (parse_error ≡ false) × (quote_of p body ≡ ok (some q))
  unfolding accept_body
  accept_body-some true body false q h = (refl, refl, h)
  accept_body-some true body true q h = cc
  accept_body-some false body false q h = cc
  accept_body-some false body true q h = cc

  -- The signed text is the start of the body, as long as the header `Content-Length` says, which is not
  -- signed itself; the signature and the certificates are those of the headers, and the quote is that of
  -- the body.
  pub record IsAccepted (packet quote : List ℕ) : Type 0 where
    pub body : List ℕ
    pub size : ℕ
    pub content : List ℕ
    pub sig : List ℕ
    pub certs : List ℕ
    pub length_text : List ℕ
    pub sig_value : ℕ × List ℕ
    pub certs_value : ℕ × List ℕ
    pub length_found : behind (codes "Content-Length: ") packet ≡ ok length_text
    pub length_read : size ≡ strtoul_10 length_text
    pub not_empty : (size == 0) ≡ false
    pub sig_found : header_value (codes "X-IASReport-Signature: ") packet ≡ ok sig_value
    pub sig_read : p.base64 (take sig_value.0 sig_value.1) ≡ ok sig
    pub certs_found :
        header_value (codes "X-IASReport-Signing-Certificate: ") packet ≡ ok certs_value
    pub certs_read : url_decode certs_value.0 certs_value.1 ≡ ok certs
    pub stands : behind double_delimiter packet ≡ ok body
    pub reaches : read_content size body ≡ ok content
    pub signed : IsSigned p.ssl p.root_ca content sig certs
    pub parsed : (p.json.parse body).1 ≡ false
    pub version : p.json.int_value (p.json.member (codes "version") (p.json.parse body).0) ≡ 3
    pub status :
        p.json.string_value (p.json.member (codes "isvEnclaveQuoteStatus") (p.json.parse body).0)
        ≡ codes "OK"
    pub carried :
        p.base64
          (p.json.string_value (p.json.member (codes "isvEnclaveQuoteBody") (p.json.parse body).0))
        ≡ ok quote

  -- A report is accepted only if the first certificate of the chain in its header, which leads to the
  -- authority's, has signed with the signature of its header the first bytes of the body, one at least and
  -- as many as the header `Content-Length` says; and the whole body has version 3, says that the quote is
  -- good, and holds the quote that is returned.
  pub validate_verification_report-IsAccepted :
      (packet quote : List ℕ)
      → validate_verification_report p packet ≡ ok (some quote)
      → IsAccepted packet quote
  unfolding validate_verification_report
  validate_verification_report-IsAccepted packet quote h =
      let (l, h1, el) = bind-ok _ (behind (codes "Content-Length: ") packet) h in
      let (s, h2, es) = bind-ok _ (header_value (codes "X-IASReport-Signature: ") packet) h1 in
      let (sig, h3, eg) = bind-ok _ (p.base64 (take s.0 s.1)) h2 in
      let (c, h4, ec) =
        bind-ok _ (header_value (codes "X-IASReport-Signing-Certificate: ") packet) h3 in
      let (certs, h5, et) = bind-ok _ (url_decode c.0 c.1) h4 in
      let (body, h6, eb) = bind-ok _ (behind double_delimiter packet) h5 in
      let (good, h7, ev) =
        bind-ok _
          (verdict (verify_certs_and_signature p.ssl p.root_ca certs sig (strtoul_10 l) body)) h6 in
      let (yes_good, parsed, q) =
        accept_body-some good (p.json.parse body).0 (p.json.parse body).1 quote h7 in
      let (positive, (content, r, signed)) =
        verify_certs_and_signature-true p.ssl p.root_ca certs sig (strtoul_10 l) body
          (verdict-true _ (ev ∙ ap ok yes_good)) in
      let (v, st, b) = quote_of-some (p.json.parse body).0 quote q in
      record {
        body = body;
        size = strtoul_10 l;
        content = content;
        sig = sig;
        certs = certs;
        length_text = l;
        sig_value = s;
        certs_value = c;
        length_found = el;
        length_read = refl;
        not_empty = positive;
        sig_found = es;
        sig_read = eg;
        certs_found = ec;
        certs_read = et;
        stands = eb;
        reaches = r;
        signed = signed;
        parsed = parsed;
        version = v;
        status = st;
        carried = b;
      }
