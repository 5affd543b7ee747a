-- ===== src/Tls/Verify.antt =====
-- `verify_contents` and `verify_cert` of src/libcert.c, `verify`, `client_verify` and `server_verify` of
-- src/libtlsra.c. An `int` is its 32-bit word, so that -1 is 2 ^ 32 - 1.
use portable_tls_ra.Base.{
  ℕ, zero, suc, ◌-◌, ◌^◌, Bool, not, ◌&&◌, Option, none, some, List, [], ◌∷◌, Str, length, ◌==◌,
  if◌then◌else◌, bit_and,
}

abbrev pub verified_quote : ℕ
verified_quote = 1

abbrev pub verified_evidence : ℕ
verified_evidence = 2

abbrev pub which_serverside : ℕ
which_serverside = 0

abbrev pub which_clientside : ℕ
which_clientside = 1

abbrev pub minus_one : ℕ
minus_one = 2 ^ 32 - 1

-- What the code asks of OpenSSL: the PEM form of a certificate's key unless a call fails, the object of
-- an OID's text, the place of an object's first extension, an extension's bytes, and whether
-- `X509_verify_cert` returns 1 with the certificate alone in the store.
pub record Openssl (Cert : Type 0) : Type 0 where
  pub pem_pubkey : Cert → Option (List ℕ)
  pub txt2obj : Str → Option (List ℕ)
  pub ext_by_obj : Cert → List ℕ → Option ℕ
  pub ext_data : Cert → ℕ → List ℕ
  pub verify_ok : Cert → Bool

-- `struct verify_tab`: the function is given the extension, the key and the nonce.
pub record VerifyTab : Type 0 where
  pub oid_txt : Str
  pub verify_func : List ℕ → List ℕ → List ℕ → ℕ

-- What `verify` reads of the store's context and of the connection.
pub record StoreCtx (Cert : Type 0) : Type 0 where
  pub current_cert : Option Cert
  pub has_ssl : Bool
  pub error_depth : ℕ
  pub self_signed : Bool
  pub server_random : List ℕ
  pub client_random : List ℕ

module _ {Cert : Type 0} (ssl : Openssl Cert) (verify_tab : List VerifyTab) where
  -- The loop over the table; an extension at place 0 is passed over.
  unfoldable pub contents_from : List VerifyTab → Cert → List ℕ → List ℕ → ℕ → ℕ
  contents_from [] x509 pubkey nonce rc = rc
  contents_from (t ∷ tab) x509 pubkey nonce rc =
      let rest = contents_from tab x509 pubkey nonce rc in
      elim (ssl.txt2obj t.oid_txt) [
        | none ↦ rest
        | some target ↦ elim (ssl.ext_by_obj x509 target) [
          | none ↦ rest
          | some zero ↦ rest
          | some (suc loc) ↦ t.verify_func (ssl.ext_data x509 (suc loc)) pubkey nonce
        ]
      ]

  -- `rc` holds the result of `BIO_read`, the size of the key, when the loop begins.
  unfoldable pub verify_contents : Cert → List ℕ → ℕ
  unfolding contents_from
  verify_contents x509 nonce = elim (ssl.pem_pubkey x509) [
    | none ↦ 0
    | some pubkey ↦ contents_from verify_tab x509 pubkey nonce (length pubkey)
  ]

  unfoldable pub verify_cert : Cert → List ℕ → ℕ → ℕ
  verify_cert x509 nonce which =
      if not (ssl.verify_ok x509)
      then minus_one
      else if which == which_clientside
      then verified_evidence
      else verify_contents x509 nonce

  unfoldable pub verify : ℕ → StoreCtx Cert → ℕ → ℕ
  verify ok ctx which = elim ctx.current_cert [
    | none ↦ 0
    | some x509 ↦
        if not ctx.has_ssl
        then 0
        else if ok == 1
        then ok
        else if ctx.error_depth == 0 && ctx.self_signed
        then (let nonce =
              if which == which_serverside then ctx.server_random else ctx.client_random in
            if not (bit_and (verify_cert x509 nonce which) 3 == 0) then 1 else 0)
        else ok
  ]

  unfoldable pub client_verify : ℕ → StoreCtx Cert → ℕ
  unfolding verify
  client_verify ok ctx = verify ok ctx which_clientside

  unfoldable pub server_verify : ℕ → StoreCtx Cert → ℕ
  unfolding verify
  server_verify ok ctx = verify ok ctx which_serverside
