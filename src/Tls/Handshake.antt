-- ===== src/Tls/Handshake.antt =====
-- `make_x509cert` of src/libcert.c, for the extensions it adds, `on_client_hello` and `on_client_cert` of
-- src/libtlsra.c. `none` stands for the use of an uninitialised pointer.
use portable_tls_ra.Base.{
  ℕ, Bool, not, Option, none, some, List, [], ◌∷◌, ◌==◌, if◌then◌else◌, ◌>>=◌,
}

-- A buffer as the caller's pointer and size describe it.
pub data Buffer : Type 0 where
  null : Buffer
  uninitialised : Buffer
  filled : List ℕ → Buffer

-- An extension of the certificate: the quote or the tagged evidence, with its bytes.
pub data Extension : Type 0 where
  quote_ext : List ℕ → Extension
  evidence_ext : List ℕ → Extension

-- The bytes of a buffer, those of a NULL one being none.
unfoldable pub buffer_bytes : Buffer → Option (List ℕ)
buffer_bytes null = some []
buffer_bytes uninitialised = none
buffer_bytes (filled b) = some b

-- `if (quote || evidence) { ... }`
unfoldable pub x509_extensions : Buffer → Buffer → Option (List Extension)
unfolding buffer_bytes
x509_extensions null null = some []
x509_extensions null uninitialised = none
x509_extensions null (filled e) = some (quote_ext [] ∷ evidence_ext e ∷ [])
x509_extensions uninitialised evidence = none
x509_extensions (filled q) evidence =
    buffer_bytes evidence >>= λ e. some (quote_ext q ∷ evidence_ext e ∷ [])

-- What `make_certificate_evidence` leaves in the caller's quote and evidence.
pub record MadeEvidence : Type 0 where
  pub quote : Buffer
  pub evidence : Buffer

-- The calls that the callbacks make: `make_certificate_evidence` for a nonce and the buffers of the
-- caller, and whether `SSL_use_certificate` and `SSL_use_PrivateKey` return 1.
pub record Calls : Type 0 where
  pub make_evidence : List ℕ → Buffer → Buffer → MadeEvidence
  pub use_certificate : Bool
  pub use_private_key : Bool

-- The certificate that the server presents: a new one with extensions, or the one of the file.
pub data ServerCert : Type 0 where
  made_cert : List Extension → ServerCert
  file_cert : ServerCert

pub data HelloResult : Type 0 where
  client_hello_success : ServerCert → HelloResult
  client_hello_error : HelloResult

-- The two calls that install the certificate and its key.
unfoldable pub install : Calls → ServerCert → HelloResult
install calls cert =
    if not calls.use_certificate
    then client_hello_error
    else if not calls.use_private_key
    then client_hello_error
    else client_hello_success cert

unfoldable pub on_client_hello : Calls → ℕ → List ℕ → Option HelloResult
unfolding install x509_extensions
on_client_hello calls rflag nonce =
    if rflag == 0
    then some (install calls file_cert)
    else if rflag == 2
    then (x509_extensions null null >>= λ exts. some (install calls (made_cert exts)))
    else (let made = calls.make_evidence nonce null null in
        x509_extensions made.quote made.evidence >>= λ exts. some (install calls (made_cert exts)))

-- The quote is NULL before the call, the evidence is not initialised.
unfoldable pub on_client_cert : Calls → List ℕ → Option (List Extension)
unfolding x509_extensions
on_client_cert calls nonce =
    let made = calls.make_evidence nonce null uninitialised in
    x509_extensions made.quote made.evidence
