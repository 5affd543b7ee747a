-- ===== src/Pica/Evidence/Types.antt =====
-- The data that the evidence code of src/libpica_clnt.c handles, and the calls of third-party
-- libraries that it makes: a call of libcbor, of the TSS2 library or of OpenSSL is a field of
-- `External`, a function that gives back what the call does for its arguments.
use portable_tls_ra.Base.{ℕ, Bool, Option, List, ◌==◌, bit_and}

-- An item within a CBOR array or map, as the accessors of libcbor show it: an integer, a byte string,
-- a text string or an item of another kind, which the code never looks into.
pub data CborItem : Type 0 where
  cbor_uint : ℕ → CborItem
  cbor_bytestring : List ℕ → CborItem
  cbor_string : List ℕ → CborItem
  cbor_other : CborItem

-- What `cbor_load` returns: an array, a map (in the order of `cbor_map_handle`), or another item.
pub data CborDoc : Type 0 where
  cbor_array : List CborItem → CborDoc
  cbor_map : List (CborItem × CborItem) → CborDoc
  cbor_item : CborItem → CborDoc

-- `TPM2_ALG_RSASSA`, `TPM2_ALG_RSAPSS`, `TPM2_ALG_ECDSA`, and all others.
pub data SigAlg : Type 0 where
  rsassa : SigAlg
  rsapss : SigAlg
  ecdsa : SigAlg
  other_sig_alg : SigAlg

pub data HashAlg : Type 0 where
  sha1 : HashAlg
  sha256 : HashAlg
  sha384 : HashAlg
  sha512 : HashAlg
  other_hash_alg : HashAlg

-- What the code reads of a `TPMT_SIGNATURE`, whose `signature` is a union.
pub record TpmtSignature : Type 0 where
  pub sig_alg : SigAlg
  pub hash_alg : HashAlg
  pub sig : List ℕ
  pub signature_r : List ℕ
  pub signature_s : List ℕ

-- `TPMS_PCR_SELECTION`
pub record PcrSelection : Type 0 where
  pub hash : ℕ
  pub sizeof_select : ℕ
  pub pcr_select : List ℕ

-- `TPML_PCR_SELECTION`
pub record PcrSelections : Type 0 where
  pub count : ℕ
  pub pcr_selections : List PcrSelection

-- `TPMS_ATTEST`: is it of type TPM2_ST_ATTEST_QUOTE, the buffer of `extraData`, and the registers that
-- the quote selects with the digest of their values.
pub record TpmsAttest : Type 0 where
  pub is_quote : Bool
  pub extra_data : List ℕ
  pub pcr_selection : PcrSelections
  pub pcr_digest : List ℕ

-- How the signature context is set up for `EVP_DigestVerify`.
pub data Padding : Type 0 where
  no_padding : Padding
  pkcs1_padding : Padding
  pkcs1_pss_padding : Padding

pub record External (Key : Type 0) : Type 0 where
  -- The document, unless `res.error.code` reports an error.
  pub cbor_load : List ℕ → Option CborDoc
  -- What `Tss2_MU_TPMT_SIGNATURE_Unmarshal` leaves in the structure that held the second argument.
  pub signature_unmarshal : List ℕ → TpmtSignature → TpmtSignature
  -- The 32-bit code of `Tss2_MU_TPMS_ATTEST_Unmarshal`, and what it leaves in the structure.
  pub attest_unmarshal : List ℕ → TpmsAttest → ℕ × TpmsAttest
  -- The DER form of a signature (r, s), unless one of the calls that make it fails.
  pub ecdsa_der : List ℕ → List ℕ → Option (List ℕ)
  -- `PEM_read_bio_PUBKEY`, which may return NULL.
  pub pem_pubkey : List ℕ → Option Key
  -- Do the calls up to `EVP_DigestVerifyUpdate` succeed?
  pub verify_init : HashAlg → Padding → Option Key → Bool
  -- Does `EVP_DigestVerifyFinal` return 1 for the message and the signature?
  pub verify_final : HashAlg → Padding → Option Key → List ℕ → List ℕ → Bool
  -- `SHA256`
  pub digest : List ℕ → List ℕ

-- Which of the calls of `hash_extend_sha256` return 1, in their order.
pub record EvpCalls : Type 0 where
  pub ctx_new : Bool
  pub init : Bool
  pub update_old : Bool
  pub update_digest : Bool
  pub final : Bool

-- What surrounds a run: the files `ak_pub.pem` and `reg_quote.bin` (with the size that `file_size`
-- reports and the bytes that could be read), the calls of `EVP_Digest`, and what the uninitialised
-- variables of the stack hold.
pub record Surroundings : Type 0 where
  pub ak_pub : List ℕ
  pub reg_size : ℕ
  pub reg_quote : List ℕ
  pub evp : EvpCalls
  pub apphash : List ℕ
  pub tpm_sig : TpmtSignature
  pub tpm_atst : TpmsAttest
  pub reg_atst : TpmsAttest
  pub picahash : List ℕ

-- What is gathered from the evidence: "quote", "app-hash", "sign" and "pica".
pub record Evidence : Type 0 where
  pub quote : Option (List ℕ)
  pub apphash : List ℕ
  pub tpm_sig : TpmtSignature
  pub picabody : Option (List ℕ)

abbrev pub extract_tpm2_qute : ℕ
extract_tpm2_qute = 1

abbrev pub extract_tpm2_sign : ℕ
extract_tpm2_sign = 2

abbrev pub extract_tpm2_aphash : ℕ
extract_tpm2_aphash = 4

-- `IS_EXTRACT_TPM2_ALL(rc)`; the mask is 1 | 2 | 4.
unfoldable pub is_extract_tpm2_all : ℕ → Bool
is_extract_tpm2_all rc = bit_and rc 7 == 7
