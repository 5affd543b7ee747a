-- ===== src/Tests/Sgx.antt =====
-- Evidence of an enclave that is made and verified.
use portable_tls_ra.Base.{
  ℕ, length, ◌≡◌, refl, true, ◌&&◌, none, some, Option, List, [], ◌∷◌, replicate, arith, bytes_eq,
  memcmp_eq, if◌then◌else◌,
}
use portable_tls_ra.Pica.Evidence.Types.{CborItem, cbor_bytestring, cbor_array, cbor_map}
use portable_tls_ra.Tls.Verify.{verified_evidence}
use portable_tls_ra.Tls.Sgx.{
  SgxCalls, ClaimCalls, qv_ok, verify_sgx_evidence, claim_pairs, tpm2_quote_for,
  make_cbor_tpm2_claims_from_enclave,
}
use portable_tls_ra.Tls.Pkhash.{
  Loaded, tagged, plain, KeyCalls, EntryCalls, pkhash_items, make_cbor_pkhash_entry,
}
use portable_tls_ra.Tls.Attests.{
  keyless_pairs, verify_sgx_evidence-made, verify_sgx_evidence_any_key,
}
use portable_tls_ra.Tls.Sound.{IsAttested, verify_sgx_evidence-IsAttested}

abbrev pub nonce : List ℕ
nonce = replicate 32 6

abbrev quote' : List ℕ
quote' = replicate 1020 1

-- The only bytes that are written are the number of a map's entries.
abbrev serialize : List (CborItem × CborItem) → List ℕ
serialize pairs = 3 ∷ []

-- The key 2 has the DER form 2, of which the hash is 32 times its length.
abbrev entry_calls : EntryCalls
entry_calls = record {
  public_der = λ pem. some pem;
  digest = λ b. replicate 32 (length b);
  serialize_array = λ items. 5 ∷ 2 ∷ [];
}

abbrev keys : KeyCalls
keys = record {
  pem2der = λ pem. some pem;
  sha256 = λ b. replicate 32 (length b);
  sha384 = λ b. replicate 48 0;
  sha512 = λ b. replicate 64 0;
}

-- A seal that adds nothing, and a daemon that puts a byte before the nonce.
abbrev mk : ClaimCalls
mk = record {
  entry = entry_calls;
  myseal = λ n. n;
  via_daemon = λ sealed. 7 ∷ sealed;
  via_tpm = λ n. [];
  serialize = serialize;
}

abbrev entry : Loaded
entry = plain (cbor_array (pkhash_items (replicate 32 1)))

abbrev load : List ℕ → Option Loaded
load bytes =
    if bytes_eq bytes (3 ∷ [])
    then some (plain (cbor_map (claim_pairs (5 ∷ 2 ∷ []) nonce (7 ∷ nonce))))
    else if bytes_eq bytes (2 ∷ [])
    then some (plain (cbor_map (keyless_pairs nonce (7 ∷ nonce))))
    else if bytes_eq bytes (4 ∷ [])
    then some (tagged 60004 (cbor_array (cbor_bytestring quote' ∷ cbor_bytestring (3 ∷ []) ∷ [])))
    else if bytes_eq bytes (1 ∷ [])
    then some (tagged 60004 (cbor_array (cbor_bytestring quote' ∷ cbor_bytestring (2 ∷ []) ∷ [])))
    else if bytes_eq bytes (5 ∷ 2 ∷ [])
    then some entry
    else none

abbrev pub calls : SgxCalls
calls = record {
  load = load;
  quote_matches = λ q c. true;
  keys = keys;
  prepared = true;
  qv_result = λ q. qv_ok;
  tpm2_verified = λ q n. bytes_eq q (7 ∷ n);
}

verify_sgx_evidence-made_example :
    verify_sgx_evidence calls [] (4 ∷ []) (2 ∷ []) (replicate 32 8)
    ≡ some (
        if memcmp_eq 32 (replicate 32 8) nonce && calls.tpm2_verified (7 ∷ nonce) (replicate 32 8)
        then verified_evidence
        else 0)
unfolding bytes_eq make_cbor_pkhash_entry tpm2_quote_for make_cbor_tpm2_claims_from_enclave
verify_sgx_evidence-made_example =
    verify_sgx_evidence-made calls mk true [] (4 ∷ []) (2 ∷ []) nonce (2 ∷ []) (3 ∷ []) quote'
      (replicate 32 8) refl (refl, refl, refl, refl) refl (omega arith) refl refl
      (omega arith, refl) (omega arith, omega arith, omega arith, refl) refl refl

verify_sgx_evidence_any_key_example :
    verify_sgx_evidence calls [] (1 ∷ []) (8 ∷ 8 ∷ []) nonce
    ≡ some (
        if memcmp_eq 32 nonce nonce && calls.tpm2_verified (7 ∷ nonce) nonce
        then verified_evidence
        else 0)
unfolding bytes_eq
verify_sgx_evidence_any_key_example =
    verify_sgx_evidence_any_key calls [] (1 ∷ []) (8 ∷ 8 ∷ []) nonce (7 ∷ nonce) quote' (2 ∷ [])
      nonce refl (omega arith) refl (omega arith, refl)
      (omega arith, omega arith, omega arith, refl) refl refl

pub accepted : verify_sgx_evidence calls [] (4 ∷ []) (2 ∷ []) nonce ≡ some verified_evidence
unfolding bytes_eq make_cbor_pkhash_entry tpm2_quote_for make_cbor_tpm2_claims_from_enclave
    memcmp_eq
accepted =
    verify_sgx_evidence-made calls mk true [] (4 ∷ []) (2 ∷ []) nonce (2 ∷ []) (3 ∷ []) quote' nonce
      refl (refl, refl, refl, refl) refl (omega arith) refl refl (omega arith, refl)
      (omega arith, omega arith, omega arith, refl) refl refl

verify_sgx_evidence-IsAttested_example : IsAttested calls [] (4 ∷ []) (2 ∷ []) nonce
verify_sgx_evidence-IsAttested_example =
    verify_sgx_evidence-IsAttested calls [] (4 ∷ []) (2 ∷ []) nonce accepted
