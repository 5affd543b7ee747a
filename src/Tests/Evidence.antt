-- ===== src/Tests/Evidence.antt =====
-- An attester whose quotes carry no proof of the process information.
use portable_tls_ra.Base.{
  ◌≡◌, refl, ◌↔◌, true, false, some, none, List, [], ◌∷◌, arith, ℕ, Option, if◌then◌else◌, bytes_eq,
  memcmp_eq, strncmp_eq,
}
use portable_tls_ra.Pica.Evidence.Types.{
  CborDoc, cbor_bytestring, cbor_string, cbor_map, External, EvpCalls, Surroundings, Evidence,
  TpmsAttest, TpmtSignature, PcrSelections, rsassa, sha256, is_extract_tpm2_all,
}
use portable_tls_ra.Pica.Evidence.Extract.{
  key_tpm2_quote, key_pica, extract_tpm2evidence, extract_tpm2evidence_bundle, with_picabody,
  bundle_entry, bundle_from, evidence_entry, evidence_from, unpack_sercbor, is_key, bytestring_of,
  copy_apphash,
}
use portable_tls_ra.Pica.Evidence.Quote.{
  check_tpm2pcrs, check_apphash, extract_tpm2attest, read_tpm2attest, read_pubkey,
  verify_tpm2quote_sig, is_negative, signature_data, padding_for, is_supported,
}
use portable_tls_ra.Pica.Evidence.Verify.{pica_verify_tpm2all, no_evidence}
use portable_tls_ra.Pica.Evidence.Bundle.{
  BundleEntry, quote_entry, sign_entry, app_hash_entry, encode_bundle, collected,
  extract_tpm2evidence_roundtrip,
}
use portable_tls_ra.Pica.Evidence.Flags.{flags}
use portable_tls_ra.Pica.Evidence.Pcrs.{SameSelections, check_tpm2pcrs_iff}
use portable_tls_ra.Pica.Evidence.Attested.{
  IsAttested, pica_verify_tpm2all_iff, pica_verify_tpm2all_any_nonce,
}

abbrev pub registers : PcrSelections
registers = record {
  count = 1;
  pcr_selections = record { hash = 11; sizeof_select = 2; pcr_select = 1 ∷ 0 ∷ [] } ∷ [];
}

abbrev pub attest : List ℕ → TpmsAttest
attest digest = record {
  is_quote = true;
  extra_data = 0 ∷ [];
  pcr_selection = registers;
  pcr_digest = digest;
}

abbrev pub signature : List ℕ → TpmtSignature
signature bytes = record {
  sig_alg = rsassa;
  hash_alg = sha256;
  sig = bytes;
  signature_r = [];
  signature_s = [];
}

abbrev pub entries : List BundleEntry
entries = sign_entry (8 ∷ []) ∷ quote_entry (1 ∷ 2 ∷ []) ∷ app_hash_entry (4 ∷ []) ∷ []

abbrev load : List ℕ → Option CborDoc
load bytes =
    if bytes_eq bytes (1 ∷ [])
    then some (
        cbor_map (
          (cbor_string key_tpm2_quote, cbor_bytestring (2 ∷ []))
          ∷ (cbor_string key_pica, cbor_bytestring (7 ∷ 7 ∷ []))
          ∷ []))
    else if bytes_eq bytes (2 ∷ [])
    then some (cbor_map (encode_bundle entries))
    else none

-- A library in which the signature 8 is valid for every quote.
abbrev pub external : External ℕ
external = record {
  cbor_load = load;
  signature_unmarshal = λ b s. signature b;
  attest_unmarshal = λ b a. (0, attest b);
  ecdsa_der = λ r s. none;
  pem_pubkey = λ b. some 5;
  verify_init = λ h p k. true;
  verify_final = λ h p k m s. bytes_eq s (8 ∷ []);
  digest = λ b. b;
}

abbrev pub evp : EvpCalls
evp = record { ctx_new = true; init = true; update_old = true; update_digest = true; final = true }

abbrev pub surroundings : Surroundings
surroundings = record {
  ak_pub = 3 ∷ [];
  reg_size = 1;
  reg_quote = 9 ∷ [];
  evp = evp;
  apphash = [];
  tpm_sig = signature [];
  tpm_atst = attest [];
  reg_atst = attest [];
  picahash = [];
}

extract_tpm2evidence_roundtrip_example :
    extract_tpm2evidence external (1 ∷ []) (no_evidence surroundings)
    ≡ some (
      with_picabody (7 ∷ 7 ∷ []) (collected external entries (no_evidence surroundings)),
      flags true true true,
    )
unfolding bytes_eq
extract_tpm2evidence_roundtrip_example =
    extract_tpm2evidence_roundtrip external entries (1 ∷ []) (2 ∷ []) (7 ∷ 7 ∷ [])
      (no_evidence surroundings) (tt, (tt, (omega arith, tt))) refl refl

-- The nonce 6 and the "app-hash" 4 have nothing to do with the quote.
accepted :
    pica_verify_tpm2all external surroundings (1 ∷ []) (6 ∷ []) ≡ some (3, some (some (7 ∷ 7 ∷ [])))
unfolding pica_verify_tpm2all evidence_entry evidence_from extract_tpm2evidence
    extract_tpm2evidence_bundle bundle_entry bundle_from unpack_sercbor is_key bytestring_of
    copy_apphash strncmp_eq is_extract_tpm2_all extract_tpm2attest read_tpm2attest read_pubkey
    verify_tpm2quote_sig is_negative signature_data padding_for is_supported check_tpm2pcrs
    check_apphash bytes_eq memcmp_eq
accepted = refl

pica_verify_tpm2all_iff_example :
    (pica_verify_tpm2all external surroundings (1 ∷ []) (6 ∷ [])
      ≡ some (3, some (some (7 ∷ 7 ∷ []))))
    ↔ ((s : Evidence) × (◌≡◌ {A = ℕ} 3 3)
        × (some (7 ∷ 7 ∷ []) ≡ s.picabody)
        × IsAttested external surroundings (1 ∷ []) s)
pica_verify_tpm2all_iff_example =
    pica_verify_tpm2all_iff external surroundings (1 ∷ []) (6 ∷ []) 3 (some (7 ∷ 7 ∷ [])) refl

pica_verify_tpm2all_any_nonce_example :
    pica_verify_tpm2all external surroundings (1 ∷ []) (6 ∷ [])
    ≡ pica_verify_tpm2all external surroundings (1 ∷ []) (9 ∷ [])
pica_verify_tpm2all_any_nonce_example =
    pica_verify_tpm2all_any_nonce external surroundings (1 ∷ []) (6 ∷ []) (9 ∷ []) refl

-- A library in which no signature is valid.
abbrev no_signature : External ℕ
no_signature = record {
  cbor_load = load;
  signature_unmarshal = λ b s. signature b;
  attest_unmarshal = λ b a. (0, attest b);
  ecdsa_der = λ r s. none;
  pem_pubkey = λ b. some 5;
  verify_init = λ h p k. true;
  verify_final = λ h p k m s. false;
  digest = λ b. b;
}

check_tpm2pcrs_iff_example :
    (check_tpm2pcrs (attest (1 ∷ [])) (attest (2 ∷ [])) ≡ some true)
    ↔ ((◌≡◌ {A = ℕ} 1 1) × SameSelections 1 registers.pcr_selections registers.pcr_selections)
check_tpm2pcrs_iff_example = check_tpm2pcrs_iff (attest (1 ∷ [])) (attest (2 ∷ []))
