-- ===== src/Tests/Poc.antt =====
-- A run of the client that ends in success.
use portable_tls_ra.Base.{
  ◌≡◌, refl, true, false, some, none, List, [], ◌∷◌, ℕ, Option, if◌then◌else◌, bytes_eq, strncmp_eq,
  memcmp_eq,
}
use portable_tls_ra.Pica.Types.{Procinfo, PicaStmt, verified_all}
use portable_tls_ra.Pica.Hashtable.Defs.{
  Slot, find_hashtable, find_slot, reg_hashtable, reg_slot, empty_htable, myhash, reg_procs,
}
use portable_tls_ra.Pica.Digest.Defs.{
  pica_verify_binaries, binaries_from, binary_verified, pica_verify_digest, libs_match, lib_matches,
}
use portable_tls_ra.Pica.Check.Defs.{
  pica_check_ichain, pica_check_uids, pica_find_policy, chain_matches, match_uid,
}
use portable_tls_ra.Pica.Evidence.Types.{
  Evidence, CborDoc, cbor_map, cbor_bytestring, cbor_string, External, is_extract_tpm2_all,
}
use portable_tls_ra.Pica.Evidence.Extract.{
  key_tpm2_quote, key_pica, extract_tpm2evidence, extract_tpm2evidence_bundle, bundle_entry,
  bundle_from, evidence_entry, evidence_from, unpack_sercbor, is_key, bytestring_of, copy_apphash,
}
use portable_tls_ra.Pica.Evidence.Quote.{
  check_tpm2pcrs, check_apphash, extract_tpm2attest, read_tpm2attest, read_pubkey,
  verify_tpm2quote_sig, is_negative, signature_data, padding_for, is_supported,
}
use portable_tls_ra.Pica.Evidence.Verify.{body_bytes, pica_verify_tpm2all}
use portable_tls_ra.Pica.Evidence.Bundle.{encode_bundle}
use portable_tls_ra.Pica.Procinfo.Encode.{mycbor_sha256_binaries}
use portable_tls_ra.Pica.Procinfo.Defs.{
  pica_extract_pinfo, extract_procs, extract_proc, c_string, mycbor_get_int, mycbor_get_string,
  mycbor_copy_bstring,
}
use portable_tls_ra.Pica.Procinfo.Roundtrip.{procinfo_of}
use portable_tls_ra.Pica.Poc.Defs.{Inputs, verified, pica_poc_main}
use portable_tls_ra.Pica.Poc.Effects.{with_effect_input, relabel, pica_poc_main-with_effect}
use portable_tls_ra.Pica.Poc.Trusted.{IsTrusted, pica_poc_main-IsTrusted}
use portable_tls_ra.Pica.Evidence.Attested.{IsAttested}
use portable_tls_ra.Tests.Pica.{by_length, chain}
use portable_tls_ra.Tests.Evidence.{signature, attest, surroundings, entries}
use portable_tls_ra.Tests.Procinfo.{shell, editor}
use portable_tls_ra.Tests.Procinfo

abbrev load : List ℕ → Option CborDoc
load bytes =
    if bytes_eq bytes (1 ∷ [])
    then some (
        cbor_map (
          (cbor_string key_tpm2_quote, cbor_bytestring (2 ∷ []))
          ∷ (cbor_string key_pica, cbor_bytestring (7 ∷ []))
          ∷ []))
    else if bytes_eq bytes (2 ∷ [])
    then some (cbor_map (encode_bundle entries))
    else Procinfo.load bytes

abbrev external : External ℕ
external = record {
  cbor_load = load;
  signature_unmarshal = λ b s. signature b;
  attest_unmarshal = λ b a. (0, attest b);
  ecdsa_der = λ r s. none;
  pem_pubkey = λ b. some 5;
  verify_init = λ h p k. true;
  verify_final = λ h p k m s. bytes_eq s (8 ∷ []);
  digest = λ b. b;
}

abbrev stmt : PicaStmt
stmt = record {
  sid = none;
  effect = 1;
  exec_path = some (4 ∷ 5 ∷ []);
  uid_cnt = 1;
  uid = 1000 ∷ [];
  act_cnt = 0;
  action = [];
  ary_cnt = 1;
  iarray = chain (some (4 ∷ 4 ∷ []) ∷ some (4 ∷ 5 ∷ []) ∷ []) ∷ [];
}

abbrev inputs : Inputs
inputs = record {
  rflag = false;
  procinfo = procinfo_of shell ∷ procinfo_of editor ∷ [];
  entries = 2;
  ppol = some (record { version = none; entries = 1; stmt = stmt ∷ [] });
  nonce = some (6 ∷ []);
  measure = λ nonce. some (1 ∷ []);
  heap = [];
}

success : pica_poc_main external surroundings by_length inputs ≡ some (verified 31 stmt)
unfolding pica_poc_main reg_procs empty_htable find_hashtable find_slot reg_hashtable reg_slot
    myhash pica_verify_binaries binaries_from binary_verified pica_verify_digest libs_match
    lib_matches pica_check_ichain pica_check_uids pica_find_policy chain_matches match_uid
    pica_extract_pinfo extract_procs extract_proc mycbor_sha256_binaries c_string mycbor_get_int
    mycbor_get_string mycbor_copy_bstring pica_verify_tpm2all evidence_entry evidence_from
    extract_tpm2evidence extract_tpm2evidence_bundle bundle_entry bundle_from unpack_sercbor is_key
    bytestring_of copy_apphash strncmp_eq is_extract_tpm2_all extract_tpm2attest read_tpm2attest
    read_pubkey verify_tpm2quote_sig is_negative signature_data padding_for is_supported
    check_tpm2pcrs check_apphash bytes_eq memcmp_eq
success = refl

pica_poc_main-IsTrusted_example :
    (table : List (Slot Procinfo)) × (measured : List ℕ) × (s : Evidence) × (ent : ℕ) × (ps : List
      Procinfo)
    × (reg_procs by_length 2 (procinfo_of shell ∷ procinfo_of editor ∷ []) empty_htable
        ≡ some table)
    × IsAttested external surroundings measured s
    × (pica_extract_pinfo external [] (body_bytes s.picabody) ≡ some (some (ent, ps)))
    × IsTrusted by_length table ent ps stmt
unfolding verified_all
pica_poc_main-IsTrusted_example =
    pica_poc_main-IsTrusted external surroundings by_length inputs 31 stmt refl success refl

-- The same run with "Deny".
pica_poc_main-with_effect_example :
    pica_poc_main external surroundings by_length (with_effect_input 2 inputs)
    ≡ relabel external surroundings by_length 2
        (pica_poc_main external surroundings by_length inputs)
pica_poc_main-with_effect_example =
    pica_poc_main-with_effect external surroundings by_length 2 inputs
