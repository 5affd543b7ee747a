-- ===== src/Tls/Attests.antt =====
-- Which evidence of an enclave is accepted.
use portable_tls_ra.Base.{
  ℕ, ◌≤◌, ◌≡◌, inl, inr, refl, ap, ◌∙◌, Bool, true, false, ◌||◌, ◌&&◌, some, List, [], ◌∷◌, length,
  ltb, ◌==◌, if◌then◌else◌, memcmp_eq, strncmp_eq, Bool-cases, arith,
}
use portable_tls_ra.Pica.Evidence.Types.{
  CborItem, cbor_bytestring, cbor_string, cbor_array, cbor_map,
}
use portable_tls_ra.Pica.Evidence.Extract.{is_key, bytestring_of}
use portable_tls_ra.Tls.Verify.{verified_evidence}
use portable_tls_ra.Tls.Pkhash.{
  Loaded, plain, compare_cert_pubkey_against_cbor_claim_hash, make_cbor_pkhash_entry, pkhash_items,
  compare-pkhash_items,
}
use portable_tls_ra.Tls.Sgx.{
  key_pubkey_hash, key_nonce, key_tpm2_dash_quote, tag_tee_tpm2_quote, maxsize_ser_tpm2_quote,
  SgxCalls, Claims, check_pubkey, claim_round, claims_loop, qv_accepted, verify_sgx_evidence,
  ClaimCalls, tpm2_quote_for, claim_pairs, make_cbor_tpm2_claims_from_enclave,
}
use portable_tls_ra.Tls.Results.{Holds, Binds, verify_sgx_evidence-loop}

-- The claims without that of the key.
abbrev pub keyless_pairs : List ℕ → List ℕ → List (CborItem × CborItem)
keyless_pairs nonce quote =
    (cbor_string key_nonce, cbor_bytestring nonce)
    ∷ (cbor_string key_tpm2_dash_quote, cbor_bytestring quote)
    ∷ []

-- The serialised entry for a key in DER form.
abbrev pub entry_of : ClaimCalls → List ℕ → List ℕ
entry_of mk der = mk.entry.serialize_array (pkhash_items (mk.entry.digest der))

abbrev pub pairs_for : ClaimCalls → Bool → List ℕ → List ℕ → List (CborItem × CborItem)
pairs_for mk atflag der nonce = claim_pairs (entry_of mk der) nonce (tpm2_quote_for mk atflag nonce)

made_claims :
    (mk : ClaimCalls) (atflag : Bool) (pem nonce der claims : List ℕ)
    → mk.entry.public_der pem ≡ some der
    → make_cbor_tpm2_claims_from_enclave mk atflag pem nonce ≡ some (some claims)
    → (claims ≡ mk.serialize (pairs_for mk atflag der nonce))
      × ((length (entry_of mk der) == 0) ≡ false)
unfolding make_cbor_tpm2_claims_from_enclave make_cbor_pkhash_entry
made_claims mk atflag pem nonce der claims key made =
    let sent = tpm2_quote_for mk atflag nonce in
    let bytes = mk.serialize (pairs_for mk atflag der nonce) in
    elim (Bool-cases (length (entry_of mk der) == 0)) [
      | inl no_entry ↦
          let made' =
            rw (make_cbor_tpm2_claims_from_enclave, make_cbor_pkhash_entry, key, no_entry) at
              made in
          absurd (cc made')
      | inr entry ↦
          let made' =
            rw (make_cbor_tpm2_claims_from_enclave, make_cbor_pkhash_entry, key, entry) at made in
          elim (Bool-cases (length sent == 0 || length bytes == 0)) [
            | inl empty ↦ let no_claims = rw empty at made' in absurd (cc no_claims)
            | inr full ↦ let same = rw full at made' in (cc same, entry)
          ]
    ]

module _ (calls : SgxCalls) where
  -- The claims of an enclave, in the order in which it makes them.
  claims_loop-claim_pairs :
      (pem hash nonce quote : List ℕ) (c : Claims)
      → check_pubkey calls pem (cbor_bytestring hash) ≡ true
      → length nonce ≡ 32
      → length quote ≤ maxsize_ser_tpm2_quote
      → claims_loop calls pem (claim_pairs hash nonce quote) c
        ≡ some (some (record { sertpm2 = quote; nonce = nonce }))
  unfolding claims_loop claim_round is_key bytestring_of strncmp_eq
  claims_loop-claim_pairs pem hash nonce quote c key whole fits =
      let room : ltb maxsize_ser_tpm2_quote (length quote) ≡ false = ground (arith, fits) in
      let size : (length nonce == 32) ≡ true = ground (arith, whole) in
      rw (claims_loop, claim_round, key, size, room) refl

  -- OpenSSL, which makes the entry, and PEM2DER, which compares it, give the same DER form of the key, and SHA-256
  -- gives the same 32 bytes of it in both.
  abbrev pub IsKeyOf : ClaimCalls → List ℕ → List ℕ → Type 0
  IsKeyOf mk pem der =
      (mk.entry.public_der pem ≡ some der)
      × (calls.keys.pem2der pem ≡ some der)
      × (mk.entry.digest der ≡ calls.keys.sha256 der)
      × (length (calls.keys.sha256 der) ≡ 32)

  check_pubkey-loads :
      (pem hash : List ℕ) (entry : Loaded)
      → (length hash == 0) ≡ false
      → calls.load hash ≡ some entry
      → check_pubkey calls pem (cbor_bytestring hash)
        ≡ compare_cert_pubkey_against_cbor_claim_hash calls.keys pem entry
  unfolding check_pubkey
  check_pubkey-loads pem [] entry more loads = absurd (cc more)
  check_pubkey-loads pem (x ∷ hash) entry more loads = rw (check_pubkey, loads) refl

  check_pubkey-entry_of :
      (mk : ClaimCalls) (pem der : List ℕ)
      → IsKeyOf mk pem der
      → (length (entry_of mk der) == 0) ≡ false
      → calls.load (entry_of mk der)
        ≡ some (plain (cbor_array (pkhash_items (mk.entry.digest der))))
      → check_pubkey calls pem (cbor_bytestring (entry_of mk der)) ≡ true
  check_pubkey-entry_of mk pem der (read, decoded, same, size) more loads =
      check_pubkey-loads pem (entry_of mk der)
        (plain (cbor_array (pkhash_items (mk.entry.digest der)))) more loads
      ∙ compare-pkhash_items calls.keys mk.entry pem der decoded same size

  -- The claims that an enclave makes of its key, a nonce of 32 bytes and a quote of at most 1000 bytes, in evidence
  -- with a quote of SGX of 1020 to 8192 bytes for them that its verification, of which the parameters can be had, accepts, where libcbor reads what it has written, and where the
  -- two decoders of the key agree on its DER form, and SHA-256 on its 32 bytes: the evidence is accepted for the key and a nonce exactly if
  -- this is the nonce of the claims and the quote of the TPM is accepted for it, and fails else.
  pub verify_sgx_evidence-made :
      (mk : ClaimCalls) (atflag : Bool) (stack evi pem nonce der claims quote nonce' : List ℕ)
      → length nonce ≡ 32
      → IsKeyOf mk pem der
      → make_cbor_tpm2_claims_from_enclave mk atflag pem nonce ≡ some (some claims)
      → length (tpm2_quote_for mk atflag nonce) ≤ maxsize_ser_tpm2_quote
      → calls.load (entry_of mk der)
        ≡ some (plain (cbor_array (pkhash_items (mk.entry.digest der))))
      → calls.load (mk.serialize (pairs_for mk atflag der nonce))
        ≡ some (plain (cbor_map (pairs_for mk atflag der nonce)))
      → Holds calls evi tag_tee_tpm2_quote quote claims
      → Binds calls quote claims
      → calls.prepared ≡ true
      → qv_accepted (calls.qv_result quote) ≡ true
      → verify_sgx_evidence calls stack evi pem nonce'
        ≡ some (
            if memcmp_eq 32 nonce' nonce
              && calls.tpm2_verified (tpm2_quote_for mk atflag nonce) nonce'
            then verified_evidence
            else 0)
  verify_sgx_evidence-made mk atflag stack evi pem nonce der claims quote nonce' whole is_key_of
        made fits entry_loads loads holds binds prepared accepted =
      let sent = tpm2_quote_for mk atflag nonce in
      let (written, more) = made_claims mk atflag pem nonce der claims is_key_of.0 made in
      let key = check_pubkey-entry_of mk pem der is_key_of more entry_loads in
      verify_sgx_evidence-loop calls stack evi pem nonce sent quote claims nonce'
        (cbor_string key_pubkey_hash, cbor_bytestring (entry_of mk der)) (keyless_pairs nonce sent)
        (ap calls.load written ∙ loads)
        (claims_loop-claim_pairs pem (entry_of mk der) nonce sent
          (record { sertpm2 = []; nonce = stack }) key whole fits)
        holds binds prepared accepted

  -- Evidence whose claims have no "pubkey-hash", but a nonce of 32 bytes and a quote of the TPM of at most 1000 bytes, with a
  -- quote of SGX of 1020 to 8192 bytes for them that its verification, of which the parameters can be had, accepts, is not refused: for every key of a certificate it is accepted exactly if the
  -- nonce is that of the claims and the quote of the TPM is accepted for it.
  pub verify_sgx_evidence_any_key :
      (stack evi pem nonce sent quote claims nonce' : List ℕ)
      → length nonce ≡ 32
      → length sent ≤ maxsize_ser_tpm2_quote
      → calls.load claims ≡ some (plain (cbor_map (keyless_pairs nonce sent)))
      → Holds calls evi tag_tee_tpm2_quote quote claims
      → Binds calls quote claims
      → calls.prepared ≡ true
      → qv_accepted (calls.qv_result quote) ≡ true
      → verify_sgx_evidence calls stack evi pem nonce'
        ≡ some (
            if memcmp_eq 32 nonce' nonce && calls.tpm2_verified sent nonce'
            then verified_evidence
            else 0)
  unfolding claims_loop claim_round is_key bytestring_of strncmp_eq
  verify_sgx_evidence_any_key stack evi pem nonce sent quote claims nonce' whole fits loads holds
        binds prepared accepted =
      let room : ltb maxsize_ser_tpm2_quote (length sent) ≡ false = ground (arith, fits) in
      let size : (length nonce == 32) ≡ true = ground (arith, whole) in
      verify_sgx_evidence-loop calls stack evi pem nonce sent quote claims nonce'
        (cbor_string key_nonce, cbor_bytestring nonce)
        ((cbor_string key_tpm2_dash_quote, cbor_bytestring sent) ∷ []) loads
        (rw (claims_loop, claim_round, size, room) refl) holds binds prepared accepted
