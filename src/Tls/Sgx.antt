-- ===== src/Tls/Sgx.antt =====
-- `extract_cbor_evidence_and_compare_hash`, as far as it goes beyond its calls, and `verify_SGX_evidence` of src/libintel.c,
-- and `make_cbor_tpm2_claims_from_enclave` of src/libtpm2.c. `none` stands for an access outside of a buffer or of an
-- item of the wrong kind.
use portable_tls_ra.Base.{
  ℕ, Bool, true, false, not, ◌||◌, ◌&&◌, Option, none, some, List, [], ◌∷◌, Str, length, take, ltb,
  ◌==◌, if◌then◌else◌, ◌>>=◌, memcmp_eq,
}
use portable_tls_ra.Pica.Evidence.Types.{
  CborItem, cbor_uint, cbor_bytestring, cbor_string, cbor_other, cbor_array, cbor_map,
}
use portable_tls_ra.Pica.Evidence.Extract.{is_key, bytestring_of}
use portable_tls_ra.Tls.Verify.{verified_evidence}
use portable_tls_ra.Tls.Pkhash.{
  Loaded, tagged, plain, KeyCalls, compare_cert_pubkey_against_cbor_claim_hash, EntryCalls,
  make_cbor_pkhash_entry,
}

-- "pubkey-hash"
abbrev pub key_pubkey_hash : Str
key_pubkey_hash = 112 ∷ 117 ∷ 98 ∷ 107 ∷ 101 ∷ 121 ∷ 45 ∷ 104 ∷ 97 ∷ 115 ∷ 104 ∷ []

-- "tpm2-quote"
abbrev pub key_tpm2_dash_quote : Str
key_tpm2_dash_quote = 116 ∷ 112 ∷ 109 ∷ 50 ∷ 45 ∷ 113 ∷ 117 ∷ 111 ∷ 116 ∷ 101 ∷ []

-- "nonce"
abbrev pub key_nonce : Str
key_nonce = 110 ∷ 111 ∷ 110 ∷ 99 ∷ 101 ∷ []

abbrev pub tag_tee_quote : ℕ
tag_tee_quote = 60000

abbrev pub tag_tee_tpm2_quote : ℕ
tag_tee_tpm2_quote = 60004

abbrev pub quote_min_size : ℕ
quote_min_size = 1020

abbrev pub raw_quote_max_size : ℕ
raw_quote_max_size = 8192

abbrev pub maxsize_ser_tpm2_quote : ℕ
maxsize_ser_tpm2_quote = 1000

-- The values of `sgx_ql_qv_result_t`, as far as they are told apart.
pub data QvResult : Type 0 where
  qv_ok : QvResult
  qv_out_of_date : QvResult
  qv_invalid_signature : QvResult
  qv_revoked : QvResult
  qv_unspecified : QvResult
  qv_other : QvResult

-- What the verification calls: `cbor_load` unless it reports an error, `sgx_tls_compare_quote_hash` of a quote and
-- claims, what is called for the hash of a key, whether the supplemental data and the random number can be had, the `qv_result` of `sgx_tls_verify_quote_ocall`, whose own result is not tested, and
-- whether `ocall_verify_tpm2_quote` accepts a serialised quote for a nonce.
pub record SgxCalls : Type 0 where
  pub load : List ℕ → Option Loaded
  pub quote_matches : List ℕ → List ℕ → Bool
  pub keys : KeyCalls
  pub prepared : Bool
  pub qv_result : List ℕ → QvResult
  pub tpm2_verified : List ℕ → List ℕ → Bool

-- `out_sertpm2` and its size, and `out_nonce`.
pub record Claims : Type 0 where
  pub sertpm2 : List ℕ
  pub nonce : List ℕ

-- The `switch` on the result of the quote's verification.
abbrev pub qv_accepted : QvResult → Bool
qv_accepted qv_ok = true
qv_accepted qv_out_of_date = true
qv_accepted qv_invalid_signature = false
qv_accepted qv_revoked = false
qv_accepted qv_unspecified = false
qv_accepted qv_other = true

module _ (calls : SgxCalls) where
  -- The claim "pubkey-hash": is it that of the key?
  unfoldable pub check_pubkey : List ℕ → CborItem → Bool
  check_pubkey pem (cbor_uint n) = false
  check_pubkey pem (cbor_string s) = false
  check_pubkey pem cbor_other = false
  check_pubkey pem (cbor_bytestring []) = false
  check_pubkey pem (cbor_bytestring (x ∷ buf)) = elim (calls.load (x ∷ buf)) [
    | none ↦ false
    | some entry ↦ compare_cert_pubkey_against_cbor_claim_hash calls.keys pem entry
  ]

  -- A round of the loop over the claims; the inner `none` is an error. A key is compared as far as it goes.
  unfoldable pub claim_round : List ℕ → CborItem → CborItem → Claims → Option (Option Claims)
  claim_round pem (cbor_uint n) value c = some none
  claim_round pem (cbor_bytestring b) value c = some none
  claim_round pem cbor_other value c = some none
  claim_round pem (cbor_string key) value c =
      if length key == 0
      then some none
      else if is_key key_pubkey_hash key
      then some (if check_pubkey pem value then some c else none)
      else if is_key key_tpm2_dash_quote key
      then (bytestring_of value >>= λ b.
          some
            (some (record c { sertpm2 = if ltb maxsize_ser_tpm2_quote (length b) then [] else b })))
      else if is_key key_nonce key
      then (bytestring_of value >>= λ b.
          some (some (record c { nonce = if length b == 32 then b else c.nonce })))
      else some (some c)

  unfoldable pub claims_loop : List ℕ → List (CborItem × CborItem) → Claims → Option (Option Claims)
  claims_loop pem [] c = some (some c)
  claims_loop pem ((key, value) ∷ pairs) c = elim (claim_round pem key value c) [
    | none ↦ none
    | some none ↦ some none
    | some (some c') ↦ claims_loop pem pairs c'
  ]

  -- The tag, the quote and the claims that are behind an array of two byte strings.
  unfoldable pub evidence_parts : List ℕ → Option (ℕ × List ℕ × List ℕ)
  evidence_parts [] = none
  evidence_parts (x ∷ buf) = elim (calls.load (x ∷ buf)) [
    | some (tagged t (cbor_array (cbor_bytestring quote ∷ cbor_bytestring claims ∷ []))) ↦
        if not (t == tag_tee_quote || t == tag_tee_tpm2_quote)
        then none
        else if ltb (length quote) quote_min_size || length claims == 0
        then none
        else some (t, quote, claims)
    | _ ↦ none
  ]

  -- The claims of a serialised map that is not empty.
  unfoldable pub read_claims : List ℕ → List ℕ → Claims → Option (Option Claims)
  read_claims pem bytes c = elim (calls.load bytes) [
    | some (plain (cbor_map (p ∷ pairs))) ↦ claims_loop pem (p ∷ pairs) c
    | _ ↦ some none
  ]

  -- The tag, the quote and the claims, unless there is an error; the quote is copied to a buffer of
  -- RAW_QUOTE_MAX_SIZE bytes.
  unfoldable pub extract_cbor_evidence :
      List ℕ → List ℕ → Claims → Option (Option (ℕ × List ℕ × Claims))
  extract_cbor_evidence evi pem c = elim (evidence_parts evi) [
    | none ↦ some none
    | some (t, quote, bytes) ↦
        if not (calls.quote_matches quote bytes)
        then some none
        else elim (read_claims pem bytes c) [
          | none ↦ none
          | some none ↦ some none
          | some (some c') ↦
              if ltb raw_quote_max_size (length quote) then none else some (some (t, quote, c'))
        ]
  ]

  -- `stack` is what `out_nonce` holds before. The result 0 is a failure.
  unfoldable pub verify_sgx_evidence : List ℕ → List ℕ → List ℕ → List ℕ → Option ℕ
  verify_sgx_evidence stack evi pem nonce =
      extract_cbor_evidence evi pem (record { sertpm2 = []; nonce = stack }) >>= λ r. elim r [
        | none ↦ some 0
        | some (t, quote, c) ↦
            if not calls.prepared
            then some 0
            else if not (qv_accepted (calls.qv_result quote))
            then some 0
            else if not (memcmp_eq 32 nonce c.nonce)
            then some 0
            else if t == tag_tee_tpm2_quote && not (calls.tpm2_verified c.sertpm2 nonce)
            then some 0
            else some verified_evidence
      ]

-- What the making of claims calls: what the entry for the key needs, `myseal`, the OCALLs that ask the daemon and the TPM for a
-- serialised quote, and `cbor_serialize_alloc`.
pub record ClaimCalls : Type 0 where
  pub entry : EntryCalls
  pub myseal : List ℕ → List ℕ
  pub via_daemon : List ℕ → List ℕ
  pub via_tpm : List ℕ → List ℕ
  pub serialize : List (CborItem × CborItem) → List ℕ

-- The serialised quote that the claims hold.
unfoldable pub tpm2_quote_for : ClaimCalls → Bool → List ℕ → List ℕ
tpm2_quote_for mk atflag nonce =
    if atflag then mk.via_daemon (mk.myseal (take 32 nonce)) else mk.via_tpm nonce

abbrev pub claim_pairs : List ℕ → List ℕ → List ℕ → List (CborItem × CborItem)
claim_pairs hash nonce quote =
    (cbor_string key_pubkey_hash, cbor_bytestring hash)
    ∷ (cbor_string key_nonce, cbor_bytestring nonce)
    ∷ (cbor_string key_tpm2_dash_quote, cbor_bytestring quote)
    ∷ []

-- `*claims` if it is set; the caller does not test the result.
unfoldable pub make_cbor_tpm2_claims_from_enclave :
    ClaimCalls → Bool → List ℕ → List ℕ → Option (Option (List ℕ))
make_cbor_tpm2_claims_from_enclave mk atflag pubkey nonce =
    make_cbor_pkhash_entry mk.entry pubkey >>= λ made. elim made [
      | none ↦ some none
      | some hash ↦
          let quote' = tpm2_quote_for mk atflag nonce in
          let claims = mk.serialize (claim_pairs hash nonce quote') in
          some (if length quote' == 0 || length claims == 0 then none else some claims)
    ]
