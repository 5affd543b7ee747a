-- ===== src/Tls/Results.antt =====
-- The result of verify_SGX_evidence for claims that are read to their end.
use portable_tls_ra.Base.{
  ℕ, ◌<◌, ◌≤◌, ◌≡◌, ◌⊎◌, inl, inr, refl, ap, ◌∙◌, Bool, true, false, not, ◌||◌, ◌&&◌, some, List,
  [], ◌∷◌, length, ltb, ◌==◌, if◌then◌else◌, memcmp_eq, Bool-cases, arith,
}
use portable_tls_ra.Pica.Evidence.Types.{CborItem, cbor_bytestring, cbor_array, cbor_map}
use portable_tls_ra.Tls.Verify.{verified_evidence}
use portable_tls_ra.Tls.Pkhash.{tagged, plain}
use portable_tls_ra.Tls.Sgx.{
  tag_tee_quote, tag_tee_tpm2_quote, quote_min_size, raw_quote_max_size, SgxCalls, Claims,
  claims_loop, evidence_parts, read_claims, extract_cbor_evidence, qv_accepted, verify_sgx_evidence,
}

not-not : (b : Bool) → not (not b) ≡ b
not-not true = refl
not-not false = refl

module _ (calls : SgxCalls) where
  -- The evidence is an array with a quote and claims behind the tag.
  abbrev pub Holds : List ℕ → ℕ → List ℕ → List ℕ → Type 0
  Holds evi t quote claims =
      (0 < length evi)
      × (calls.load evi
          ≡ some (tagged t (cbor_array (cbor_bytestring quote ∷ cbor_bytestring claims ∷ []))))

  -- The size of a quote, and claims that are there and that it is made for.
  abbrev pub Binds : List ℕ → List ℕ → Type 0
  Binds quote claims =
      (quote_min_size ≤ length quote)
      × (length quote ≤ raw_quote_max_size)
      × (0 < length claims)
      × (calls.quote_matches quote claims ≡ true)

  evidence_parts_lem :
      (evi : List ℕ) (t : ℕ) (quote claims : List ℕ)
      → (t ≡ tag_tee_quote) ⊎ (t ≡ tag_tee_tpm2_quote)
      → Holds evi t quote claims
      → Binds quote claims
      → evidence_parts calls evi ≡ some (t, quote, claims)
  unfolding evidence_parts
  evidence_parts_lem [] t quote claims tag (more, loads) binds = absurd (omega (arith, more))
  evidence_parts_lem (x ∷ evi) t quote claims tag (more, loads)
        (large, small, some_claims, matches) =
      let known : not (t == tag_tee_quote || t == tag_tee_tpm2_quote) ≡ false = elim tag [
        | inl e ↦ rw e refl
        | inr e ↦ rw e refl
      ] in
      let sizes : (ltb (length quote) quote_min_size || length claims == 0) ≡ false =
        ground (arith, large, some_claims) in
      rw (evidence_parts, loads, known, sizes) refl

  -- The result for claims that are read without an error.
  verify_sgx_evidence_lem :
      (stack evi pem nonce : List ℕ) (t : ℕ) (quote claims : List ℕ) (c : Claims)
      → (t ≡ tag_tee_quote) ⊎ (t ≡ tag_tee_tpm2_quote)
      → Holds evi t quote claims
      → Binds quote claims
      → read_claims calls pem claims (record { sertpm2 = []; nonce = stack }) ≡ some (some c)
      → calls.prepared ≡ true
      → qv_accepted (calls.qv_result quote) ≡ true
      → verify_sgx_evidence calls stack evi pem nonce
        ≡ some (
            if memcmp_eq 32 nonce c.nonce
              && not (t == tag_tee_tpm2_quote && not (calls.tpm2_verified c.sertpm2 nonce))
            then verified_evidence
            else 0)
  unfolding verify_sgx_evidence extract_cbor_evidence
  verify_sgx_evidence_lem stack evi pem nonce t quote claims c tag holds binds read prepared
        accepted =
      let parts = evidence_parts_lem evi t quote claims tag holds binds in
      let room : ltb raw_quote_max_size (length quote) ≡ false = ground (arith, binds.1) in
      elim (Bool-cases (memcmp_eq 32 nonce c.nonce)) [
        | inr other ↦
            rw
              (
                verify_sgx_evidence, extract_cbor_evidence, parts, binds.3, read, room, prepared,
                accepted, other,
              )
              refl
        | inl same ↦
            elim (Bool-cases
              (t == tag_tee_tpm2_quote && not (calls.tpm2_verified c.sertpm2 nonce))) [
                | inl wrong ↦
                    rw
                      (
                        verify_sgx_evidence, extract_cbor_evidence, parts, binds.3, read, room,
                        prepared, accepted, same, wrong,
                      )
                      refl
                | inr right ↦
                    rw
                      (
                        verify_sgx_evidence, extract_cbor_evidence, parts, binds.3, read, room,
                        prepared, accepted, same, right,
                      )
                      refl
              ]
      ]

  -- The result for claims that are read to a nonce and a quote of the TPM.
  pub verify_sgx_evidence-loop :
      (stack evi pem nonce sent quote claims nonce' : List ℕ) (p : CborItem × CborItem)
      (ps : List (CborItem × CborItem))
      → calls.load claims ≡ some (plain (cbor_map (p ∷ ps)))
      → claims_loop calls pem (p ∷ ps) (record { sertpm2 = []; nonce = stack })
        ≡ some (some (record { sertpm2 = sent; nonce = nonce }))
      → Holds evi tag_tee_tpm2_quote quote claims
      → Binds quote claims
      → calls.prepared ≡ true
      → qv_accepted (calls.qv_result quote) ≡ true
      → verify_sgx_evidence calls stack evi pem nonce'
        ≡ some (
            if memcmp_eq 32 nonce' nonce && calls.tpm2_verified sent nonce'
            then verified_evidence
            else 0)
  unfolding read_claims
  verify_sgx_evidence-loop stack evi pem nonce sent quote claims nonce' p ps loads loop holds binds
        prepared accepted =
      let read : read_claims calls pem claims (record { sertpm2 = []; nonce = stack })
          ≡ some (some (record { sertpm2 = sent; nonce = nonce })) =
        rw (read_claims, loads) loop in
      verify_sgx_evidence_lem stack evi pem nonce' tag_tee_tpm2_quote quote claims
        (record { sertpm2 = sent; nonce = nonce }) (inr refl) holds binds read prepared accepted
      ∙ ap (λ b. some (if memcmp_eq 32 nonce' nonce && b then verified_evidence else 0))
          (not-not (calls.tpm2_verified sent nonce'))
