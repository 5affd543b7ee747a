-- ===== src/Tls/Sound.antt =====
-- What accepted evidence of an enclave has passed.
use portable_tls_ra.Base.{
  ℕ, ◌≡◌, ◌⊎◌, inl, inr, true, none, some, List, [], ◌∷◌, length, ltb, ◌==◌, ==_iff, memcmp_eq, All,
  Bool-cases, Option-cases,
}
use portable_tls_ra.Pica.Evidence.Types.{CborItem, cbor_array, cbor_map, cbor_item}
use portable_tls_ra.Tls.Verify.{verified_evidence}
use portable_tls_ra.Tls.Pkhash.{tagged, plain}
use portable_tls_ra.Tls.Rounds.{IsForKey, HasClaim, IsNoQuote, HasQuoteClaim, claims_loop-IsRead}
use portable_tls_ra.Tls.Sgx.{
  key_nonce, tag_tee_tpm2_quote, raw_quote_max_size, SgxCalls, Claims, claims_loop, evidence_parts,
  read_claims, extract_cbor_evidence, qv_accepted, verify_sgx_evidence,
}

module _ (calls : SgxCalls) where
  -- What is behind evidence that was accepted: the claims as libcbor loads them, which the quote of
  -- SGX was made for, with the result of its verification; the claims for the key; the nonce; and
  -- the quote of the TPM, which is that of a claim, and empty only where no claim is taken for it or
  -- the claim is too large.
  pub record IsAttested (stack evi pem nonce : List ℕ) : Type 0 where
    pub tag : ℕ
    pub quote : List ℕ
    pub claims : List ℕ
    pub pairs : List (CborItem × CborItem)
    pub last : Claims
    pub parts : evidence_parts calls evi ≡ some (tag, quote, claims)
    pub made_for : calls.quote_matches quote claims ≡ true
    pub loads : calls.load claims ≡ some (plain (cbor_map pairs))
    pub for_key : All (IsForKey calls pem) pairs
    pub accepted : qv_accepted (calls.qv_result quote) ≡ true
    pub fresh : memcmp_eq 32 nonce last.nonce ≡ true
    pub nonce_from : (last.nonce ≡ stack) ⊎ HasClaim key_nonce last.nonce pairs
    pub quote_from : ((last.sertpm2 ≡ []) × All IsNoQuote pairs) ⊎ HasQuoteClaim last.sertpm2 pairs
    pub tpm2 : tag ≡ tag_tee_tpm2_quote → calls.tpm2_verified last.sertpm2 nonce ≡ true

  read_claims-some :
      (pem claims : List ℕ) (c c' : Claims)
      → read_claims calls pem claims c ≡ some (some c')
      → (pairs : List (CborItem × CborItem)) × (calls.load claims ≡ some (plain (cbor_map pairs)))
        × (claims_loop calls pem pairs c ≡ some (some c'))
  unfolding read_claims
  read_claims-some pem claims c c' h = elim (Option-cases (calls.load claims)) [
    | inl no_doc ↦ let h' = rw (read_claims, no_doc) at h in absurd (cc h')
    | inr (tagged t d, e) ↦ let h' = rw (read_claims, e) at h in absurd (cc h')
    | inr (plain (cbor_array items), e) ↦ let h' = rw (read_claims, e) at h in absurd (cc h')
    | inr (plain (cbor_item i), e) ↦ let h' = rw (read_claims, e) at h in absurd (cc h')
    | inr (plain (cbor_map []), e) ↦ let h' = rw (read_claims, e) at h in absurd (cc h')
    | inr (plain (cbor_map (p ∷ ps)), e) ↦ (p ∷ ps, e, rw (read_claims, e) at h)
  ]

  extract-some :
      (evi pem : List ℕ) (c : Claims) (t : ℕ) (quote : List ℕ) (c' : Claims)
      → extract_cbor_evidence calls evi pem c ≡ some (some (t, quote, c'))
      → (claims : List ℕ) × (evidence_parts calls evi ≡ some (t, quote, claims))
        × (calls.quote_matches quote claims ≡ true)
        × (read_claims calls pem claims c ≡ some (some c'))
  unfolding extract_cbor_evidence
  extract-some evi pem c t quote c' h = elim (Option-cases (evidence_parts calls evi)) [
    | inl no_parts ↦ let h' = rw (extract_cbor_evidence, no_parts) at h in absurd (cc h')
    | inr ((t1, quote1, claims), e) ↦ elim (Bool-cases (calls.quote_matches quote1 claims)) [
      | inr other ↦ let h' = rw (extract_cbor_evidence, e, other) at h in absurd (cc h')
      | inl made ↦ elim (Option-cases (read_claims calls pem claims c)) [
        | inl fault ↦ let h' = rw (extract_cbor_evidence, e, made, fault) at h in absurd (cc h')
        | inr (none, r) ↦ let h' = rw (extract_cbor_evidence, e, made, r) at h in absurd (cc h')
        | inr (some c1, r) ↦ elim (Bool-cases (ltb raw_quote_max_size (length quote1))) [
          | inl large ↦
              let h' = rw (extract_cbor_evidence, e, made, r, large) at h in absurd (cc h')
          | inr fits ↦
              let h' = rw (extract_cbor_evidence, e, made, r, fits) at h in
              let t' : t1 ≡ t = cc h' in
              let quote' : quote1 ≡ quote = cc h' in
              let c2 : c1 ≡ c' = cc h' in
              (claims, cc (e, t', quote'), cc (made, quote'), cc (r, c2))
        ]
      ]
    ]
  ]

  -- Evidence that is accepted for a key and a nonce has a quote of SGX that was made for its claims,
  -- and whose verification did not end with one of three results; every claim that is taken for
  -- "pubkey-hash" is that of the key; the nonce agrees in 32 bytes with that of a claim that is taken
  -- for "nonce", or with what the stack held; the quote of the TPM is the bytes of a claim that is taken
  -- for "tpm2-quote", none if these are more than 1000, and none if no claim is taken for it; and with
  -- the tag 60004 this quote is accepted for the nonce.
  pub verify_sgx_evidence-IsAttested :
      (stack evi pem nonce : List ℕ)
      → verify_sgx_evidence calls stack evi pem nonce ≡ some verified_evidence
      → IsAttested stack evi pem nonce
  unfolding verify_sgx_evidence
  verify_sgx_evidence-IsAttested stack evi pem nonce h =
      let start : Claims = record { sertpm2 = []; nonce = stack } in
      elim (Option-cases (extract_cbor_evidence calls evi pem start)) [
        | inl fault ↦ let h' = rw (verify_sgx_evidence, fault) at h in absurd (cc h')
        | inr (none, x) ↦ let h' = rw (verify_sgx_evidence, x) at h in absurd (cc h')
        | inr (some (t, quote, c), x) ↦
            let (claims, parts, made, read) = extract-some evi pem start t quote c x in
            let (pairs, loads, loop) = read_claims-some pem claims start c read in
            let (all, from, sent) = claims_loop-IsRead calls pem pairs start c loop in
            elim (Bool-cases calls.prepared) [
              | inr wrong ↦ let h' = rw (verify_sgx_evidence, x, wrong) at h in absurd (cc h')
              | inl prepared ↦ elim (Bool-cases (qv_accepted (calls.qv_result quote))) [
                | inr wrong ↦
                    let h' = rw (verify_sgx_evidence, x, prepared, wrong) at h in absurd (cc h')
                | inl accepted ↦ elim (Bool-cases (memcmp_eq 32 nonce c.nonce)) [
                  | inr wrong ↦
                      let h' = rw (verify_sgx_evidence, x, prepared, accepted, wrong) at h in
                      absurd (cc h')
                  | inl fresh ↦ record {
                    tag = t;
                    quote = quote;
                    claims = claims;
                    pairs = pairs;
                    last = c;
                    parts = parts;
                    made_for = made;
                    loads = loads;
                    for_key = all;
                    accepted = accepted;
                    fresh = fresh;
                    nonce_from = from;
                    quote_from = sent;
                    tpm2 = λ e. elim (Bool-cases (calls.tpm2_verified c.sertpm2 nonce)) [
                      | inl ok ↦ ok
                      | inr bad ↦
                          let is_tpm2 : (t == tag_tee_tpm2_quote) ≡ true =
                            (==_iff t tag_tee_tpm2_quote).1 e in
                          let h' =
                            rw (verify_sgx_evidence, x, prepared, accepted, fresh, is_tpm2, bad) at
                              h in
                          absurd (cc h')
                    ];
                  }
                ]
              ]
            ]
      ]
