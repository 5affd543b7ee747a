-- ===== src/Pica/Evidence/Attested.antt =====
-- When `pica_verify_tpm2all` hands out the process information, and with which flags.
use portable_tls_ra.Base.{
  ℕ, ◌≡◌, refl, ◌↔◌, inl, inr, ap, true, false, Option, none, some, List, >>=-eq-some, arith,
  Bool-cases, Option-cases,
}
use portable_tls_ra.Pica.Evidence.Types.{
  External, EvpCalls, Surroundings, Evidence, TpmsAttest, is_extract_tpm2_all,
}
use portable_tls_ra.Pica.Evidence.Extract.{extract_tpm2evidence}
use portable_tls_ra.Pica.Evidence.Quote.{
  check_tpm2pcrs, is_negative, extract_tpm2attest, read_tpm2attest, read_pubkey,
  verify_tpm2quote_sig, check_apphash, hash_extend_sha256,
}
use portable_tls_ra.Pica.Evidence.Verify.{
  body_bytes, no_evidence, apphash_flags, verify_attested, verify_extracted, pica_verify_tpm2all,
}
use portable_tls_ra.Pica.Evidence.Flags.{extract_tpm2evidence-seven}

module _ {Key : Type 0} (ext : External Key) where
  -- `check_apphash` accepts every process information, nonce, "app-hash" and quoted user data,
  -- whether the hashes agree or not, as long as a digest context could be made.
  pub check_apphash_accepts :
      (evp : EvpCalls) (picabody nonce apphash udata picahash : List ℕ)
      → evp.ctx_new ≡ true
      → check_apphash ext evp picabody nonce apphash udata picahash ≡ true
  unfolding check_apphash hash_extend_sha256
  check_apphash_accepts evp picabody nonce apphash udata picahash h = ground arith

  module _ (env : Surroundings) where
    -- The evidence of the measure is complete, its quote is signed by the key of the file, and selects the
    -- registers that the registered quote selects; the codes of the two unmarshallings are not negative.
    pub record IsAttested (measure : List ℕ) (s : Evidence) : Type 0 where
      pub rc : ℕ
      pub key : Option Key
      pub quoted : List ℕ
      pub reg : ℕ × TpmsAttest
      pub extracted : extract_tpm2evidence ext measure (no_evidence env) ≡ some (s, rc)
      pub complete : is_extract_tpm2_all rc ≡ true
      pub has_key : read_pubkey ext env.ak_pub ≡ some key
      pub has_quote : s.quote ≡ some quoted
      pub signed : verify_tpm2quote_sig ext quoted s.tpm_sig key ≡ true
      pub unmarshalled : is_negative (extract_tpm2attest ext quoted env.tpm_atst).0 ≡ false
      pub registered : read_tpm2attest ext env.reg_size env.reg_quote env.reg_atst ≡ some reg
      pub reg_unmarshalled : is_negative reg.0 ≡ false
      pub same_registers :
          check_tpm2pcrs (extract_tpm2attest ext quoted env.tpm_atst).1 reg.1 ≡ some true

    apphash_flags_three :
        (s : Evidence) (tpm_atst : TpmsAttest) (nonce : List ℕ)
        → env.evp.ctx_new ≡ true
        → apphash_flags ext env s tpm_atst nonce ≡ 3
    unfolding apphash_flags
    apphash_flags_three s tpm_atst nonce h =
        rw
          (check_apphash_accepts env.evp (body_bytes s.picabody) nonce s.apphash tpm_atst.extra_data
            env.picahash h)
          refl

    -- Attested evidence is accepted with both flags, and its process information is handed out, whatever
    -- the nonce is.
    pub attested_accepted :
        (measure nonce : List ℕ) (s : Evidence)
        → env.evp.ctx_new ≡ true
        → IsAttested measure s
        → pica_verify_tpm2all ext env measure nonce ≡ some (3, some s.picabody)
    unfolding pica_verify_tpm2all verify_extracted verify_attested
    attested_accepted measure nonce s h a =
        let flags =
          apphash_flags_three s (extract_tpm2attest ext a.quoted env.tpm_atst).1 nonce h in
        simp (
          a.extracted, a.complete, a.has_key, a.has_quote, a.signed, a.unmarshalled, a.registered,
          a.reg_unmarshalled, a.same_registers, flags,
        )

    attested_handed_out :
        (nonce quoted : List ℕ) (r : ℕ) (s : Evidence) (b : Option (List ℕ))
        → env.evp.ctx_new ≡ true
        → verify_attested ext env s quoted nonce ≡ some (r, some b)
        → (r ≡ 3)
          × (b ≡ s.picabody)
          × (is_negative (extract_tpm2attest ext quoted env.tpm_atst).0 ≡ false)
          × (reg : ℕ × TpmsAttest) × (read_tpm2attest ext env.reg_size env.reg_quote env.reg_atst
              ≡ some reg)
          × (is_negative reg.0 ≡ false)
          × (check_tpm2pcrs (extract_tpm2attest ext quoted env.tpm_atst).1 reg.1 ≡ some true)
    unfolding verify_attested
    attested_handed_out nonce quoted r s b h e =
        let atst = extract_tpm2attest ext quoted env.tpm_atst in
        let three = apphash_flags_three s atst.1 nonce h in
        elim (Bool-cases (is_negative atst.0)) [
          | inl n ↦ absurd (ground arith)
          | inr good ↦
              elim (Option-cases (read_tpm2attest ext env.reg_size env.reg_quote env.reg_atst)) [
                | inl n ↦ absurd (ground arith)
                | inr (reg, read) ↦ elim (Bool-cases (is_negative reg.0)) [
                  | inl n ↦ absurd (ground arith)
                  | inr fine ↦ elim (Option-cases (check_tpm2pcrs atst.1 reg.1)) [
                    | inl n ↦ absurd (ground arith)
                    | inr (false, same) ↦ absurd (ground arith)
                    | inr (true, same) ↦ (ground arith, ground arith, good, reg, read, fine, same)
                  ]
                ]
              ]
        ]

    handed_out :
        (measure nonce : List ℕ) (r : ℕ) (s : Evidence) (rc : ℕ) (b : Option (List ℕ))
        → env.evp.ctx_new ≡ true
        → extract_tpm2evidence ext measure (no_evidence env) ≡ some (s, rc)
        → verify_extracted ext env rc s nonce ≡ some (r, some b)
        → (r ≡ 3) × (b ≡ s.picabody) × IsAttested measure s
    unfolding verify_extracted
    handed_out measure nonce r s rc b h ex e = elim (Bool-cases (is_extract_tpm2_all rc)) [
      | inr n ↦ absurd (ground arith)
      | inl all ↦ elim (Option-cases (read_pubkey ext env.ak_pub)) [
        | inl n ↦ absurd (ground arith)
        | inr (key, k) ↦ elim (Option-cases s.quote) [
          | inl n ↦ absurd (ground arith)
          | inr (quoted, q) ↦ elim (Bool-cases (verify_tpm2quote_sig ext quoted s.tpm_sig key)) [
            | inr n ↦ absurd (ground arith)
            | inl sig ↦
                let v : verify_attested ext env s quoted nonce ≡ some (r, some b) = ground arith in
                let f = attested_handed_out nonce quoted r s b h v in
                (
                  f.0,
                  f.1,
                  record {
                    rc = rc;
                    key = key;
                    quoted = quoted;
                    reg = f.3;
                    extracted = ex;
                    complete = all;
                    has_key = k;
                    has_quote = q;
                    signed = sig;
                    unmarshalled = f.2;
                    registered = f.4;
                    reg_unmarshalled = f.5;
                    same_registers = f.6;
                  },
                )
          ]
        ]
      ]
    ]

    -- Where a digest context can be made, `pica_verify_tpm2all` hands out process information exactly if
    -- the evidence of the measure is attested, and then returns VERIFY_TPM2_QUOTE | VERIFY_TPM2_FRESH with
    -- the information that the measure holds.
    pub pica_verify_tpm2all_iff :
        (measure nonce : List ℕ) (r : ℕ) (b : Option (List ℕ))
        → env.evp.ctx_new ≡ true
        → (pica_verify_tpm2all ext env measure nonce ≡ some (r, some b))
          ↔ ((s : Evidence) × (r ≡ 3) × (b ≡ s.picabody) × IsAttested measure s)
    unfolding pica_verify_tpm2all
    pica_verify_tpm2all_iff measure nonce r b h = (
      λ e.
          let ex =
            >>=-eq-some (extract_tpm2evidence ext measure (no_evidence env))
              (λ e. verify_extracted ext env e.1 e.0 nonce) e in
          let out = handed_out measure nonce r ex.0.0 ex.0.1 b h ex.1 ex.2 in
          (ex.0.0, out.0, out.1, out.2),
      λ (s, three, body, a). rw (three, body) (attested_accepted measure nonce s h a),
    )

    attested_any_nonce :
        (nonce nonce' quoted : List ℕ) (s : Evidence)
        → env.evp.ctx_new ≡ true
        → verify_attested ext env s quoted nonce ≡ verify_attested ext env s quoted nonce'
    unfolding verify_attested
    attested_any_nonce nonce nonce' quoted s h =
        let atst = (extract_tpm2attest ext quoted env.tpm_atst).1 in
        let one = apphash_flags_three s atst nonce h in
        let other = apphash_flags_three s atst nonce' h in ground arith

    -- The result does not depend on the nonce: evidence that was made for one nonce is accepted for
    -- every other, where a digest context can be made.
    pub pica_verify_tpm2all_any_nonce :
        (measure nonce nonce' : List ℕ)
        → env.evp.ctx_new ≡ true
        → pica_verify_tpm2all ext env measure nonce ≡ pica_verify_tpm2all ext env measure nonce'
    unfolding pica_verify_tpm2all verify_extracted verify_attested
    pica_verify_tpm2all_any_nonce measure nonce nonce' h =
        elim (Option-cases (extract_tpm2evidence ext measure (no_evidence env))) [
          | inl n ↦ rw n refl
          | inr (e, x) ↦ elim (Option-cases e.0.quote) [
            | inl n ↦ ground arith
            | inr (quoted, q) ↦ ground (arith, attested_any_nonce nonce nonce' quoted e.0 h)
          ]
        ]

    -- Complete evidence whose quote has no valid signature is answered with all the flags of the
    -- extraction, 7, among them those of VERIFY_TPM2_QUOTE and VERIFY_PICA_BINARIES.
    pub pica_verify_tpm2all_bad_signature :
        (measure nonce quoted : List ℕ) (s : Evidence) (rc : ℕ) (key : Option Key)
        → extract_tpm2evidence ext measure (no_evidence env) ≡ some (s, rc)
        → is_extract_tpm2_all rc ≡ true
        → read_pubkey ext env.ak_pub ≡ some key
        → s.quote ≡ some quoted
        → verify_tpm2quote_sig ext quoted s.tpm_sig key ≡ false
        → pica_verify_tpm2all ext env measure nonce ≡ some (7, none)
    unfolding pica_verify_tpm2all verify_extracted
    pica_verify_tpm2all_bad_signature measure nonce quoted s rc key ex all k q bad =
        let seven = extract_tpm2evidence-seven ext measure (no_evidence env) (s, rc) ex all in
        simp (ex, all, k, q, bad) (ap (λ n. some (n, none)) seven)
