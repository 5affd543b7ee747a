-- ===== src/Pica/Evidence/Verify.antt =====
-- `pica_verify_tpm2all` of src/libpica_clnt.c: its flags, and what it stores through `o_picabody`, a
-- pointer that may be NULL, where it stores something. The outer `none` is an access outside of a buffer.
use portable_tls_ra.Base.{ℕ, Option, none, some, List, [], not, if◌then◌else◌, ◌>>=◌, bit_or}
use portable_tls_ra.Pica.Types.{verify_tpm2_quote, verify_tpm2_fresh}
use portable_tls_ra.Pica.Evidence.Types.{
  TpmsAttest, External, Surroundings, Evidence, is_extract_tpm2_all,
}
use portable_tls_ra.Pica.Evidence.Extract.{extract_tpm2evidence}
use portable_tls_ra.Pica.Evidence.Quote.{
  check_tpm2pcrs, is_negative, extract_tpm2attest, read_tpm2attest, read_pubkey,
  verify_tpm2quote_sig, check_apphash,
}

-- `SHA256(picabody, pica_sz, hash)` of a NULL pointer with size 0 hashes no bytes.
unfoldable pub body_bytes : Option (List ℕ) → List ℕ
body_bytes none = []
body_bytes (some body) = body

-- The variables before the extraction.
unfoldable pub no_evidence : Surroundings → Evidence
no_evidence env = record {
  quote = none;
  apphash = env.apphash;
  tpm_sig = env.tpm_sig;
  picabody = none;
}

module _ {Key : Type 0} (ext : External Key) (env : Surroundings) where
  -- From `check_apphash` on.
  unfoldable pub apphash_flags : Evidence → TpmsAttest → List ℕ → ℕ
  unfolding body_bytes
  apphash_flags s tpm_atst nonce =
      if check_apphash ext env.evp (body_bytes s.picabody) nonce s.apphash tpm_atst.extra_data
        env.picahash
      then bit_or verify_tpm2_fresh verify_tpm2_quote
      else verify_tpm2_fresh

  -- After the signature was found valid.
  unfoldable pub verify_attested :
      Evidence → List ℕ → List ℕ → Option (ℕ × Option (Option (List ℕ)))
  unfolding apphash_flags
  verify_attested s quote nonce =
      let atst = extract_tpm2attest ext quote env.tpm_atst in
      if is_negative atst.0
      then some (verify_tpm2_fresh, none)
      else elim (read_tpm2attest ext env.reg_size env.reg_quote env.reg_atst) [
        | none ↦ some (verify_tpm2_fresh, none)
        | some reg ↦
            if is_negative reg.0
            then some (verify_tpm2_fresh, none)
            else check_tpm2pcrs atst.1 reg.1 >>= λ same.
                if not same
                then some (verify_tpm2_fresh, none)
                else some (apphash_flags s atst.1 nonce, some s.picabody)
      ]

  -- After the extraction.
  unfoldable pub verify_extracted : ℕ → Evidence → List ℕ → Option (ℕ × Option (Option (List ℕ)))
  unfolding verify_attested
  verify_extracted rc s nonce =
      if not (is_extract_tpm2_all rc) then some (rc, none) else elim (read_pubkey ext env.ak_pub) [
        | none ↦ some (rc, none)
        | some ak_pubkey ↦ s.quote >>= λ quote.
            if not (verify_tpm2quote_sig ext quote s.tpm_sig ak_pubkey)
            then some (rc, none)
            else verify_attested s quote nonce
      ]

  unfoldable pub pica_verify_tpm2all : List ℕ → List ℕ → Option (ℕ × Option (Option (List ℕ)))
  unfolding verify_extracted no_evidence
  pica_verify_tpm2all measure nonce =
      extract_tpm2evidence ext measure (no_evidence env) >>= λ e. verify_extracted e.1 e.0 nonce
