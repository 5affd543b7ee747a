-- ===== src/Pica/Evidence/Quote.antt =====
-- `comp_pcr_selection` and `hash_extend_sha256` of src/libpica_common.c, `read_pubkey` and
-- `read_tpm2attest` of src/libio.c, and of src/libpica_clnt.c `check_tpm2pcrs`, `extract_tpm2attest`,
-- `tpm_ecdsa_to_der`, `verify_tpm2quote_sig` and `check_apphash`. A Bool is true for a result of 0 and false
-- for a negative one.
use portable_tls_ra.Base.{
  ℕ, zero, suc, ◌^◌, Bool, true, false, not, ◌&&◌, Option, none, some, List, [], ◌∷◌, ◌++◌, length,
  take, leb, ltb, memcmp_eq, ◌==◌, if◌then◌else◌, ◌>>=◌,
}
use portable_tls_ra.Pica.Evidence.Types.{
  SigAlg, rsassa, rsapss, ecdsa, other_sig_alg, HashAlg, sha1, sha256, sha384, sha512,
  other_hash_alg, TpmtSignature, PcrSelection, PcrSelections, TpmsAttest, Padding, no_padding,
  pkcs1_padding, pkcs1_pss_padding, External, EvpCalls,
}

-- The loop over the selections, with `n` rounds left.
unfoldable pub selections_eq : ℕ → List PcrSelection → List PcrSelection → Option Bool
selections_eq zero a b = some true
selections_eq (suc n) [] b = none
selections_eq (suc n) (sa ∷ a) [] = none
selections_eq (suc n) (sa ∷ a) (sb ∷ b) =
    let rest = selections_eq n a b in
    if not (sa.hash == sb.hash)
    then some false
    else if not (sa.sizeof_select == sb.sizeof_select)
    then some false
    else if not (memcmp_eq sa.sizeof_select sa.pcr_select sb.pcr_select)
    then some false
    else rest

unfoldable pub comp_pcr_selection : PcrSelections → PcrSelections → Option Bool
unfolding selections_eq
comp_pcr_selection a b =
    if not (a.count == b.count)
    then some false
    else selections_eq a.count a.pcr_selections b.pcr_selections

unfoldable pub check_tpm2pcrs : TpmsAttest → TpmsAttest → Option Bool
unfolding comp_pcr_selection
check_tpm2pcrs tpm_atst reg_atst = comp_pcr_selection reg_atst.pcr_selection tpm_atst.pcr_selection

-- `rc < 0` for a `TSS2_RC`, a 32-bit word that is kept in an `int`.
unfoldable pub is_negative : ℕ → Bool
is_negative rc = leb (2 ^ 31) rc

module _ {Key : Type 0} (ext : External Key) where
  -- The result in the code's `int`, and the attestation. A code other than TSS2_RC_SUCCESS is returned as
  -- it is; after the type of the attestation was found wrong, `rc` still holds the 0 of the call.
  unfoldable pub extract_tpm2attest : List ℕ → TpmsAttest → ℕ × TpmsAttest
  extract_tpm2attest s_quoted tpm_atst =
      let r = ext.attest_unmarshal s_quoted tpm_atst in
      if not (r.0 == 0) then r else if not r.1.is_quote then (0, r.1) else (0, r.1)

  -- `none` is the -1 that is returned if the file is empty or cannot be read as a whole.
  unfoldable pub read_tpm2attest : ℕ → List ℕ → TpmsAttest → Option (ℕ × TpmsAttest)
  read_tpm2attest sz ser_qt reg_atst =
      if leb sz 0
      then none
      else if not (length ser_qt == sz)
      then none
      else let r = ext.attest_unmarshal ser_qt reg_atst in
        if not (r.0 == 0) then some r else if not r.1.is_quote then some (0, r.1) else some (0, r.1)

  -- `none` is the result -1; the key may be NULL, for which the code does not test.
  unfoldable pub read_pubkey : List ℕ → Option (Option Key)
  read_pubkey file = if length file == 0 then none else some (ext.pem_pubkey file)

  -- `none` is the result -1.
  unfoldable pub tpm_ecdsa_to_der : TpmtSignature → ℕ → Option (List ℕ)
  tpm_ecdsa_to_der tpm_sig der_len =
      ext.ecdsa_der tpm_sig.signature_r tpm_sig.signature_s >>= λ der.
      if leb (length der) 0 then none else if ltb der_len (length der) then none else some der

  -- The first `switch`: the signature's bytes, `none` for the jump to `err`.
  unfoldable pub signature_data : TpmtSignature → Option (List ℕ)
  unfolding tpm_ecdsa_to_der
  signature_data sig = elim sig.sig_alg [
    | rsassa ↦ some sig.sig
    | rsapss ↦ some sig.sig
    | ecdsa ↦ tpm_ecdsa_to_der sig 1024
    | other_sig_alg ↦ none
  ]

  -- The padding of the key context for the algorithm.
  unfoldable pub padding_for : SigAlg → Padding
  padding_for rsassa = pkcs1_padding
  padding_for rsapss = pkcs1_pss_padding
  padding_for ecdsa = no_padding
  padding_for other_sig_alg = no_padding

  -- The second `switch`.
  unfoldable pub is_supported : HashAlg → Bool
  is_supported sha1 = true
  is_supported sha256 = true
  is_supported sha384 = true
  is_supported sha512 = true
  is_supported other_hash_alg = false

  unfoldable pub verify_tpm2quote_sig : List ℕ → TpmtSignature → Option Key → Bool
  unfolding signature_data padding_for is_supported
  verify_tpm2quote_sig s_quoted sig ak_pubkey =
      let padding = padding_for sig.sig_alg in
      elim (signature_data sig) [
        | none ↦ false
        | some sig_data ↦
            if not (is_supported sig.hash_alg)
            then false
            else if not (ext.verify_init sig.hash_alg padding ak_pubkey)
            then false
            else ext.verify_final sig.hash_alg padding ak_pubkey s_quoted sig_data
      ]

  -- The result and the new hash; a call that does not return 1 leaves its own 0 in `rc`, and the
  -- buffer of the new hash as it was.
  unfoldable pub hash_extend_sha256 : EvpCalls → List ℕ → List ℕ → List ℕ → Bool × List ℕ
  hash_extend_sha256 evp old_hash digest new_hash =
      if not evp.ctx_new
      then (false, new_hash)
      else if evp.init && evp.update_old && evp.update_digest && evp.final
      then (true, ext.digest (take 32 old_hash ++ take 32 digest))
      else (true, new_hash)

  -- The comparison of the hashes sets `rc` to the 0 that it already holds.
  unfoldable pub check_apphash : EvpCalls → List ℕ → List ℕ → List ℕ → List ℕ → List ℕ → Bool
  unfolding hash_extend_sha256
  check_apphash evp picabody nonce apphash udata picahash =
      let extended = hash_extend_sha256 evp (ext.digest picabody) nonce picahash in
      if not extended.0
      then false
      else if memcmp_eq 32 extended.1 udata && memcmp_eq 32 apphash extended.1
      then true
      else extended.0
