-- ===== src/Tls/Peers.antt =====
-- What stands behind a peer that a server accepts: server_verify of src/libtlsra.c with verify_SGX_evidence of
-- src/libintel.c as the function of the table.
use portable_tls_ra.Base.{
  ℕ, suc, ◌≡◌, ◌⊎◌, inl, inr, ap, ◌∙◌, true, some, List, [], ◌∷◌, ◌++◌, bit_and, All, arith,
  Option-cases, >>=-eq-some,
}
use portable_tls_ra.Tls.Verify.{verified_evidence, Openssl, VerifyTab, StoreCtx, server_verify}
use portable_tls_ra.Tls.Accepts.{
  IsSelfSigned, IsPassedOver, server_verify_iff, verify_contents-first,
}
use portable_tls_ra.Tls.Sgx.{SgxCalls, extract_cbor_evidence, verify_sgx_evidence}
use portable_tls_ra.Tls.Sound.{IsAttested, verify_sgx_evidence-IsAttested}

module _ {Cert : Type 0} (ssl : Openssl Cert) (tab : List VerifyTab) (calls : SgxCalls) where
  verify_sgx_evidence-result :
      (stack evi pem nonce : List ℕ) (r : ℕ)
      → verify_sgx_evidence calls stack evi pem nonce ≡ some r
      → (r ≡ 0) ⊎ (r ≡ verified_evidence)
  unfolding verify_sgx_evidence
  verify_sgx_evidence-result stack evi pem nonce r h =
      let (x, e, h') =
        >>=-eq-some (extract_cbor_evidence calls evi pem (record { sertpm2 = []; nonce = stack })) _
          h in
      elim (Option-cases x) [ inl error ↦ ground arith | inr ((t, quote, c), e') ↦ ground arith ]

  -- If a server accepts a valid self-signed certificate, of which the first extension of the table that it has, and not at
  -- its first place, is judged by verify_SGX_evidence without a fault, then what stands behind its evidence is as verify_SGX_evidence promises, for
  -- the key of the certificate itself and for the random number of the server.
  pub server_verify-IsAttested :
      (ctx : StoreCtx Cert) (x509 : Cert) (before after : List VerifyTab) (t : VerifyTab)
      (stack pem target : List ℕ) (loc : ℕ)
      → IsSelfSigned ctx x509
      → ssl.verify_ok x509 ≡ true
      → ssl.pem_pubkey x509 ≡ some pem
      → tab ≡ before ++ t ∷ after
      → All (IsPassedOver ssl tab x509) before
      → ssl.txt2obj t.oid_txt ≡ some target
      → ssl.ext_by_obj x509 target ≡ some (suc loc)
      → verify_sgx_evidence calls stack (ssl.ext_data x509 (suc loc)) pem ctx.server_random
        ≡ some (t.verify_func (ssl.ext_data x509 (suc loc)) pem ctx.server_random)
      → server_verify ssl tab 0 ctx ≡ 1
      → IsAttested calls stack (ssl.ext_data x509 (suc loc)) pem ctx.server_random
  server_verify-IsAttested ctx x509 before after t stack pem target loc s good key split passed o e
        judged accepts =
      let evi = ssl.ext_data x509 (suc loc) in
      let nonce = ctx.server_random in
      let contents =
        verify_contents-first ssl tab before after t x509 pem nonce target loc split key passed o
          e in
      let flagged = (server_verify_iff ssl tab ctx x509 s good).0 accepts in
      elim (verify_sgx_evidence-result stack evi pem nonce (t.verify_func evi pem nonce) judged) [
        | inl zero' ↦ absurd (flagged (ap (λ n. bit_and n 3) (contents ∙ zero')))
        | inr verified ↦
            verify_sgx_evidence-IsAttested calls stack evi pem nonce
              (judged ∙ ap (λ n. some n) verified)
      ]
