-- ===== src/Tls/Accepts.antt =====
-- Which peers the callbacks accept, and what they present.
use portable_tls_ra.Base.{
  ℕ, suc, ◌≡◌, ◌≢◌, ◌↔◌, ◌⊎◌, inl, inr, refl, true, false, none, some, List, [], ◌∷◌, length, ◌==◌,
  bit_and, All, arith, Bool-cases, Option-cases, ◌++◌, ap, sym, ◌∙◌, append-nil,
}
use portable_tls_ra.Tls.Verify.{
  Openssl, VerifyTab, StoreCtx, contents_from, verify_contents, verify_cert, verify, client_verify,
  server_verify,
}
use portable_tls_ra.Tls.Handshake.{
  Buffer, null, uninitialised, filled, quote_ext, evidence_ext, x509_extensions, Calls, made_cert,
  install, on_client_hello, on_client_cert, buffer_bytes,
}

-- The peer's own certificate is self-signed, and OpenSSL has rejected it for that.
pub record IsSelfSigned {Cert : Type 0} (ctx : StoreCtx Cert) (x509 : Cert) : Type 0 where
  pub current : ctx.current_cert ≡ some x509
  pub connected : ctx.has_ssl ≡ true
  pub leaf : ctx.error_depth ≡ 0
  pub rejected : ctx.self_signed ≡ true

module _ {Cert : Type 0} (ssl : Openssl Cert) (tab : List VerifyTab) where
  -- The client accepts every self-signed certificate of a server, whatever evidence it carries, if it carries
  -- any, and whether or not the certificate verifies.
  pub client_verify_accepts :
      (ctx : StoreCtx Cert) (x509 : Cert) → IsSelfSigned ctx x509 → client_verify ssl tab 0 ctx ≡ 1
  unfolding client_verify verify_cert
  client_verify_accepts ctx x509 s = elim (Bool-cases (ssl.verify_ok x509)) [
    | inl good ↦ ground (arith, s.current, s.connected, s.leaf, s.rejected)
    | inr bad ↦ ground (arith, s.current, s.connected, s.leaf, s.rejected)
  ]

  -- The server accepts a self-signed certificate that fails the verification of OpenSSL: the result -1
  -- of `verify_cert` has all bits set.
  pub server_verify_invalid :
      (ctx : StoreCtx Cert) (x509 : Cert)
      → IsSelfSigned ctx x509
      → ssl.verify_ok x509 ≡ false
      → server_verify ssl tab 0 ctx ≡ 1
  unfolding server_verify verify_cert
  server_verify_invalid ctx x509 s bad = ground (arith, s.current, s.connected, s.leaf, s.rejected)

  -- The server accepts a valid self-signed certificate exactly if one of the two low bits of the
  -- result of `verify_contents` for its own random is set.
  pub server_verify_iff :
      (ctx : StoreCtx Cert) (x509 : Cert)
      → IsSelfSigned ctx x509
      → ssl.verify_ok x509 ≡ true
      → (server_verify ssl tab 0 ctx ≡ 1)
        ↔ (bit_and (verify_contents ssl tab x509 ctx.server_random) 3 ≢ 0)
  unfolding server_verify verify_cert
  server_verify_iff ctx x509 s good =
      let c = s.current in
      let o = s.connected in
      let l = s.leaf in
      let r = s.rejected in
      elim (Bool-cases (bit_and (verify_contents ssl tab x509 ctx.server_random) 3 == 0)) [
        | inl z ↦ ((λ e. absurd (ground arith)), (λ n. absurd (ground arith)))
        | inr n ↦ ((λ e. λ z. ground arith), (λ e. ground arith))
      ]

  -- With a current certificate and a connection, where OpenSSL has accepted the certificate, or has
  -- rejected another one of the chain or for another reason, `verify` returns the verdict of OpenSSL.
  pub verify_verdict :
      (ok which : ℕ) (ctx : StoreCtx Cert) (x509 : Cert)
      → ctx.current_cert ≡ some x509
      → ctx.has_ssl ≡ true
      → (ok ≡ 1) ⊎ ((ctx.error_depth ≢ 0) ⊎ (ctx.self_signed ≡ false))
      → verify ssl tab ok ctx which ≡ ok
  unfolding verify
  verify_verdict ok which ctx x509 c o (inl one) = ground arith
  verify_verdict ok which ctx x509 c o (inr (inl deep)) = ground arith
  verify_verdict ok which ctx x509 c o (inr (inr other)) = ground arith

  -- The extension of the entry is missing, or it is the first one of the certificate.
  abbrev pub IsPassedOver : Cert → VerifyTab → Type 0
  IsPassedOver x509 t =
      (target : List ℕ)
      → ssl.txt2obj t.oid_txt ≡ some target
      → (ssl.ext_by_obj x509 target ≡ none) ⊎ (ssl.ext_by_obj x509 target ≡ some 0)

  contents_from_append :
      (before after : List VerifyTab) (x509 : Cert) (pubkey nonce : List ℕ) (rc : ℕ)
      → All (IsPassedOver x509) before
      → contents_from ssl tab (before ++ after) x509 pubkey nonce rc
        ≡ contents_from ssl tab after x509 pubkey nonce rc
  unfolding contents_from
  contents_from_append [] after x509 pubkey nonce rc h = refl
  contents_from_append (t ∷ before) after x509 pubkey nonce rc h =
      let rest = contents_from_append before after x509 pubkey nonce rc h.1 in
      elim (Option-cases (ssl.txt2obj t.oid_txt)) [
        | inl n ↦ ground arith
        | inr (target, o) ↦ elim (h.0 target o) [ inl m ↦ ground arith | inr m ↦ ground arith ]
      ]

  -- The contents are judged by the first entry of the table whose extension the certificate has at
  -- another place than the first.
  pub verify_contents-first :
      (before after : List VerifyTab) (t : VerifyTab) (x509 : Cert) (pubkey nonce target : List ℕ)
      (loc : ℕ)
      → tab ≡ before ++ t ∷ after
      → ssl.pem_pubkey x509 ≡ some pubkey
      → All (IsPassedOver x509) before
      → ssl.txt2obj t.oid_txt ≡ some target
      → ssl.ext_by_obj x509 target ≡ some (suc loc)
      → verify_contents ssl tab x509 nonce
        ≡ t.verify_func (ssl.ext_data x509 (suc loc)) pubkey nonce
  unfolding verify_contents
  verify_contents-first before after t x509 pubkey nonce target loc split key h o e =
      let skip = contents_from_append before (t ∷ after) x509 pubkey nonce (length pubkey) h in
      let found : contents_from ssl tab (t ∷ after) x509 pubkey nonce (length pubkey)
          ≡ t.verify_func (ssl.ext_data x509 (suc loc)) pubkey nonce =
        unfold contents_from in ground arith in
      let whole : contents_from ssl tab tab x509 pubkey nonce (length pubkey)
          ≡ contents_from ssl tab (before ++ t ∷ after) x509 pubkey nonce (length pubkey) =
        ap (λ l. contents_from ssl tab l x509 pubkey nonce (length pubkey)) split in
      ground arith

  -- The server accepts a valid self-signed certificate without any evidence if the size of its key
  -- in PEM form is no multiple of 4: `verify_contents` then returns that size.
  pub server_verify_no_evidence :
      (ctx : StoreCtx Cert) (x509 : Cert) (pubkey : List ℕ)
      → IsSelfSigned ctx x509
      → ssl.verify_ok x509 ≡ true
      → ssl.pem_pubkey x509 ≡ some pubkey
      → All (IsPassedOver x509) tab
      → bit_and (length pubkey) 3 ≢ 0
      → server_verify ssl tab 0 ctx ≡ 1
  unfolding verify_contents
  server_verify_no_evidence ctx x509 pubkey s good key h size =
      let skip = contents_from_append tab [] x509 pubkey ctx.server_random (length pubkey) h in
      let whole : contents_from ssl tab tab x509 pubkey ctx.server_random (length pubkey)
          ≡ length pubkey =
        ap (λ l. contents_from ssl tab l x509 pubkey ctx.server_random (length pubkey))
          (sym (append-nil tab))
        ∙ skip
        ∙ (unfold contents_from in refl) in
      let contents : verify_contents ssl tab x509 ctx.server_random ≡ length pubkey =
        ground arith in
      (server_verify_iff ctx x509 s good).1 (λ z. size (ap (λ n. bit_and n 3) (sym contents) ∙ z))

module _ (calls : Calls) (nonce : List ℕ) where
  -- A server in the mode of attestation whose evidence has been made presents a certificate with the quote and
  -- the evidence, if both can be installed.
  pub on_client_hello_attested :
      (rflag : ℕ) (q e : List ℕ)
      → rflag ≢ 0
      → rflag ≢ 2
      → calls.make_evidence nonce null null ≡ record { quote = filled q; evidence = filled e }
      → on_client_hello calls rflag nonce
        ≡ some (install calls (made_cert (quote_ext q ∷ evidence_ext e ∷ [])))
  unfolding on_client_hello x509_extensions buffer_bytes
  on_client_hello_attested rflag q e n0 n2 m = ground arith

  -- Where no evidence can be made and the caller's buffers are left alone, the server goes on with a
  -- certificate without evidence, and the client reads its uninitialised pointer.
  pub evidence_failed :
      (rflag : ℕ)
      → rflag ≢ 0
      → ((q e : Buffer) → calls.make_evidence nonce q e ≡ record { quote = q; evidence = e })
      → (on_client_hello calls rflag nonce ≡ some (install calls (made_cert [])))
        × (on_client_cert calls nonce ≡ none)
  unfolding on_client_hello on_client_cert x509_extensions
  evidence_failed rflag n0 left =
      let server = left null null in
      let client = left null uninitialised in (ground arith, ground arith)
