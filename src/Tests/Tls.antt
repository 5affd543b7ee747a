-- ===== src/Tests/Tls.antt =====
-- Certificates with and without evidence.
use portable_tls_ra.Base.{
  ◌≡◌, refl, inl, zero, suc, Bool, true, false, some, none, [], ◌∷◌, arith, ℕ, replicate,
  if◌then◌else◌,
}
use portable_tls_ra.Tls.Verify.{Openssl, VerifyTab, StoreCtx, client_verify, server_verify}
use portable_tls_ra.Tls.Handshake.{filled, Calls}
use portable_tls_ra.Tls.Accepts.{IsSelfSigned, client_verify_accepts, server_verify_no_evidence}

-- A certificate is told by its number: 0 is no valid one, 1 has no extension, the others have the
-- first entry's extension at that place.
abbrev ssl : Openssl ℕ
ssl = record {
  pem_pubkey = λ c. some (replicate 178 65);
  txt2obj = λ t. some t;
  ext_by_obj = λ c o. elim c [ zero ↦ none | suc zero ↦ none | suc (suc n) ↦ some (suc n) ];
  ext_data = λ c n. n ∷ [];
  verify_ok = λ c. elim c [ zero ↦ false | suc n ↦ true ];
}

abbrev entry : VerifyTab
entry = record { oid_txt = 50 ∷ []; verify_func = λ d k n. 1 }

abbrev ctx : ℕ → StoreCtx ℕ
ctx cert = record {
  current_cert = some cert;
  has_ssl = true;
  error_depth = 0;
  self_signed = true;
  server_random = 3 ∷ [];
  client_random = 4 ∷ [];
}

abbrev self_signed : (cert : ℕ) → IsSelfSigned (ctx cert) cert
self_signed cert = record { current = refl; connected = refl; leaf = refl; rejected = refl }

client_verify_accepts_example : client_verify ssl (entry ∷ []) 0 (ctx 1) ≡ 1
client_verify_accepts_example = client_verify_accepts ssl (entry ∷ []) (ctx 1) 1 (self_signed 1)

server_verify_no_evidence_example : server_verify ssl (entry ∷ []) 0 (ctx 1) ≡ 1
server_verify_no_evidence_example =
    server_verify_no_evidence ssl (entry ∷ []) (ctx 1) 1 (replicate 178 65) (self_signed 1) refl
      refl ((λ target e. inl refl), tt) (λ e. ground arith)

abbrev calls : Bool → Calls
calls made = record {
  make_evidence = λ n q e.
      if made
      then record { quote = filled n; evidence = filled (8 ∷ []) }
      else record { quote = q; evidence = e };
  use_certificate = true;
  use_private_key = true;
}
