-- ===== src/Tests/Peers.antt =====
-- A peer with the evidence of an enclave.
use portable_tls_ra.Base.{
  ℕ, ◌≡◌, ◌∙◌, refl, ap, sym, true, none, some, Option, List, [], ◌∷◌, bit_and, arith,
}
use portable_tls_ra.Tls.Verify.{
  verified_evidence, Openssl, VerifyTab, StoreCtx, verify_contents, server_verify,
}
use portable_tls_ra.Tls.Accepts.{IsSelfSigned, server_verify_iff, verify_contents-first}
use portable_tls_ra.Tls.Sgx.{verify_sgx_evidence}
use portable_tls_ra.Tls.Sound.{IsAttested}
use portable_tls_ra.Tls.Peers.{server_verify-IsAttested}
use portable_tls_ra.Tests.Sgx.{nonce, calls, accepted}

-- The certificate with the number of its extension.
abbrev ssl : Openssl ℕ
ssl = record {
  pem_pubkey = λ c. some (2 ∷ []);
  txt2obj = λ t. some t;
  ext_by_obj = λ c o. some c;
  ext_data = λ c n. 4 ∷ [];
  verify_ok = λ c. true;
}

-- A fault is a failure here.
abbrev verdict : Option ℕ → ℕ
verdict none = 0
verdict (some r) = r

abbrev judge : List ℕ → List ℕ → List ℕ → ℕ
judge evi pem random = verdict (verify_sgx_evidence calls [] evi pem random)

judge_accepts : judge (4 ∷ []) (2 ∷ []) nonce ≡ verified_evidence
judge_accepts = ap verdict accepted

abbrev entry : VerifyTab
entry = record { oid_txt = 50 ∷ []; verify_func = judge }

abbrev ctx : StoreCtx ℕ
ctx = record {
  current_cert = some 3;
  has_ssl = true;
  error_depth = 0;
  self_signed = true;
  server_random = nonce;
  client_random = [];
}

self_signed : IsSelfSigned ctx 3
self_signed = record { current = refl; connected = refl; leaf = refl; rejected = refl }

judged : verify_sgx_evidence calls [] (4 ∷ []) (2 ∷ []) nonce ≡ some (judge (4 ∷ []) (2 ∷ []) nonce)
judged = accepted ∙ ap (λ n. some n) (sym judge_accepts)

contents : verify_contents ssl (entry ∷ []) 3 nonce ≡ verified_evidence
contents =
    verify_contents-first ssl (entry ∷ []) [] [] entry 3 (2 ∷ []) nonce (50 ∷ []) 2 refl refl tt
      refl refl
    ∙ judge_accepts

server_accepts : server_verify ssl (entry ∷ []) 0 ctx ≡ 1
server_accepts = (server_verify_iff ssl (entry ∷ []) ctx 3 self_signed refl).1 (λ z.
    let two : bit_and verified_evidence 3 ≡ 0 = ap (λ n. bit_and n 3) (sym contents) ∙ z in
    ground (arith, two))

server_verify-IsAttested_example : IsAttested calls [] (4 ∷ []) (2 ∷ []) nonce
server_verify-IsAttested_example =
    server_verify-IsAttested ssl (entry ∷ []) calls ctx 3 [] [] entry [] (2 ∷ []) (50 ∷ []) 2
      self_signed refl refl refl tt refl refl judged server_accepts
