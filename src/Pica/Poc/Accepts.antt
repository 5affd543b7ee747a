-- ===== src/Pica/Poc/Accepts.antt =====
-- What the client program has verified when it reports that all verifications are a success.
use portable_tls_ra.Base.{
  ℕ, ◌-◌, ◌≡◌, ◌≢◌, inl, inr, ◌∙◌, sym, true, none, some, List, Str, get_elem?, ◌==◌, bit_or, arith,
  Bool-cases, Option-cases, subst, ap,
}
use portable_tls_ra.Pica.Types.{
  Procinfo, PicaStmt, PicaPolicy, verified_all, verify_pica_binaries, verify_pica_chain,
  verify_pica_uids,
}
use portable_tls_ra.Pica.Hashtable.Defs.{Slot, empty_htable, reg_procs}
use portable_tls_ra.Pica.Digest.Defs.{pica_verify_binaries}
use portable_tls_ra.Pica.Check.Defs.{pica_check_ichain, pica_check_uids, pica_find_policy}
use portable_tls_ra.Pica.Evidence.Types.{External, Surroundings, Evidence}
use portable_tls_ra.Pica.Evidence.Verify.{body_bytes, pica_verify_tpm2all}
use portable_tls_ra.Pica.Evidence.Attested.{IsAttested, pica_verify_tpm2all_iff}
use portable_tls_ra.Pica.Procinfo.Defs.{pica_extract_pinfo}
use portable_tls_ra.Pica.Poc.Defs.{
  Inputs, verified, check_measured, verify_measure, attest_measure, pica_poc_main,
}
use portable_tls_ra.Pica.Poc.Flags.{
  all_flags, pica_verify_binaries-IsFlag, pica_check_ichain-IsFlag, pica_check_uids-IsFlag,
}

module _ {Key : Type 0} (ext : External Key) (env : Surroundings) (murmur : Str → ℕ → ℕ) where
  -- The checks of the measured processes against the configuration and the policy all passed.
  pub record IsChecked (table : List (Slot Procinfo)) (ppol : PicaPolicy) (ent : ℕ)
      (ps : List Procinfo) (pstmt : PicaStmt) : Type 0 where
    pub mybinary : Procinfo
    pub last : get_elem? ps (ent - 1) ≡ some mybinary
    pub policy : pica_find_policy ppol mybinary ≡ some (some pstmt)
    pub binaries : pica_verify_binaries murmur table (some ps) ent ≡ some verify_pica_binaries
    pub chain : pica_check_ichain pstmt ps ent ≡ some verify_pica_chain
    pub uids : pica_check_uids pstmt ps ent ≡ some verify_pica_uids

  check_measured-IsChecked :
      (inp : Inputs) (table : List (Slot Procinfo)) (ppol : PicaPolicy) (fresh : ℕ × List Procinfo)
      (v : ℕ) (pstmt : PicaStmt)
      → check_measured ext env murmur inp table ppol 3 fresh ≡ some (verified v pstmt)
      → verified_all v ≡ true
      → IsChecked table ppol fresh.0 fresh.1 pstmt
  unfolding check_measured
  check_measured-IsChecked inp table ppol fresh v pstmt e all =
      elim (Option-cases (get_elem? fresh.1 (fresh.0 - 1))) [
        | inl m ↦ absurd (ground arith)
        | inr (mybinary, last) ↦ elim (Option-cases (pica_find_policy ppol mybinary)) [
          | inl m ↦ absurd (ground arith)
          | inr (none, m) ↦ absurd (ground arith)
          | inr (some st, policy) ↦
              elim (Option-cases (pica_verify_binaries murmur table (some fresh.1) fresh.0)) [
                | inl m ↦ absurd (ground arith)
                | inr (b, binaries) ↦ elim (Option-cases (pica_check_ichain st fresh.1 fresh.0)) [
                  | inl m ↦ absurd (ground arith)
                  | inr (c, chain) ↦ elim (Option-cases (pica_check_uids st fresh.1 fresh.0)) [
                    | inl m ↦ absurd (ground arith)
                    | inr (u, uids) ↦
                        let flags : bit_or (bit_or (bit_or 3 b) c) u ≡ v = ground arith in
                        let same : st ≡ pstmt = ground arith in
                        let f =
                          all_flags b c u
                            (pica_verify_binaries-IsFlag murmur table fresh.0 fresh.1 b binaries)
                            (pica_check_ichain-IsFlag st fresh.1 fresh.0 c chain)
                            (pica_check_uids-IsFlag st fresh.1 fresh.0 u uids)
                            (subst (λ w. verified_all w ≡ true) (sym flags) all) in
                        subst (λ t. IsChecked table ppol fresh.0 fresh.1 t) same
                          (record {
                            mybinary = mybinary;
                            last = last;
                            policy = policy;
                            binaries = binaries ∙ ap some f.0;
                            chain = chain ∙ ap some f.1;
                            uids = uids ∙ ap some f.2;
                          })
                  ]
                ]
              ]
        ]
      ]

  -- What stands behind a report of success.
  pub record IsAccepted (inp : Inputs) (pstmt : PicaStmt) : Type 0 where
    pub table : List (Slot Procinfo)
    pub policy : PicaPolicy
    pub random : List ℕ
    pub measured : List ℕ
    pub evidence : Evidence
    pub ent : ℕ
    pub chain : List Procinfo
    pub configured : reg_procs murmur inp.entries inp.procinfo empty_htable ≡ some table
    pub has_policy : inp.ppol ≡ some policy
    pub has_nonce : inp.nonce ≡ some random
    pub has_measure : inp.measure random ≡ some measured
    pub attested : IsAttested ext env measured evidence
    pub extracted :
        pica_extract_pinfo ext inp.heap (body_bytes evidence.picabody) ≡ some (some (ent, chain))
    pub checked : IsChecked table policy ent chain pstmt

  -- The evidence and the processes behind the flags of `verify_measure`.
  verify_measure-IsChecked :
      (inp : Inputs) (table : List (Slot Procinfo)) (ppol : PicaPolicy) (nonce measure : List ℕ)
      (v : ℕ) (pstmt : PicaStmt)
      → env.evp.ctx_new ≡ true
      → verify_measure ext env murmur inp table ppol nonce measure ≡ some (verified v pstmt)
      → verified_all v ≡ true
      → (s : Evidence) × (ent : ℕ) × (chain : List Procinfo) × IsAttested ext env measure s
        × (pica_extract_pinfo ext inp.heap (body_bytes s.picabody) ≡ some (some (ent, chain)))
        × IsChecked table ppol ent chain pstmt
  unfolding verify_measure
  verify_measure-IsChecked inp table ppol nonce measure v pstmt h e all =
      elim (Option-cases (pica_verify_tpm2all ext env measure nonce)) [
        | inl m ↦ absurd (ground arith)
        | inr ((flags, none), m) ↦ absurd (ground arith)
        | inr ((flags, some body), m) ↦
            let proven = (pica_verify_tpm2all_iff ext env measure nonce flags body h).0 m in
            elim (Bool-cases inp.rflag) [
              | inl reg ↦ absurd (ground arith)
              | inr check ↦
                  elim (Option-cases (pica_extract_pinfo ext inp.heap (body_bytes body))) [
                    | inl n ↦ absurd (ground arith)
                    | inr (none, n) ↦ absurd (ground arith)
                    | inr (some fresh, n) ↦
                        let ran : check_measured ext env murmur inp table ppol flags fresh
                            ≡ some (verified v pstmt) =
                          ground arith in
                        let three =
                          subst
                            (λ w.
                              check_measured ext env murmur inp table ppol w fresh
                              ≡ some (verified v pstmt))
                            proven.1 ran in
                        (
                          proven.0,
                          fresh.0,
                          fresh.1,
                          proven.3,
                          subst
                              (λ w.
                                pica_extract_pinfo ext inp.heap (body_bytes w) ≡ some (some fresh))
                              proven.2 n,
                          check_measured-IsChecked inp table ppol fresh v pstmt three all,
                        )
                  ]
            ]
      ]

  attest_measure-IsAccepted :
      (inp : Inputs) (table : List (Slot Procinfo)) (v : ℕ) (pstmt : PicaStmt)
      → env.evp.ctx_new ≡ true
      → reg_procs murmur inp.entries inp.procinfo empty_htable ≡ some table
      → attest_measure ext env murmur inp table ≡ some (verified v pstmt)
      → verified_all v ≡ true
      → IsAccepted inp pstmt
  unfolding attest_measure
  attest_measure-IsAccepted inp table v pstmt h configured e all = elim (Option-cases inp.ppol) [
    | inl n ↦ absurd (ground arith)
    | inr (policy, p) ↦ elim (Option-cases inp.nonce) [
      | inl n ↦ absurd (ground arith)
      | inr (random, r) ↦ elim (Option-cases (inp.measure random)) [
        | inl n ↦ absurd (ground arith)
        | inr (measured, m) ↦
            let ran : verify_measure ext env murmur inp table policy random measured
                ≡ some (verified v pstmt) =
              ground arith in
            let f = verify_measure-IsChecked inp table policy random measured v pstmt h ran all in
            record {
              table = table;
              policy = policy;
              random = random;
              measured = measured;
              evidence = f.0;
              ent = f.1;
              chain = f.2;
              configured = configured;
              has_policy = p;
              has_nonce = r;
              has_measure = m;
              attested = f.3;
              extracted = f.4;
              checked = f.5;
            }
      ]
    ]
  ]

  registration_verifies_nothing :
      (inp : Inputs) (table : List (Slot Procinfo)) (v : ℕ) (pstmt : PicaStmt)
      → inp.rflag ≡ true
      → attest_measure ext env murmur inp table ≢ some (verified v pstmt)
  unfolding attest_measure verify_measure
  registration_verifies_nothing inp table v pstmt reg e = ground arith

  -- Where a digest context can be made, a report that all verifications are a success stands for a
  -- table of the configured processes, a measure with attested evidence, a process chain extracted from
  -- it whose last process has the statement as its policy, and the three checks of that chain passed.
  pub pica_poc_main-IsAccepted :
      (inp : Inputs) (v : ℕ) (pstmt : PicaStmt)
      → env.evp.ctx_new ≡ true
      → pica_poc_main ext env murmur inp ≡ some (verified v pstmt)
      → verified_all v ≡ true
      → IsAccepted inp pstmt
  unfolding pica_poc_main
  pica_poc_main-IsAccepted inp v pstmt h e all = elim (Bool-cases inp.rflag) [
    | inl reg ↦ absurd (registration_verifies_nothing inp empty_htable v pstmt reg (ground arith))
    | inr check ↦ elim (Bool-cases (inp.entries == 0)) [
      | inl n ↦ absurd (ground arith)
      | inr n ↦ elim (Option-cases (reg_procs murmur inp.entries inp.procinfo empty_htable)) [
        | inl m ↦ absurd (ground arith)
        | inr (table, m) ↦ attest_measure-IsAccepted inp table v pstmt h m (ground arith) all
      ]
    ]
  ]
