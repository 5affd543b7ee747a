-- ===== src/Pica/Poc/Trusted.antt =====
-- What the success of the client program says of the processes themselves.
use mathlib.Core.List.{Memᴰ}
use portable_tls_ra.Base.{
  ℕ, zero, suc, ◌-◌, ◌≡◌, ◌≢◌, refl, inl, inr, ◌∙◌, sym, ap, true, false, Option, some, List, [],
  ◌∷◌, Str, get_elem?, ◌==◌, ==_iff, arith, Bool-cases, Option-cases, All, take, bytes_eq,
  bytes_eq_iff,
}
use portable_tls_ra.Pica.Types.{
  Procinfo, InvArray, PicaStmt, PicaPolicy, verified_all, verify_pica_binaries, verify_pica_chain,
  verify_pica_uids,
}
use portable_tls_ra.Pica.Hashtable.Defs.{Slot, empty_htable, reg_procs}
use portable_tls_ra.Pica.Digest.Defs.{binary_verified, binaries_from, pica_verify_binaries}
use portable_tls_ra.Pica.Check.Defs.{
  chain_matches, ichain_from, pica_check_ichain, uids_from, match_uid, pica_check_uids, stmt_for,
  pica_find_policy,
}
use portable_tls_ra.Pica.Check.Accepts.{IsMatch, RunsAs}
use portable_tls_ra.Pica.Evidence.Types.{External, Surroundings, Evidence}
use portable_tls_ra.Pica.Evidence.Verify.{body_bytes}
use portable_tls_ra.Pica.Evidence.Attested.{IsAttested}
use portable_tls_ra.Pica.Procinfo.Defs.{pica_extract_pinfo}
use portable_tls_ra.Pica.Poc.Defs.{Inputs, verified, pica_poc_main}
use portable_tls_ra.Pica.Poc.Flags.{binaries_from-IsFlag, ichain_from-IsFlag}
use portable_tls_ra.Pica.Poc.Accepts.{IsChecked, pica_poc_main-IsAccepted}

chain_matches_sound :
    (n : ℕ) (ps : List Procinfo) (chain : List (Option Str))
    → chain_matches n ps chain ≡ some true
    → IsMatch n ps chain
unfolding chain_matches
chain_matches_sound zero ps chain e = refl
chain_matches_sound (suc n) [] chain e = absurd (ground arith)
chain_matches_sound (suc n) (p ∷ ps) [] e = absurd (ground arith)
chain_matches_sound (suc n) (p ∷ ps) (c ∷ chain) e = elim (Option-cases p.path) [
  | inl m ↦ absurd (ground arith)
  | inr (a, m) ↦ elim (Option-cases c) [
    | inl k ↦ absurd (ground arith)
    | inr (b, k) ↦ elim (Bool-cases (bytes_eq a b)) [
      | inr n ↦ absurd (ground arith)
      | inl same ↦
          let equal = (bytes_eq_iff a b).0 same in
          let rest = chain_matches_sound n ps chain (ground arith) in ground arith
    ]
  ]
]

-- Of the statement's chains there is none, or the first one begins with the paths of the processes.
abbrev pub FirstChain : ℕ → List InvArray → ℕ → List Procinfo → Type 0
FirstChain zero arrays ent ps = Unit {0}
FirstChain (suc n) [] ent ps = ⊥
FirstChain (suc n) (a ∷ arrays) ent ps = IsMatch ent ps a.ichain

ichain_from-FirstChain :
    (rc n : ℕ) (arrays : List InvArray) (ps : List Procinfo) (ent b : ℕ)
    → b ≢ 0
    → ichain_from rc n arrays ps ent ≡ some b
    → FirstChain n arrays ent ps
unfolding ichain_from
ichain_from-FirstChain rc zero arrays ps ent b pos e = tt
ichain_from-FirstChain rc (suc n) [] ps ent b pos e = absurd (ground arith)
ichain_from-FirstChain rc (suc n) (a ∷ arrays) ps ent b pos e =
    elim (Option-cases (chain_matches ent ps a.ichain)) [
      | inl m ↦ absurd (ground arith)
      | inr (true, m) ↦ chain_matches_sound ent ps a.ichain m
      | inr (false, m) ↦
          absurd (elim (ichain_from-IsFlag 0 0 n arrays ps ent b (inl refl) (ground arith)) [
            | inl z ↦ pos z
            | inr z ↦ pos z
          ])
    ]

match_uid_sound : (ids : List ℕ) (n id : ℕ) → match_uid ids n id ≡ some true → Memᴰ id (take n ids)
unfolding match_uid
match_uid_sound ids zero id e = absurd (ground arith)
match_uid_sound [] (suc n) id e = absurd (ground arith)
match_uid_sound (i ∷ ids) (suc n) id e = elim (Bool-cases (i == id)) [
  | inl same ↦ Memᴰ.head (sym ((==_iff i id).0 same))
  | inr other ↦ Memᴰ.tail (match_uid_sound ids n id (ground arith))
]

uids_from_sound :
    (n : ℕ) (ps : List Procinfo) (uids : List ℕ) (count b : ℕ)
    → b ≢ 0
    → uids_from n ps uids count ≡ some b
    → RunsAs (take count uids) n ps
unfolding uids_from
uids_from_sound zero ps uids count b pos e = tt
uids_from_sound (suc n) [] uids count b pos e = absurd (ground arith)
uids_from_sound (suc n) (p ∷ ps) uids count b pos e =
    elim (Option-cases (match_uid uids count p.ruid)) [
      | inl m ↦ absurd (ground arith)
      | inr (true, m) ↦ (
        match_uid_sound uids count p.ruid m,
        uids_from_sound n ps uids count b pos (ground arith),
      )
      | inr (false, m) ↦ absurd (ground arith)
    ]

stmt_for_sound :
    (n : ℕ) (stmts : List PicaStmt) (path : Str) (s : PicaStmt)
    → stmt_for n stmts path ≡ some (some s)
    → s.exec_path ≡ some path
unfolding stmt_for
stmt_for_sound zero stmts path s e = absurd (ground arith)
stmt_for_sound (suc n) [] path s e = absurd (ground arith)
stmt_for_sound (suc n) (t ∷ stmts) path s e = elim (Option-cases t.exec_path) [
  | inl m ↦ absurd (ground arith)
  | inr (exec, m) ↦ elim (Bool-cases (bytes_eq exec path)) [
    | inl same ↦
        let equal = (bytes_eq_iff exec path).0 same in
        let it : t ≡ s = ground arith in
        sym (ap (λ (u : PicaStmt). u.exec_path) it) ∙ m ∙ ap some equal
    | inr other ↦ stmt_for_sound n stmts path s (ground arith)
  ]
]

module _ (murmur : Str → ℕ → ℕ) (table : List (Slot Procinfo)) where
  binaries_from_sound :
      (rc n : ℕ) (ps : List Procinfo) (b : ℕ)
      → b ≢ 0
      → binaries_from murmur table rc n ps ≡ some b
      → All (λ p. binary_verified murmur table p ≡ some true) (take n ps)
  unfolding binaries_from
  binaries_from_sound rc zero ps b pos e = tt
  binaries_from_sound rc (suc n) [] b pos e = absurd (ground arith)
  binaries_from_sound rc (suc n) (p ∷ ps) b pos e =
      elim (Option-cases (binary_verified murmur table p)) [
        | inl m ↦ absurd (ground arith)
        | inr (true, m) ↦ (m, binaries_from_sound rc n ps b pos (ground arith))
        | inr (false, m) ↦
            absurd (elim (binaries_from-IsFlag murmur table 0 0 n ps b (inl refl) (ground arith)) [
              | inl z ↦ pos z
              | inr z ↦ pos z
            ])
      ]

  -- `pica_verify_digest` accepts each of the processes against the one configured under its path, the
  -- first chain of the statement, if it has one, begins with their paths, the real user of each is in
  -- the statement's list, and the statement is for the executable of the last one.
  pub record IsTrusted (ent : ℕ) (ps : List Procinfo) (pstmt : PicaStmt) : Type 0 where
    pub mybinary : Procinfo
    pub last : get_elem? ps (ent - 1) ≡ some mybinary
    pub executable : pstmt.exec_path ≡ mybinary.path
    pub binaries : All (λ p. binary_verified murmur table p ≡ some true) (take ent ps)
    pub chain : FirstChain pstmt.ary_cnt pstmt.iarray ent ps
    pub uids : RunsAs (take pstmt.uid_cnt pstmt.uid) ent ps

find_policy_sound :
    (ppol : PicaPolicy) (bin : Procinfo) (s : PicaStmt)
    → pica_find_policy ppol bin ≡ some (some s)
    → s.exec_path ≡ bin.path
unfolding pica_find_policy
find_policy_sound ppol bin s e = elim (Option-cases bin.path) [
  | inl m ↦ absurd (ground arith)
  | inr (path, m) ↦ stmt_for_sound ppol.entries ppol.stmt path s (ground arith) ∙ sym m
]

module _ {Key : Type 0} (ext : External Key) (env : Surroundings) (murmur : Str → ℕ → ℕ) where
  IsChecked-IsTrusted :
      (table : List (Slot Procinfo)) (ppol : PicaPolicy) (ent : ℕ) (ps : List Procinfo)
      (pstmt : PicaStmt)
      → IsChecked ext env murmur table ppol ent ps pstmt
      → IsTrusted murmur table ent ps pstmt
  unfolding pica_verify_binaries pica_check_ichain pica_check_uids
  IsChecked-IsTrusted table ppol ent ps pstmt c = record {
    mybinary = c.mybinary;
    last = c.last;
    executable = find_policy_sound ppol c.mybinary pstmt c.policy;
    binaries =
        binaries_from_sound murmur table verify_pica_binaries ent ps verify_pica_binaries
          (λ e. ground arith) c.binaries;
    chain =
        ichain_from-FirstChain verify_pica_chain pstmt.ary_cnt pstmt.iarray ps ent verify_pica_chain
          (λ e. ground arith) c.chain;
    uids =
        uids_from_sound ent ps pstmt.uid pstmt.uid_cnt verify_pica_uids (λ e. ground arith) c.uids;
  }

  -- Where a digest context can be made, a report that all verifications are a success means that the
  -- processes were extracted from attested evidence, that `pica_verify_digest` accepts each of them
  -- against the process configured under its path, that the statement's first chain, if it has one,
  -- begins with their paths, that the real user of each is in the statement's list, and that the
  -- statement is for the executable of the last one.
  pub pica_poc_main-IsTrusted :
      (inp : Inputs) (v : ℕ) (pstmt : PicaStmt)
      → env.evp.ctx_new ≡ true
      → pica_poc_main ext env murmur inp ≡ some (verified v pstmt)
      → verified_all v ≡ true
      → (table : List (Slot Procinfo)) × (measured : List ℕ) × (s : Evidence) × (ent : ℕ)
        × (ps : List Procinfo) × (reg_procs murmur inp.entries inp.procinfo empty_htable
            ≡ some table)
        × IsAttested ext env measured s
        × (pica_extract_pinfo ext inp.heap (body_bytes s.picabody) ≡ some (some (ent, ps)))
        × IsTrusted murmur table ent ps pstmt
  pica_poc_main-IsTrusted inp v pstmt h e all =
      let a = pica_poc_main-IsAccepted ext env murmur inp v pstmt h e all in
      (
        a.table,
        a.measured,
        a.evidence,
        a.ent,
        a.chain,
        a.configured,
        a.attested,
        a.extracted,
        IsChecked-IsTrusted a.table a.policy a.ent a.chain pstmt a.checked,
      )
