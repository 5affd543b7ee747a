-- ===== src/Tests/Pica.antt =====
-- A shell and its configuration.
use portable_tls_ra.Base.{
  ◌≡◌, refl, ◌≢◌, ◌⊎◌, ◌↔◌, true, some, none, List, [], ◌∷◌, ◌+◌, arith, ℕ, length, Str, Option,
  ◌==◌, if◌then◌else◌, All, bytes_eq, memcmp_eq,
}
use portable_tls_ra.Pica.Types.{
  Fdigest, Procinfo, InvArray, PicaStmt, PicaPolicy, verify_pica_binaries, verify_pica_chain,
  verify_pica_uids, pica_ent_conf_procinfo,
}
use portable_tls_ra.Pica.Hashtable.Defs.{
  empty_htable, Slot, reg_hashtable, find_hashtable, pica_build_hashtable, reg_slot, find_slot,
  myhash,
}
use portable_tls_ra.Pica.Hashtable.Refines.{registered, empty_htable-IsHtable, find-reg_hashtable}
use portable_tls_ra.Pica.Hashtable.Build.{first_named, pica_build_hashtable-first_named}
use portable_tls_ra.Pica.Digest.Defs.{
  binary_verified, pica_verify_digest, pica_verify_binaries, libs_match, lib_matches,
}
use portable_tls_ra.Pica.Digest.Accepts.{
  Conforms, IsVerified, pica_verify_digest_iff, pica_verify_digest_unknown,
  pica_verify_binaries_lem,
}
use portable_tls_ra.Pica.Check.Defs.{
  chain_matches, pica_check_ichain, pica_check_uids, pica_find_policy,
}
use portable_tls_ra.Pica.Check.Accepts.{
  IsMatch, RunsAs, FirstFor, pica_check_ichain-first, pica_check_uids_lem,
  pica_find_policy-FirstFor,
}

-- A hash for the tests: the length of the text.
abbrev pub by_length : Str → ℕ → ℕ
by_length path seed = length path + seed

abbrev pub libc : Fdigest
libc = record { path = some (1 ∷ 2 ∷ []); digest = 5 ∷ 5 ∷ [] }

abbrev libevil : Fdigest
libevil = record { path = some (9 ∷ []); digest = 6 ∷ 6 ∷ [] }

abbrev pub process : ℕ → Str → List Fdigest → Procinfo
process user path libs = record {
  pid = 7;
  ppid = 1;
  ruid = user;
  rgid = user;
  euid = user;
  egid = user;
  suid = user;
  sgid = user;
  path = some path;
  digest = 3 ∷ 3 ∷ [];
  count = length libs;
  libs = libs;
}

abbrev shell : Procinfo
shell = process 1000 (4 ∷ 4 ∷ []) (libc ∷ [])

abbrev editor : Procinfo
editor = process 1001 (4 ∷ 5 ∷ []) []

abbrev tampered : Procinfo
tampered = process 1000 (4 ∷ 4 ∷ []) (libevil ∷ [])

abbrev pub statement : List InvArray → PicaStmt
statement chains = record {
  sid = none;
  effect = 1;
  exec_path = some (4 ∷ 4 ∷ []);
  uid_cnt = 2;
  uid = 1000 ∷ 1002 ∷ [];
  act_cnt = 0;
  action = [];
  ary_cnt = length chains;
  iarray = chains;
}

abbrev pub chain : List (Option Str) → InvArray
chain paths = record { ichn_cnt = length paths; ichain = paths }

pica_verify_digest_iff_example : (pica_verify_digest shell shell ≡ some true) ↔ Conforms shell shell
pica_verify_digest_iff_example =
    pica_verify_digest_iff shell shell (λ e. cc, tt) (λ e. cc, tt) (tt, tt)

pica_verify_digest_unknown_example : pica_verify_digest shell tampered ≡ some true
pica_verify_digest_unknown_example =
    pica_verify_digest_unknown shell tampered (λ e. cc, tt) (λ e. cc, tt) refl refl
      ((λ e. ground arith, tt), tt)

-- The table that holds the shell alone.
abbrev shell_table : List (Slot Procinfo)
shell_table = reg_hashtable by_length pica_ent_conf_procinfo shell (4 ∷ 4 ∷ []) empty_htable

find-reg_hashtable_example :
    find_hashtable by_length (4 ∷ 4 ∷ []) 1 shell_table
    ≡ registered 1 shell
        (4 ∷ 4 ∷ [])
        (λ q k. find_hashtable by_length q k empty_htable)
        (4 ∷ 4 ∷ [])
        1
find-reg_hashtable_example =
    find-reg_hashtable by_length pica_ent_conf_procinfo shell (4 ∷ 4 ∷ []) empty_htable
      empty_htable-IsHtable (4 ∷ 4 ∷ []) 1

pica_build_hashtable_example :
    (t : List (Slot Procinfo)) × (pica_build_hashtable by_length (shell ∷ editor ∷ []) 2 ≡ some t)
    × ((q : Str) (k : ℕ)
        → find_hashtable by_length q k t
          ≡ (if pica_ent_conf_procinfo == k then first_named q 2 (shell ∷ editor ∷ []) else none))
pica_build_hashtable_example =
    pica_build_hashtable-first_named by_length (shell ∷ editor ∷ []) 2 (λ e. cc, (λ e. cc, tt))

found_after_conflict :
    pica_build_hashtable by_length (shell ∷ editor ∷ []) 2
    ≡ some (reg_hashtable by_length pica_ent_conf_procinfo editor (4 ∷ 5 ∷ []) shell_table)
unfolding pica_build_hashtable
found_after_conflict = refl

shell_passes : binary_verified by_length shell_table shell ≡ some true
unfolding binary_verified pica_verify_digest find_hashtable find_slot reg_hashtable reg_slot
    empty_htable myhash libs_match lib_matches bytes_eq memcmp_eq
shell_passes = refl

shell_checked : binary_verified by_length shell_table shell ≢ none
shell_checked e = ground (arith, shell_passes)

pica_verify_binaries_example :
    ((All (IsVerified by_length shell_table) (shell ∷ [])
        × (pica_verify_binaries by_length shell_table (some (shell ∷ [])) 1
            ≡ some verify_pica_binaries))
      ⊎ ((¬ All (IsVerified by_length shell_table) (shell ∷ []))
          × (pica_verify_binaries by_length shell_table (some (shell ∷ [])) 1 ≡ some 0)))
    × (pica_verify_binaries by_length shell_table none 1 ≡ some 0)
pica_verify_binaries_example =
    pica_verify_binaries_lem by_length shell_table 1 (shell ∷ []) (shell_checked, tt)

pica_check_ichain_example :
    (IsMatch 2 (editor ∷ shell ∷ []) (some (4 ∷ 4 ∷ []) ∷ some (4 ∷ 5 ∷ []) ∷ [])
      × (◌≡◌ {A = ℕ} 0 verify_pica_chain))
    ⊎ ((¬ IsMatch 2 (editor ∷ shell ∷ []) (some (4 ∷ 4 ∷ []) ∷ some (4 ∷ 5 ∷ []) ∷ []))
        × (◌≡◌ {A = ℕ} 0 0))
unfolding pica_check_ichain chain_matches bytes_eq
pica_check_ichain_example =
    pica_check_ichain-first
      (statement (
        chain (some (4 ∷ 4 ∷ []) ∷ some (4 ∷ 5 ∷ []) ∷ [])
        ∷ chain (some (4 ∷ 5 ∷ []) ∷ some (4 ∷ 4 ∷ []) ∷ [])
        ∷ []))
      (chain (some (4 ∷ 4 ∷ []) ∷ some (4 ∷ 5 ∷ []) ∷ []))
      (chain (some (4 ∷ 5 ∷ []) ∷ some (4 ∷ 4 ∷ []) ∷ []) ∷ []) 1 (editor ∷ shell ∷ []) 2 0 refl
      refl refl

pica_check_uids_example :
    (RunsAs (1000 ∷ 1002 ∷ []) 2 (shell ∷ editor ∷ [])
      × (pica_check_uids (statement []) (shell ∷ editor ∷ []) 2 ≡ some verify_pica_uids))
    ⊎ ((¬ RunsAs (1000 ∷ 1002 ∷ []) 2 (shell ∷ editor ∷ []))
        × (pica_check_uids (statement []) (shell ∷ editor ∷ []) 2 ≡ some 0))
pica_check_uids_example = pica_check_uids_lem (statement []) (shell ∷ editor ∷ []) 2 tt tt

abbrev pub policy : PicaPolicy
policy = record { version = none; entries = 1; stmt = statement [] ∷ [] }

pica_find_policy_example :
    (found : Option PicaStmt) × (pica_find_policy policy shell ≡ some found)
    × FirstFor (4 ∷ 4 ∷ []) (statement [] ∷ []) found
pica_find_policy_example = pica_find_policy-FirstFor policy shell (4 ∷ 4 ∷ []) refl ((λ e. cc), tt)
