-- ===== src/Pica/Poc/Flags.antt =====
-- Each check of the process chain returns its flag or 0.
use portable_tls_ra.Base.{
  ℕ, zero, suc, ◌≡◌, refl, ◌⊎◌, inl, inr, true, false, some, List, [], ◌∷◌, Str, bit_or, arith,
  Option-cases,
}
use portable_tls_ra.Pica.Types.{
  Procinfo, InvArray, PicaStmt, verified_all, verify_pica_binaries, verify_pica_chain,
  verify_pica_uids,
}
use portable_tls_ra.Pica.Hashtable.Defs.{Slot}
use portable_tls_ra.Pica.Digest.Defs.{binary_verified, binaries_from, pica_verify_binaries}
use portable_tls_ra.Pica.Check.Defs.{
  chain_matches, ichain_from, pica_check_ichain, uids_from, match_uid, pica_check_uids,
}

-- The number is a flag or 0.
abbrev pub IsFlag : ℕ → ℕ → Type 0
IsFlag flag n = (n ≡ flag) ⊎ (n ≡ 0)

pub binaries_from-IsFlag :
    (murmur : Str → ℕ → ℕ) (table : List (Slot Procinfo)) (flag rc n : ℕ) (ps : List Procinfo)
    (b : ℕ)
    → IsFlag flag rc
    → binaries_from murmur table rc n ps ≡ some b
    → IsFlag flag b
unfolding binaries_from
binaries_from-IsFlag murmur table flag rc zero ps b ok e = ground arith
binaries_from-IsFlag murmur table flag rc (suc n) [] b ok e = absurd (ground arith)
binaries_from-IsFlag murmur table flag rc (suc n) (p ∷ ps) b ok e =
    elim (Option-cases (binary_verified murmur table p)) [
      | inl m ↦ absurd (ground arith)
      | inr (true, m) ↦ binaries_from-IsFlag murmur table flag rc n ps b ok (ground arith)
      | inr (false, m) ↦ binaries_from-IsFlag murmur table flag 0 n ps b (inr refl) (ground arith)
    ]

pub ichain_from-IsFlag :
    (flag rc n : ℕ) (arrays : List InvArray) (ps : List Procinfo) (ent b : ℕ)
    → IsFlag flag rc
    → ichain_from rc n arrays ps ent ≡ some b
    → IsFlag flag b
unfolding ichain_from
ichain_from-IsFlag flag rc zero arrays ps ent b ok e = ground arith
ichain_from-IsFlag flag rc (suc n) [] ps ent b ok e = absurd (ground arith)
ichain_from-IsFlag flag rc (suc n) (a ∷ arrays) ps ent b ok e =
    elim (Option-cases (chain_matches ent ps a.ichain)) [
      | inl m ↦ absurd (ground arith)
      | inr (true, m) ↦ ground arith
      | inr (false, m) ↦ ichain_from-IsFlag flag 0 n arrays ps ent b (inr refl) (ground arith)
    ]

pub uids_from-IsFlag :
    (n : ℕ) (ps : List Procinfo) (uids : List ℕ) (count b : ℕ)
    → uids_from n ps uids count ≡ some b
    → IsFlag verify_pica_uids b
unfolding uids_from
uids_from-IsFlag zero ps uids count b e = ground arith
uids_from-IsFlag (suc n) [] uids count b e = absurd (ground arith)
uids_from-IsFlag (suc n) (p ∷ ps) uids count b e =
    elim (Option-cases (match_uid uids count p.ruid)) [
      | inl m ↦ absurd (ground arith)
      | inr (true, m) ↦ uids_from-IsFlag n ps uids count b (ground arith)
      | inr (false, m) ↦ ground arith
    ]

pub pica_verify_binaries-IsFlag :
    (murmur : Str → ℕ → ℕ) (table : List (Slot Procinfo)) (n : ℕ) (ps : List Procinfo) (b : ℕ)
    → pica_verify_binaries murmur table (some ps) n ≡ some b
    → IsFlag verify_pica_binaries b
unfolding pica_verify_binaries
pica_verify_binaries-IsFlag murmur table n ps b e =
    binaries_from-IsFlag murmur table verify_pica_binaries verify_pica_binaries n ps b (inl refl) e

pub pica_check_ichain-IsFlag :
    (s : PicaStmt) (ps : List Procinfo) (n b : ℕ)
    → pica_check_ichain s ps n ≡ some b
    → IsFlag verify_pica_chain b
unfolding pica_check_ichain
pica_check_ichain-IsFlag s ps n b e =
    ichain_from-IsFlag verify_pica_chain verify_pica_chain s.ary_cnt s.iarray ps n b (inl refl) e

pub pica_check_uids-IsFlag :
    (s : PicaStmt) (ps : List Procinfo) (n b : ℕ)
    → pica_check_uids s ps n ≡ some b
    → IsFlag verify_pica_uids b
unfolding pica_check_uids
pica_check_uids-IsFlag s ps n b e = uids_from-IsFlag n ps s.uid s.uid_cnt b e

-- All of the flags are there only if each check returned its own.
pub all_flags :
    (b c u : ℕ)
    → IsFlag verify_pica_binaries b
    → IsFlag verify_pica_chain c
    → IsFlag verify_pica_uids u
    → verified_all (bit_or (bit_or (bit_or 3 b) c) u) ≡ true
    → (b ≡ verify_pica_binaries) × (c ≡ verify_pica_chain) × (u ≡ verify_pica_uids)
unfolding verified_all
all_flags b c u hb hc hu h = ground arith
