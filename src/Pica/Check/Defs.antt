-- ===== src/Pica/Check/Defs.antt =====
-- `pica_check_ichain`, `match_uid`, `pica_check_uids` and `pica_find_policy` of src/libpica_clnt.c.
-- `none` stands for a read through NULL or past an array.
use portable_tls_ra.Base.{
  ℕ, zero, suc, Bool, true, false, Option, none, some, List, [], ◌∷◌, Str, bytes_eq, ◌==◌,
  if◌then◌else◌, ◌>>=◌,
}
use portable_tls_ra.Pica.Types.{
  Procinfo, InvArray, PicaStmt, PicaPolicy, verify_pica_chain, verify_pica_uids,
}

-- The inner loop over the measured processes, with `n` rounds left, against the policy's chain from
-- `chain[j]` on: false at the first path that differs.
unfoldable pub chain_matches : ℕ → List Procinfo → List (Option Str) → Option Bool
chain_matches zero pinfo chain = some true
chain_matches (suc n) [] chain = none
chain_matches (suc n) (p ∷ pinfo) [] = none
chain_matches (suc n) (p ∷ pinfo) (c ∷ chain) = p.path >>= λ cp.
    c >>= λ expected. if bytes_eq cp expected then chain_matches n pinfo chain else some false

-- The outer loop over the policy's chains, with `n` rounds left: a chain that differs clears `rc`,
-- one that matches ends the loop.
unfoldable pub ichain_from : ℕ → ℕ → List InvArray → List Procinfo → ℕ → Option ℕ
ichain_from rc zero arrays pinfo ent = some rc
ichain_from rc (suc n) [] pinfo ent = none
ichain_from rc (suc n) (a ∷ arrays) pinfo ent = chain_matches ent pinfo a.ichain >>= λ found.
    if found then some rc else ichain_from 0 n arrays pinfo ent

unfoldable pub pica_check_ichain : PicaStmt → List Procinfo → ℕ → Option ℕ
unfolding ichain_from
pica_check_ichain pstmt pinfo ent =
    ichain_from verify_pica_chain pstmt.ary_cnt pstmt.iarray pinfo ent

-- The identifiers are compared as 32-bit words.
unfoldable pub match_uid : List ℕ → ℕ → ℕ → Option Bool
match_uid ids zero id = some false
match_uid [] (suc n) id = none
match_uid (i ∷ ids) (suc n) id = if i == id then some true else match_uid ids n id

-- The loop over the processes, with `n` rounds left.
unfoldable pub uids_from : ℕ → List Procinfo → List ℕ → ℕ → Option ℕ
uids_from zero pinfo uids count = some verify_pica_uids
uids_from (suc n) [] uids count = none
uids_from (suc n) (p ∷ pinfo) uids count = match_uid uids count p.ruid >>= λ matched.
    if matched then uids_from n pinfo uids count else some 0

unfoldable pub pica_check_uids : PicaStmt → List Procinfo → ℕ → Option ℕ
unfolding uids_from
pica_check_uids pstmt pinfo ent = uids_from ent pinfo pstmt.uid pstmt.uid_cnt

-- The loop over the statements, with `n` rounds left.
unfoldable pub stmt_for : ℕ → List PicaStmt → Str → Option (Option PicaStmt)
stmt_for zero stmts path = some none
stmt_for (suc n) [] path = none
stmt_for (suc n) (s ∷ stmts) path =
    s.exec_path >>= λ exec. if bytes_eq exec path then some (some s) else stmt_for n stmts path

-- `some none` is the NULL that the function returns when no statement fits.
unfoldable pub pica_find_policy : PicaPolicy → Procinfo → Option (Option PicaStmt)
unfolding stmt_for
pica_find_policy ppol bin = bin.path >>= λ path. stmt_for ppol.entries ppol.stmt path
