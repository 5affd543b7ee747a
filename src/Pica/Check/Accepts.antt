-- ===== src/Pica/Check/Accepts.antt =====
-- When the checks against a policy statement accept.
use mathlib.Core.List.{Memᴰ}
use portable_tls_ra.Base.{
  ℕ, zero, suc, ◌≡◌, ◌≢◌, refl, sym, ◌∙◌, Bool, true, false, Option, none, some, List, [], ◌∷◌,
  ◌++◌, Str, map, bytes_eq, bytes_eq_iff, take, All, arith, Option-cases, Bool-cases, inl, inr, ap,
  ◌⊎◌, ◌==◌, ==_iff,
}
use portable_tls_ra.Pica.Types.{
  Procinfo, InvArray, PicaStmt, PicaPolicy, verify_pica_chain, verify_pica_uids,
}
use portable_tls_ra.Pica.Check.Defs.{
  chain_matches, ichain_from, pica_check_ichain, match_uid, uids_from, pica_check_uids, stmt_for,
  pica_find_policy,
}

-- The chain begins with the paths of the measured processes.
abbrev pub IsMatch : ℕ → List Procinfo → List (Option Str) → Type 0
IsMatch n pinfo chain = map (λ (p : Procinfo). p.path) (take n pinfo) ≡ take n chain

chain_matches_cases :
    (n : ℕ) (pinfo : List Procinfo) (chain : List (Option Str)) (b : Bool)
    → chain_matches n pinfo chain ≡ some b
    → (IsMatch n pinfo chain × (b ≡ true)) ⊎ ((¬ IsMatch n pinfo chain) × (b ≡ false))
unfolding chain_matches
chain_matches_cases zero pinfo chain b h = inl (refl, cc)
chain_matches_cases (suc n) [] chain b h = cc
chain_matches_cases (suc n) (p ∷ pinfo) [] b h = absurd (ground arith)
chain_matches_cases (suc n) (p ∷ pinfo) (c ∷ chain) b h = elim (Option-cases p.path) [
  | inl e ↦ absurd (ground arith)
  | inr (s, e) ↦ elim (Option-cases c) [
    | inl e' ↦ absurd (ground arith)
    | inr (t, e') ↦ elim (Bool-cases (bytes_eq s t)) [
      | inr other ↦ inr (λ m. ground (arith, bytes_eq_iff s t), ground arith)
      | inl same ↦
          let equal = (bytes_eq_iff s t).0 same in
          let rest : chain_matches n pinfo chain ≡ some b = ground arith in
          elim (chain_matches_cases n pinfo chain b rest) [
            | inl (m, r) ↦ inl (ground arith, r)
            | inr (m, r) ↦ inr (λ m'. m (ground arith), r)
          ]
    ]
  ]
]

-- Once cleared, `rc` stays 0, whatever chain ends the loop.
ichain_from-zero :
    (n : ℕ) (arrays : List InvArray) (pinfo : List Procinfo) (ent rc : ℕ)
    → ichain_from 0 n arrays pinfo ent ≡ some rc
    → rc ≡ 0
unfolding ichain_from
ichain_from-zero zero arrays pinfo ent rc h = ground arith
ichain_from-zero (suc n) [] pinfo ent rc h = cc
ichain_from-zero (suc n) (a ∷ arrays) pinfo ent rc h =
    ground (arith, ichain_from-zero n arrays pinfo ent rc)

-- Of a statement with invocation chains only the first one can be accepted: a result that is not a
-- fault is VERIFY_PICA_CHAIN if the first chain begins with the paths of the measured processes, and
-- 0 if it does not, whatever the other chains hold.
pub pica_check_ichain-first :
    (s : PicaStmt) (a : InvArray) (arrays : List InvArray) (n : ℕ) (pinfo : List Procinfo)
    (ent rc : ℕ)
    → s.ary_cnt ≡ suc n
    → s.iarray ≡ a ∷ arrays
    → pica_check_ichain s pinfo ent ≡ some rc
    → (IsMatch ent pinfo a.ichain × (rc ≡ verify_pica_chain))
      ⊎ ((¬ IsMatch ent pinfo a.ichain) × (rc ≡ 0))
unfolding pica_check_ichain
pica_check_ichain-first s a arrays n pinfo ent rc cnt arr h =
    elim (Option-cases (chain_matches ent pinfo a.ichain)) [
      | inl fault ↦ absurd (ground arith)
      | inr (b, r) ↦ elim (chain_matches_cases ent pinfo a.ichain b r) [
        | inl (m, is) ↦ inl (m, ground arith)
        | inr (m, is) ↦ inr (m, ground (arith, ichain_from-zero n arrays pinfo ent rc))
      ]
    ]

-- A statement with no invocation chain accepts every process chain.
pub pica_check_ichain_no_chain :
    (s : PicaStmt) (pinfo : List Procinfo) (ent : ℕ)
    → s.ary_cnt ≡ 0
    → pica_check_ichain s pinfo ent ≡ some verify_pica_chain
unfolding pica_check_ichain
pica_check_ichain_no_chain s pinfo ent h = ground arith

-- The array holds `n` items.
abbrev pub HasItems {ℓ} : {A : Type ℓ} → ℕ → List A → Type 0
HasItems zero xs = Unit {0}
HasItems (suc n) [] = ⊥
HasItems (suc n) (x ∷ xs) = HasItems n xs

Memᴰ_cons : {a x : ℕ} {l : List ℕ} → Memᴰ a (x ∷ l) → (a ≡ x) ⊎ Memᴰ a l
Memᴰ_cons (Memᴰ.head e) = inl e
Memᴰ_cons (Memᴰ.tail m) = inr m

match_uid_cases :
    (ids : List ℕ) (n id : ℕ)
    → HasItems n ids
    → (Memᴰ id (take n ids) × (match_uid ids n id ≡ some true))
      ⊎ ((¬ Memᴰ id (take n ids)) × (match_uid ids n id ≡ some false))
unfolding match_uid
match_uid_cases ids zero id ok = inr (λ m. elim m [ ], refl)
match_uid_cases [] (suc n) id ok = absurd ok
match_uid_cases (i ∷ ids) (suc n) id ok = elim (Bool-cases (i == id)) [
  | inl same ↦ inl (Memᴰ.head (sym ((==_iff i id).0 same)), ground arith)
  | inr other ↦ elim (match_uid_cases ids n id ok) [
    | inl (m, r) ↦ inl (Memᴰ.tail m, ground arith)
    | inr (m, r) ↦ inr (
      λ found. elim (Memᴰ_cons found) [ inl e ↦ ground arith | inr later ↦ m later ],
      ground arith,
    )
  ]
]

-- `n` processes can be read, and each of them runs under one of the identifiers.
abbrev pub RunsAs : List ℕ → ℕ → List Procinfo → Type 0
RunsAs uids n pinfo = All (λ p. Memᴰ p.ruid uids) (take n pinfo)

uids_cases :
    (uids : List ℕ) (count : ℕ)
    → HasItems count uids
    → (n : ℕ) (pinfo : List Procinfo) → HasItems n pinfo
    → (RunsAs (take count uids) n pinfo × (uids_from n pinfo uids count ≡ some verify_pica_uids))
      ⊎ ((¬ RunsAs (take count uids) n pinfo) × (uids_from n pinfo uids count ≡ some 0))
unfolding uids_from
uids_cases uids count ok zero pinfo has = inl (tt, refl)
uids_cases uids count ok (suc n) [] has = absurd has
uids_cases uids count ok (suc n) (p ∷ pinfo) has = elim (match_uid_cases uids count p.ruid ok) [
  | inr (m, r) ↦ inr (λ all. m all.0, ground arith)
  | inl (m, r) ↦ elim (uids_cases uids count ok n pinfo has) [
    | inl (all, e) ↦ inl ((m, all), ground arith)
    | inr (all, e) ↦ inr (λ all'. all all'.1, ground arith)
  ]
]

-- `pica_check_uids` returns VERIFY_PICA_UIDS if the real user of every process of the chain is in
-- the statement's list, and 0 if one is not; on arrays of the stated sizes it does not fault.
pub pica_check_uids_lem :
    (s : PicaStmt) (pinfo : List Procinfo) (ent : ℕ)
    → HasItems s.uid_cnt s.uid
    → HasItems ent pinfo
    → (RunsAs (take s.uid_cnt s.uid) ent pinfo
        × (pica_check_uids s pinfo ent ≡ some verify_pica_uids))
      ⊎ ((¬ RunsAs (take s.uid_cnt s.uid) ent pinfo) × (pica_check_uids s pinfo ent ≡ some 0))
unfolding pica_check_uids
pica_check_uids_lem s pinfo ent ok has = uids_cases s.uid s.uid_cnt ok ent pinfo has

-- The first `n` statements can be read, and each names an executable.
abbrev pub HasExecs : ℕ → List PicaStmt → Type 0
HasExecs zero stmts = Unit {0}
HasExecs (suc n) [] = ⊥
HasExecs (suc n) (s ∷ stmts) = (s.exec_path ≢ none) × HasExecs n stmts

-- The statements split at the first one for the path, if there is one.
abbrev pub FirstFor : Str → List PicaStmt → Option PicaStmt → Type 0
FirstFor path stmts none = All (λ t. t.exec_path ≢ some path) stmts
FirstFor path stmts (some s) =
    (before after : List PicaStmt) × (stmts ≡ before ++ s ∷ after)
    × (s.exec_path ≡ some path)
    × All (λ t. t.exec_path ≢ some path) before

FirstFor-cons :
    (path : Str) (s : PicaStmt) (stmts : List PicaStmt) (found : Option PicaStmt)
    → s.exec_path ≢ some path
    → FirstFor path stmts found
    → FirstFor path (s ∷ stmts) found
FirstFor-cons path s stmts none differs first = (differs, first)
FirstFor-cons path s stmts (some t) differs (before, after, split, named, all) =
    (s ∷ before, after, ap (◌∷◌ s) split, named, (differs, all))

stmt_for-FirstFor :
    (path : Str) (n : ℕ) (stmts : List PicaStmt)
    → HasExecs n stmts
    → (found : Option PicaStmt) × (stmt_for n stmts path ≡ some found)
      × FirstFor path (take n stmts) found
unfolding stmt_for
stmt_for-FirstFor path zero stmts ok = (none, refl, tt)
stmt_for-FirstFor path (suc n) [] ok = absurd ok
stmt_for-FirstFor path (suc n) (s ∷ stmts) ok = elim (Option-cases s.exec_path) [
  | inl e ↦ absurd (ok.0 e)
  | inr (exec, e) ↦ elim (Bool-cases (bytes_eq exec path)) [
    | inl same ↦
        let equal = (bytes_eq_iff exec path).0 same in
        (some s, simp (e, same), ([], take n stmts, refl, e ∙ ap some equal, tt))
    | inr other ↦
        let differs : s.exec_path ≢ some path = λ h. ground (arith, bytes_eq_iff exec path) in
        let rest = stmt_for-FirstFor path n stmts ok.1 in
        (rest.0, simp (e, other) rest.1, FirstFor-cons path s (take n stmts) rest.0 differs rest.2)
  ]
]

-- `pica_find_policy` returns the first statement whose executable has the path of the process, and
-- NULL only if no statement has it; it does not fault when the process and the statements have paths.
pub pica_find_policy-FirstFor :
    (ppol : PicaPolicy) (bin : Procinfo) (path : Str)
    → bin.path ≡ some path
    → HasExecs ppol.entries ppol.stmt
    → (found : Option PicaStmt) × (pica_find_policy ppol bin ≡ some found)
      × FirstFor path (take ppol.entries ppol.stmt) found
unfolding pica_find_policy
pica_find_policy-FirstFor ppol bin path e ok =
    let found = stmt_for-FirstFor path ppol.entries ppol.stmt ok in
    (found.0, simp e found.1, found.2)
