-- ===== src/Pica/Poc/Effects.antt =====
-- The effect of a statement plays no part in what `main` of pica_poc decides.
use portable_tls_ra.Base.{
  ℕ, zero, suc, ◌-◌, ◌≡◌, refl, Bool, true, false, Option, none, some, List, [], ◌∷◌, Str,
  get_elem?, map, ◌==◌, if◌then◌else◌, ◌>>=◌, bit_or, Option-cases, inl, inr, arith,
}
use portable_tls_ra.Pica.Types.{Procinfo, PicaStmt, PicaPolicy}
use portable_tls_ra.Pica.Hashtable.Defs.{Slot, empty_htable, reg_procs}
use portable_tls_ra.Pica.Digest.Defs.{pica_verify_binaries}
use portable_tls_ra.Pica.Check.Defs.{pica_check_ichain, pica_check_uids, pica_find_policy, stmt_for}
use portable_tls_ra.Pica.Evidence.Types.{External, Surroundings}
use portable_tls_ra.Pica.Evidence.Verify.{body_bytes, pica_verify_tpm2all}
use portable_tls_ra.Pica.Procinfo.Defs.{pica_extract_pinfo}
use portable_tls_ra.Pica.Poc.Defs.{
  Inputs, Outcome, aborted, reg_config_of, verified, check_measured, verify_measure, attest_measure,
  pica_poc_main,
}

-- The statement with another effect, in every place where it stands.
abbrev pub with_effect : ℕ → PicaStmt → PicaStmt
with_effect e s = record s { effect = e }

abbrev pub with_effect_policy : ℕ → PicaPolicy → PicaPolicy
with_effect_policy e ppol = record ppol { stmt = map (with_effect e) ppol.stmt }

abbrev pub with_effect_input : ℕ → Inputs → Inputs
with_effect_input e inp = record inp {
  ppol = elim inp.ppol [ none ↦ none | some ppol ↦ some (with_effect_policy e ppol) ];
}

abbrev pub with_effect_outcome : ℕ → Outcome → Outcome
with_effect_outcome e aborted = aborted
with_effect_outcome e (reg_config_of body) = reg_config_of body
with_effect_outcome e (verified flags pstmt) = verified flags (with_effect e pstmt)

abbrev with_effect_found : ℕ → Option PicaStmt → Option PicaStmt
with_effect_found e none = none
with_effect_found e (some s) = some (with_effect e s)

stmt_for-with_effect :
    (e n : ℕ) (stmts : List PicaStmt) (path : Str)
    → stmt_for n (map (with_effect e) stmts) path
      ≡ (stmt_for n stmts path >>= λ f. some (with_effect_found e f))
unfolding stmt_for
stmt_for-with_effect e zero stmts path = refl
stmt_for-with_effect e (suc n) [] path = refl
stmt_for-with_effect e (suc n) (s ∷ stmts) path =
    let rest = stmt_for-with_effect e n stmts path in ground (arith, rest)

pica_find_policy-with_effect :
    (e : ℕ) (ppol : PicaPolicy) (bin : Procinfo)
    → pica_find_policy (with_effect_policy e ppol) bin
      ≡ (pica_find_policy ppol bin >>= λ f. some (with_effect_found e f))
unfolding pica_find_policy
pica_find_policy-with_effect e ppol bin = elim (Option-cases bin.path) [
  | inl h ↦ rw h refl
  | inr (path, h) ↦ rw h (stmt_for-with_effect e ppol.entries ppol.stmt path)
]

-- A function applied behind three results.
>>=-three :
    (a b c : Option ℕ) (f : ℕ → ℕ → ℕ → Outcome) (g : Outcome → Outcome)
    → (a >>= λ x. b >>= λ y. c >>= λ z. some (g (f x y z)))
      ≡ ((a >>= λ x. b >>= λ y. c >>= λ z. some (f x y z)) >>= λ o. some (g o))
>>=-three none b c f g = refl
>>=-three (some x) none c f g = refl
>>=-three (some x) (some y) none f g = refl
>>=-three (some x) (some y) (some z) f g = refl

module _ {Key : Type 0} (ext : External Key) (env : Surroundings) (murmur : Str → ℕ → ℕ)
    (e : ℕ) where
  abbrev pub relabel : Option Outcome → Option Outcome
  relabel m = m >>= λ o. some (with_effect_outcome e o)

  relabel_if :
      (b : Bool) (x x' y y' : Option Outcome)
      → x' ≡ relabel x
      → y' ≡ relabel y
      → (if b then x' else y') ≡ relabel (if b then x else y)
  relabel_if true x x' y y' ex ey = ex
  relabel_if false x x' y y' ex ey = ey

  relabel_bind :
      {A : Type 0} (m : Option A) (f f' : A → Option Outcome)
      → ((a : A) → f' a ≡ relabel (f a))
      → (m >>= f') ≡ relabel (m >>= f)
  relabel_bind none f f' ef = refl
  relabel_bind (some a) f f' ef = ef a

  check_measured-with_effect :
      (inp inp' : Inputs) (table : List (Slot Procinfo)) (ppol : PicaPolicy) (flags : ℕ)
      (fresh : ℕ × List Procinfo)
      → check_measured ext env murmur inp' table (with_effect_policy e ppol) flags fresh
        ≡ relabel (check_measured ext env murmur inp table ppol flags fresh)
  unfolding check_measured pica_check_ichain pica_check_uids
  check_measured-with_effect inp inp' table ppol flags fresh =
      elim (Option-cases (get_elem? fresh.1 (fresh.0 - 1))) [
        | inl h ↦ rw h refl
        | inr (bin, h) ↦
            let found = pica_find_policy-with_effect e ppol bin in
            rw (h, found)
              (elim (Option-cases (pica_find_policy ppol bin)) [
                | inl h1 ↦ rw h1 refl
                | inr (none, h1) ↦ rw h1 refl
                | inr (some s, h1) ↦ rw h1 (
                    >>=-three (pica_verify_binaries murmur table (some fresh.1) fresh.0)
                      (pica_check_ichain s fresh.1 fresh.0) (pica_check_uids s fresh.1 fresh.0)
                      (λ binaries chain uids.
                        verified (bit_or (bit_or (bit_or flags binaries) chain) uids) s)
                      (with_effect_outcome e))
              ])
      ]

  verify_measure-with_effect :
      (inp : Inputs) (table : List (Slot Procinfo)) (ppol : PicaPolicy) (nonce measure : List ℕ)
      → verify_measure ext env murmur
          (with_effect_input e inp)
          table
          (with_effect_policy e ppol)
          nonce
          measure
        ≡ relabel (verify_measure ext env murmur inp table ppol nonce measure)
  unfolding verify_measure
  verify_measure-with_effect inp table ppol nonce measure =
      relabel_bind (pica_verify_tpm2all ext env measure nonce) _ _ (λ r.
        relabel_bind r.1 _ _ (λ body. relabel_if inp.rflag _ _ _ _ refl (
          relabel_bind (pica_extract_pinfo ext inp.heap (body_bytes body)) _ _ (λ fresh.
            relabel_bind fresh _ _
              (λ f. check_measured-with_effect inp (with_effect_input e inp) table ppol r.0 f)))))

  attest_measure-with_effect :
      (inp : Inputs) (table : List (Slot Procinfo))
      → attest_measure ext env murmur (with_effect_input e inp) table
        ≡ relabel (attest_measure ext env murmur inp table)
  unfolding attest_measure verify_measure
  attest_measure-with_effect inp table = elim (Option-cases inp.ppol) [
    | inl h ↦ rw h refl
    | inr (ppol, h) ↦ elim (Option-cases inp.nonce) [
      | inl h1 ↦ rw (h, h1) refl
      | inr (nonce, h1) ↦ elim (Option-cases (inp.measure nonce)) [
        | inl h2 ↦ rw (h, h1, h2) refl
        | inr (measure, h2) ↦
            rw (h, h1, h2) (verify_measure-with_effect inp table ppol nonce measure)
      ]
    ]
  ]

  -- The effects of the policy's statements decide nothing: with any effect in place of all of them, such
  -- as "Deny" for "Allow", main of pica_poc ends in the same way, for the same statement and with the same
  -- flags; only the effect in the statement itself is the other one.
  pub pica_poc_main-with_effect :
      (inp : Inputs)
      → pica_poc_main ext env murmur (with_effect_input e inp)
        ≡ relabel (pica_poc_main ext env murmur inp)
  unfolding pica_poc_main
  pica_poc_main-with_effect inp =
      relabel_if inp.rflag _ _ _ _ (attest_measure-with_effect inp empty_htable) (
        relabel_if (inp.entries == 0) _ _ _ _ refl (
          relabel_bind (reg_procs murmur inp.entries inp.procinfo empty_htable) _ _
            (attest_measure-with_effect inp)))
