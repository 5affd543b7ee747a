-- ===== src/Pica/Digest/Accepts.antt =====
-- When `pica_verify_digest` and `pica_verify_binaries` accept.
use portable_tls_ra.Base.{
  ℕ, zero, suc, ◌≡◌, ◌≢◌, refl, sym, true, false, none, some, List, [], ◌∷◌, Str, ◌↔◌, memcmp_eq,
  take, All, subst, arith, Option-cases, Bool-cases, inl, inr, ◌⊎◌, ◌==◌,
}
use portable_tls_ra.Pica.Types.{Fdigest, Procinfo, pica_ent_conf_procinfo, verify_pica_binaries}
use portable_tls_ra.Pica.Hashtable.Defs.{Slot, find_hashtable}
use portable_tls_ra.Pica.Digest.Defs.{
  libs_match, pica_verify_digest, binary_verified, binaries_from, pica_verify_binaries,
}
use portable_tls_ra.Pica.Digest.Libs.{
  IsReadable, Agrees, IsApart, memcmp_eq_iff, libs_match-ne-none, libs_match_complete,
  libs_match_iff,
}

-- The process has an array of `count` libraries, each with a path.
abbrev pub HasLibs : Procinfo → Type 0
HasLibs p = IsReadable p.count p.libs

-- As many libraries, the same digest of the executable, and no library of a registered name that
-- has another digest than the registered one.
pub record Conforms (reg fresh : Procinfo) : Type 0 where
  pub counts : reg.count ≡ fresh.count
  pub exec : take 32 reg.digest ≡ take 32 fresh.digest
  pub libs : All (λ f. All (Agrees f) (take reg.count reg.libs)) (take fresh.count fresh.libs)

-- The comparison does not fault on processes whose libraries have paths.
pub pica_verify_digest-ne-none :
    (reg fresh : Procinfo) → HasLibs reg → HasLibs fresh → pica_verify_digest reg fresh ≢ none
unfolding pica_verify_digest
pica_verify_digest-ne-none reg fresh hr hf h = elim (Bool-cases (reg.count == fresh.count)) [
  | inl e ↦
      let counts : reg.count ≡ fresh.count = ground arith in
      ground (
        arith,
        libs_match-ne-none fresh.count reg.libs (subst (λ c. IsReadable c reg.libs) counts hr)
            fresh.count fresh.libs hf,
      )
  | inr n ↦ ground arith
]

verify_digest_sound :
    (reg fresh : Procinfo)
    → HasLibs reg
    → HasLibs fresh
    → IsApart (take reg.count reg.libs)
    → pica_verify_digest reg fresh ≡ some true
    → Conforms reg fresh
unfolding pica_verify_digest
verify_digest_sound reg fresh hr hf apart h =
    let counts : reg.count ≡ fresh.count = ground arith in
    let exec : memcmp_eq 32 reg.digest fresh.digest ≡ true = ground arith in
    let ran : libs_match fresh.count fresh.libs fresh.count reg.libs ≡ some true = ground arith in
    let libs : libs_match fresh.count fresh.libs reg.count reg.libs ≡ some true =
      subst (λ c. libs_match fresh.count fresh.libs c reg.libs ≡ some true) (sym counts) ran in
    record {
      counts = counts;
      exec = (memcmp_eq_iff 32 reg.digest fresh.digest).0 exec;
      libs = (libs_match_iff reg.count reg.libs hr fresh.count fresh.libs hf apart).0 libs;
    }

pub verify_digest_complete :
    (reg fresh : Procinfo)
    → HasLibs reg
    → HasLibs fresh
    → Conforms reg fresh
    → pica_verify_digest reg fresh ≡ some true
unfolding pica_verify_digest
verify_digest_complete reg fresh hr hf c =
    let exec = (memcmp_eq_iff 32 reg.digest fresh.digest).1 c.exec in
    let libs = libs_match_complete reg.count reg.libs hr fresh.count fresh.libs hf c.libs in
    let ran : libs_match fresh.count fresh.libs fresh.count reg.libs ≡ some true =
      subst (λ n. libs_match fresh.count fresh.libs n reg.libs ≡ some true) c.counts libs in
    let counts = c.counts in ground arith

-- For processes whose libraries have paths, with no path registered twice, the comparison accepts
-- exactly when the process conforms: as many libraries, the same digest of the executable, and the
-- registered digest in every library that has a registered path.
pub pica_verify_digest_iff :
    (reg fresh : Procinfo)
    → HasLibs reg
    → HasLibs fresh
    → IsApart (take reg.count reg.libs)
    → (pica_verify_digest reg fresh ≡ some true) ↔ Conforms reg fresh
pica_verify_digest_iff reg fresh hr hf apart =
    (verify_digest_sound reg fresh hr hf apart, verify_digest_complete reg fresh hr hf)

-- No library of the list has a path that is registered.
abbrev pub IsUnknown : List Fdigest → List Fdigest → Type 0
IsUnknown regs = All (λ f. All (λ r. f.path ≢ r.path) regs)

Agrees-unknown :
    (f : Fdigest) (regs : List Fdigest) → All (λ r. f.path ≢ r.path) regs → All (Agrees f) regs
Agrees-unknown f [] h = tt
Agrees-unknown f (r ∷ regs) h = (λ e. absurd (h.0 e), Agrees-unknown f regs h.1)

Agrees-All_unknown :
    (fresh regs : List Fdigest) → IsUnknown regs fresh → All (λ f. All (Agrees f) regs) fresh
Agrees-All_unknown [] regs h = tt
Agrees-All_unknown (f ∷ fresh) regs h =
    (Agrees-unknown f regs h.0, Agrees-All_unknown fresh regs h.1)

-- A process whose executable is unchanged is accepted with any libraries whose paths are all
-- unregistered, whatever their digests, if there are as many of them as are registered.
pub pica_verify_digest_unknown :
    (reg fresh : Procinfo)
    → HasLibs reg
    → HasLibs fresh
    → reg.count ≡ fresh.count
    → take 32 reg.digest ≡ take 32 fresh.digest
    → IsUnknown (take reg.count reg.libs) (take fresh.count fresh.libs)
    → pica_verify_digest reg fresh ≡ some true
pica_verify_digest_unknown reg fresh hr hf counts exec unknown =
    verify_digest_complete reg fresh hr hf (record {
      counts = counts;
      exec = exec;
      libs = Agrees-All_unknown (take fresh.count fresh.libs) (take reg.count reg.libs) unknown;
    })

module _ (murmur : Str → ℕ → ℕ) (table : List (Slot Procinfo)) where
  -- The array holds `n` processes, and each round of the loop ends without a fault.
  abbrev pub IsChecked : ℕ → List Procinfo → Type 0
  IsChecked zero ps = Unit {0}
  IsChecked (suc n) [] = ⊥
  IsChecked (suc n) (p ∷ ps) = (binary_verified murmur table p ≢ none) × IsChecked n ps

  -- The process is found in the table, and conforms to what is found.
  abbrev pub IsVerified : Procinfo → Type 0
  IsVerified p =
      (path : Str) × (conf : Procinfo) × (p.path ≡ some path)
      × (find_hashtable murmur path pica_ent_conf_procinfo table ≡ some conf)
      × (pica_verify_digest conf p ≡ some true)

  binary_verified_sound : (p : Procinfo) → binary_verified murmur table p ≡ some true → IsVerified p
  unfolding binary_verified
  binary_verified_sound p h = elim (Option-cases p.path) [
    | inl e ↦ absurd (ground arith)
    | inr (path, e) ↦
        elim (Option-cases (find_hashtable murmur path pica_ent_conf_procinfo table)) [
          | inl n ↦ absurd (ground arith)
          | inr (conf, f) ↦ (path, conf, e, f, ground arith)
        ]
  ]

  binary_verified_complete :
      (p : Procinfo) → IsVerified p → binary_verified murmur table p ≡ some true
  unfolding binary_verified
  binary_verified_complete p (path, conf, e, f, v) = ground arith

  binaries_from-zero :
      (n : ℕ) (ps : List Procinfo) → IsChecked n ps → binaries_from murmur table 0 n ps ≡ some 0
  unfolding binaries_from
  binaries_from-zero zero ps h = refl
  binaries_from-zero (suc n) [] h = absurd h
  binaries_from-zero (suc n) (p ∷ ps) h = ground (arith, binaries_from-zero n ps h.1)

  binaries_from-cases :
      (rc n : ℕ) (ps : List Procinfo)
      → IsChecked n ps
      → (All IsVerified (take n ps) × (binaries_from murmur table rc n ps ≡ some rc))
        ⊎ ((¬ All IsVerified (take n ps)) × (binaries_from murmur table rc n ps ≡ some 0))
  unfolding binaries_from
  binaries_from-cases rc zero ps h = inl (tt, refl)
  binaries_from-cases rc (suc n) [] h = absurd h
  binaries_from-cases rc (suc n) (p ∷ ps) h = elim (Option-cases (binary_verified murmur table p)) [
    | inl e ↦ absurd (h.0 e)
    | inr (true, e) ↦ elim (binaries_from-cases rc n ps h.1) [
      | inl (all, r) ↦ inl ((binary_verified_sound p e, all), simp e r)
      | inr (none', r) ↦ inr (λ all. none' all.1, simp e r)
    ]
    | inr (false, e) ↦ inr (
      λ all. ground (arith, binary_verified_complete p all.0),
      simp e (binaries_from-zero n ps h.1),
    )
  ]

  -- If no round of the loop faults, `pica_verify_binaries` returns VERIFY_PICA_BINARIES when every
  -- process of the chain is configured under its path and accepted against that configuration, and
  -- 0 when one of them is not. For a NULL chain it returns 0.
  pub pica_verify_binaries_lem :
      (n : ℕ) (ps : List Procinfo)
      → IsChecked n ps
      → ((All IsVerified (take n ps)
            × (pica_verify_binaries murmur table (some ps) n ≡ some verify_pica_binaries))
          ⊎ ((¬ All IsVerified (take n ps))
              × (pica_verify_binaries murmur table (some ps) n ≡ some 0)))
        × (pica_verify_binaries murmur table none n ≡ some 0)
  unfolding pica_verify_binaries
  pica_verify_binaries_lem n ps h = (binaries_from-cases verify_pica_binaries n ps h, refl)
