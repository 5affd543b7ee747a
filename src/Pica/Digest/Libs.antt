-- ===== src/Pica/Digest/Libs.antt =====
-- The two loops over shared libraries against a statement on all pairs of libraries.
use portable_tls_ra.Base.{
  ℕ, zero, suc, ◌≡◌, ◌≢◌, refl, sym, ◌∙◌, true, none, some, List, [], ◌∷◌, ◌↔◌, bytes_eq,
  bytes_eq_iff, memcmp_eq, take, All, arith, Option-cases, Bool-cases, inl, inr, ap,
}
use portable_tls_ra.Pica.Types.{Fdigest}
use portable_tls_ra.Pica.Digest.Defs.{lib_matches, libs_match}

-- The array holds `n` libraries, and each has a path.
abbrev pub IsReadable : ℕ → List Fdigest → Type 0
IsReadable zero fs = Unit {0}
IsReadable (suc n) [] = ⊥
IsReadable (suc n) (f ∷ fs) = (f.path ≢ none) × IsReadable n fs

-- Two libraries of one name have one digest.
abbrev pub Agrees : Fdigest → Fdigest → Type 0
Agrees f r = f.path ≡ r.path → take 32 f.digest ≡ take 32 r.digest

-- No two libraries have one name.
abbrev pub IsApart : List Fdigest → Type 0
IsApart [] = Unit {0}
IsApart (r ∷ rs) = All (λ s. r.path ≢ s.path) rs × IsApart rs

pub memcmp_eq_iff : (n : ℕ) (a b : List ℕ) → (memcmp_eq n a b ≡ true) ↔ (take n a ≡ take n b)
unfolding memcmp_eq
memcmp_eq_iff n a b = bytes_eq_iff (take n a) (take n b)

-- The inner loop does not fault.
pub lib_matches-ne-none :
    (f : Fdigest) (n : ℕ) (regs : List Fdigest)
    → f.path ≢ none
    → IsReadable n regs
    → lib_matches f n regs ≢ none
unfolding lib_matches
lib_matches-ne-none f zero regs named ok = λ e. cc
lib_matches-ne-none f (suc n) [] named ok = absurd ok
lib_matches-ne-none f (suc n) (r ∷ regs) named ok = ground (arith, lib_matches-ne-none f n regs)

Agrees-apart :
    (f r : Fdigest) (rs : List Fdigest)
    → f.path ≡ r.path
    → All (λ s. r.path ≢ s.path) rs
    → All (Agrees f) rs
Agrees-apart f r [] e h = tt
Agrees-apart f r (s ∷ rs) e h = (λ e'. absurd (h.0 (sym e ∙ e')), Agrees-apart f r rs e h.1)

lib_matches_sound :
    (f : Fdigest) (n : ℕ) (regs : List Fdigest)
    → IsApart (take n regs)
    → lib_matches f n regs ≡ some true
    → All (Agrees f) (take n regs)
unfolding lib_matches
lib_matches_sound f zero regs apart h = tt
lib_matches_sound f (suc n) [] apart h = tt
lib_matches_sound f (suc n) (r ∷ regs) apart h = elim (Option-cases f.path) [
  | inl e ↦ absurd (ground arith)
  | inr (a, e) ↦ elim (Option-cases r.path) [
    | inl e' ↦ absurd (ground arith)
    | inr (b, e') ↦ elim (Bool-cases (bytes_eq a b)) [
      | inl same ↦
          let equal = (bytes_eq_iff a b).0 same in
          let digests : memcmp_eq 32 f.digest r.digest ≡ true = ground arith in
          (
            λ _. (memcmp_eq_iff 32 f.digest r.digest).0 digests,
            Agrees-apart f r (take n regs) (e ∙ ap some equal ∙ sym e') apart.0,
          )
      | inr other ↦
          let rest : lib_matches f n regs ≡ some true = ground arith in
          (λ p. absurd (ground (arith, bytes_eq_iff a b)), lib_matches_sound f n regs apart.1 rest)
    ]
  ]
]

lib_matches_complete :
    (f : Fdigest) (n : ℕ) (regs : List Fdigest)
    → f.path ≢ none
    → IsReadable n regs
    → All (Agrees f) (take n regs)
    → lib_matches f n regs ≡ some true
unfolding lib_matches
lib_matches_complete f zero regs named ok h = refl
lib_matches_complete f (suc n) [] named ok h = absurd ok
lib_matches_complete f (suc n) (r ∷ regs) named ok h = elim (Option-cases f.path) [
  | inl e ↦ absurd (named e)
  | inr (a, e) ↦ elim (Option-cases r.path) [
    | inl e' ↦ absurd (ok.0 e')
    | inr (b, e') ↦ elim (Bool-cases (bytes_eq a b)) [
      | inl same ↦
          let equal = (bytes_eq_iff a b).0 same in
          let digests = (memcmp_eq_iff 32 f.digest r.digest).1 (h.0 (e ∙ ap some equal ∙ sym e')) in
          ground arith
      | inr other ↦ ground (arith, lib_matches_complete f n regs named ok.1 h.1)
    ]
  ]
]

-- The inner loop accepts a library exactly when it agrees with all the registered ones, whose names
-- differ.
pub lib_matches_iff :
    (f : Fdigest) (n : ℕ) (regs : List Fdigest)
    → f.path ≢ none
    → IsReadable n regs
    → IsApart (take n regs)
    → (lib_matches f n regs ≡ some true) ↔ All (Agrees f) (take n regs)
lib_matches_iff f n regs named ok apart =
    (lib_matches_sound f n regs apart, lib_matches_complete f n regs named ok)

module _ (cnt : ℕ) (regs : List Fdigest) (ok : IsReadable cnt regs) where
  pub libs_match-ne-none :
      (n : ℕ) (fresh : List Fdigest) → IsReadable n fresh → libs_match n fresh cnt regs ≢ none
  unfolding libs_match
  libs_match-ne-none zero fresh h = λ e. cc
  libs_match-ne-none (suc n) [] h = absurd h
  libs_match-ne-none (suc n) (f ∷ fresh) h =
      ground (arith, libs_match-ne-none n fresh, lib_matches-ne-none f cnt regs h.0 ok)

  libs_match_sound :
      (n : ℕ) (fresh : List Fdigest)
      → IsReadable n fresh
      → IsApart (take cnt regs)
      → libs_match n fresh cnt regs ≡ some true
      → All (λ f. All (Agrees f) (take cnt regs)) (take n fresh)
  unfolding libs_match
  libs_match_sound zero fresh h apart e = tt
  libs_match_sound (suc n) [] h apart e = tt
  libs_match_sound (suc n) (f ∷ fresh) h apart e =
      let this : lib_matches f cnt regs ≡ some true = ground arith in
      let rest : libs_match n fresh cnt regs ≡ some true = ground arith in
      ((lib_matches_iff f cnt regs h.0 ok apart).0 this, libs_match_sound n fresh h.1 apart rest)

  pub libs_match_complete :
      (n : ℕ) (fresh : List Fdigest)
      → IsReadable n fresh
      → All (λ f. All (Agrees f) (take cnt regs)) (take n fresh)
      → libs_match n fresh cnt regs ≡ some true
  unfolding libs_match
  libs_match_complete zero fresh h all = refl
  libs_match_complete (suc n) [] h all = absurd h
  libs_match_complete (suc n) (f ∷ fresh) h all =
      ground
        (arith, lib_matches_complete f cnt regs h.0 ok all.0, libs_match_complete n fresh h.1 all.1)

  pub libs_match_iff :
      (n : ℕ) (fresh : List Fdigest)
      → IsReadable n fresh
      → IsApart (take cnt regs)
      → (libs_match n fresh cnt regs ≡ some true)
        ↔ All (λ f. All (Agrees f) (take cnt regs)) (take n fresh)
  libs_match_iff n fresh h apart = (libs_match_sound n fresh h apart, libs_match_complete n fresh h)
