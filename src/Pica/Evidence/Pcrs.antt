-- ===== src/Pica/Evidence/Pcrs.antt =====
-- What the comparison of the registers of two quotes decides.
use portable_tls_ra.Base.{
  ℕ, zero, suc, ◌≤◌, ◌≡◌, ◌≢◌, refl, ◌↔◌, inl, inr, true, none, some, List, [], ◌∷◌, ◌==◌, arith,
  Bool-cases, memcmp_eq, length, take,
}
use portable_tls_ra.Pica.Digest.Libs.{memcmp_eq_iff}
use portable_tls_ra.Pica.Evidence.Types.{PcrSelection, TpmsAttest}
use portable_tls_ra.Pica.Evidence.Quote.{selections_eq, comp_pcr_selection, check_tpm2pcrs}

-- Both select the same registers of the same bank.
abbrev pub SameRegisters : PcrSelection → PcrSelection → Type 0
SameRegisters sa sb =
    (sa.hash ≡ sb.hash)
    × (sa.sizeof_select ≡ sb.sizeof_select)
    × (take sa.sizeof_select sa.pcr_select ≡ take sa.sizeof_select sb.pcr_select)

-- The first `n` selections of both lists are there, and the same.
abbrev pub SameSelections : ℕ → List PcrSelection → List PcrSelection → Type 0
SameSelections zero a b = Unit {0}
SameSelections (suc n) [] b = ⊥
SameSelections (suc n) (sa ∷ a) [] = ⊥
SameSelections (suc n) (sa ∷ a) (sb ∷ b) = SameRegisters sa sb × SameSelections n a b

selections_eq-ne-none :
    (n : ℕ) (a b : List PcrSelection) → n ≤ length a → n ≤ length b → selections_eq n a b ≢ none
unfolding selections_eq
selections_eq-ne-none zero a b ha hb = λ e. cc
selections_eq-ne-none (suc n) [] b ha hb = absurd (omega arith)
selections_eq-ne-none (suc n) (sa ∷ a) [] ha hb = absurd (omega arith)
selections_eq-ne-none (suc n) (sa ∷ a) (sb ∷ b) ha hb =
    let rest = selections_eq-ne-none n a b (omega arith) (omega arith) in λ e. ground (arith, rest)

selections_eq_sound :
    (n : ℕ) (a b : List PcrSelection) → selections_eq n a b ≡ some true → SameSelections n a b
unfolding selections_eq
selections_eq_sound zero a b e = tt
selections_eq_sound (suc n) [] b e = absurd (ground arith)
selections_eq_sound (suc n) (sa ∷ a) [] e = absurd (ground arith)
selections_eq_sound (suc n) (sa ∷ a) (sb ∷ b) e =
    let same = memcmp_eq_iff sa.sizeof_select sa.pcr_select sb.pcr_select in
    let registers : memcmp_eq sa.sizeof_select sa.pcr_select sb.pcr_select ≡ true = ground arith in
    let later : selections_eq n a b ≡ some true = ground arith in
    ((ground arith, ground arith, same.0 registers), selections_eq_sound n a b later)

selections_eq_complete :
    (n : ℕ) (a b : List PcrSelection) → SameSelections n a b → selections_eq n a b ≡ some true
unfolding selections_eq
selections_eq_complete zero a b s = refl
selections_eq_complete (suc n) [] b s = absurd s
selections_eq_complete (suc n) (sa ∷ a) [] s = absurd s
selections_eq_complete (suc n) (sa ∷ a) (sb ∷ b) s =
    let hashes = s.0.0 in
    let sizes = s.0.1 in
    let registers = (memcmp_eq_iff sa.sizeof_select sa.pcr_select sb.pcr_select).1 s.0.2 in
    let later = selections_eq_complete n a b s.1 in ground arith

module _ (tpm_atst reg_atst : TpmsAttest) where
  -- On attestations whose selection lists are as long as their counts, `check_tpm2pcrs` does not fault.
  pub check_tpm2pcrs-ne-none :
      tpm_atst.pcr_selection.count ≤ length tpm_atst.pcr_selection.pcr_selections
      → reg_atst.pcr_selection.count ≤ length reg_atst.pcr_selection.pcr_selections
      → check_tpm2pcrs tpm_atst reg_atst ≢ none
  unfolding check_tpm2pcrs comp_pcr_selection
  check_tpm2pcrs-ne-none ht hr e =
      let a = reg_atst.pcr_selection in
      let b = tpm_atst.pcr_selection in
      elim (Bool-cases (a.count == b.count)) [
        | inr n ↦ ground arith
        | inl y ↦
            let counts : a.count ≡ b.count = ground arith in
            let rest =
              selections_eq-ne-none a.count a.pcr_selections b.pcr_selections hr (omega arith) in
            ground (arith, rest)
      ]

  -- `check_tpm2pcrs` accepts exactly if both quotes select the same registers in the same order,
  -- whatever the digests of the registers' values are.
  pub check_tpm2pcrs_iff : (check_tpm2pcrs tpm_atst reg_atst ≡ some true) ↔ (
      (reg_atst.pcr_selection.count ≡ tpm_atst.pcr_selection.count)
      × SameSelections reg_atst.pcr_selection.count reg_atst.pcr_selection.pcr_selections
          tpm_atst.pcr_selection.pcr_selections)
  unfolding check_tpm2pcrs comp_pcr_selection
  check_tpm2pcrs_iff =
      let a = reg_atst.pcr_selection in
      let b = tpm_atst.pcr_selection in
      (
        (λ e.
            let counts : a.count ≡ b.count = ground arith in
            let ran : selections_eq a.count a.pcr_selections b.pcr_selections ≡ some true =
              ground arith in
            (counts, selections_eq_sound a.count a.pcr_selections b.pcr_selections ran)),
        (λ s.
            let counts = s.0 in
            let ran = selections_eq_complete a.count a.pcr_selections b.pcr_selections s.1 in
            ground arith),
      )
