-- ===== src/Daemon/Quotes.antt =====
-- Which registers are quoted, and what the result of a quote tells.
use portable_tls_ra.Base.{
  ℕ, ◌<◌, ◌≤◌, ◌≡◌, ◌≢◌, ◌↔◌, Option-cases, inl, inr, refl, subst, Bool, true, false, ◌&&◌, none,
  some, List, length, ltb, All, Bool-cases, arith,
}
use portable_tls_ra.Daemon.Tpm.{
  PcrSelection, pcr_select, is_selected, make_sig_scheme, Tpm2Quote, TpmCalls, make_tpm2_quote,
  max_quotesize,
}
use portable_tls_ra.Daemon.Selects.{is_listed, pcr_select_lem}

module _ {Signature : Type 0} (calls : TpmCalls Signature) where
  -- For a key that can sign, and registers below 32: where the TPM gives a quote that fits, and a signature that can be
  -- marshalled, of the user data and of the selection that `pcr_select` makes, the result is 0 with this quote and
  -- this signature, and the selection is of exactly those listed registers that are below 24.
  pub make_tpm2_quote-selected :
      (udata : List ℕ) (alg : ℕ) (pcrs : List ℕ) (before : Tpm2Quote) (scheme : ℕ)
      (sel : PcrSelection) (quoted : List ℕ) (sig : Signature) (sign : List ℕ)
      → calls.opens ≡ true
      → make_sig_scheme calls.public_area ≡ some scheme
      → All (λ pcr. pcr < 32) pcrs
      → pcr_select alg pcrs ≡ some sel
      → calls.esys_quote udata scheme sel ≡ some (quoted, sig)
      → length quoted ≤ max_quotesize
      → calls.marshal sig ≡ some sign
      → (make_tpm2_quote calls udata alg pcrs before
          ≡ some (true, record { quote = quoted; sign = sign }))
        × (sel.hash ≡ alg)
        × ((r : ℕ) → is_selected sel r ≡ (ltb r 24 && is_listed r pcrs))
  unfolding make_tpm2_quote
  make_tpm2_quote-selected udata alg pcrs before scheme sel quoted sig sign opens can_sign few
        selected quotes fits marshals =
      let (sel', selected', is_alg, bits) = pcr_select_lem alg pcrs few in
      let same : sel' ≡ sel = cc (selected, selected') in
      let room : ltb max_quotesize (length quoted) ≡ false = ground (arith, fits) in
      (
        rw (make_tpm2_quote, opens, can_sign, selected, quotes, room, marshals) refl,
        subst (λ (s : PcrSelection). s.hash ≡ alg) same is_alg,
        subst (λ s. (r : ℕ) → is_selected s r ≡ (ltb r 24 && is_listed r pcrs)) same bits,
      )

  -- The TPM can be opened, and the key can sign.
  abbrev pub IsReady : Type 0
  IsReady = (calls.opens ≡ true) × (make_sig_scheme calls.public_area ≢ none)

  -- For registers below 32, the result of make_tpm2_quote is 0 exactly if the TPM can be opened and the key can sign,
  -- whether or not the TPM then makes a quote, the quote fits and its signature can be marshalled; and if the TPM
  -- makes no quote, the structure is what it was before.
  pub make_tpm2_quote_status :
      (udata : List ℕ) (alg : ℕ) (pcrs : List ℕ) (before : Tpm2Quote)
      → All (λ pcr. pcr < 32) pcrs
      → (status : Bool) × (q : Tpm2Quote) × (make_tpm2_quote calls udata alg pcrs before
          ≡ some (status, q))
        × ((status ≡ true) ↔ IsReady)
        × (((scheme : ℕ) (sel : PcrSelection) → calls.esys_quote udata scheme sel ≡ none)
            → q ≡ before)
  unfolding make_tpm2_quote
  make_tpm2_quote_status udata alg pcrs before few =
      let (sel, selected, is_alg, bits) = pcr_select_lem alg pcrs few in
      elim (Bool-cases calls.opens) [
        | inr shut ↦ (
          false,
          before,
          rw (make_tpm2_quote, shut) refl,
          (λ e. absurd (cc e), λ o. cc (o.0, shut)),
          λ f. refl,
        )
        | inl opens ↦ elim (Option-cases (make_sig_scheme calls.public_area)) [
          | inl cannot ↦ (
            false,
            before,
            rw (make_tpm2_quote, opens, cannot) refl,
            (λ e. absurd (cc e), λ o. absurd (o.1 cannot)),
            λ f. refl,
          )
          | inr (scheme, can) ↦
              let success : (◌≡◌ {A = Bool} true true) ↔ IsReady =
                ((λ e. (opens, λ n. cc (n, can))), (λ r. refl)) in
              elim (Option-cases (calls.esys_quote udata scheme sel)) [
                | inl unquoted ↦ (
                  true,
                  before,
                  rw (make_tpm2_quote, opens, can, selected, unquoted) refl,
                  success,
                  λ f. refl,
                )
                | inr ((quoted, sig), made) ↦
                    elim (Bool-cases (ltb max_quotesize (length quoted))) [
                      | inl large ↦ (
                        true,
                        before,
                        rw (make_tpm2_quote, opens, can, selected, made, large) refl,
                        success,
                        λ f. refl,
                      )
                      | inr fits ↦ elim (Option-cases (calls.marshal sig)) [
                        | inl bad ↦ (
                          true,
                          record { quote = quoted; sign = before.sign },
                          rw (make_tpm2_quote, opens, can, selected, made, fits, bad) refl,
                          success,
                          λ f. absurd (cc (f scheme sel, made)),
                        )
                        | inr (sign, good) ↦ (
                          true,
                          record { quote = quoted; sign = sign },
                          rw (make_tpm2_quote, opens, can, selected, made, fits, good) refl,
                          success,
                          λ f. absurd (cc (f scheme sel, made)),
                        )
                      ]
                    ]
              ]
        ]
      ]
