-- ===== src/Tests/Tpm.antt =====
-- Quotes of registers of a TPM.
use portable_tls_ra.Base.{
  ℕ, ◌≡◌, ◌↔◌, Bool, refl, true, ◌&&◌, none, some, List, [], ◌∷◌, ◌++◌, ltb, arith,
}
use portable_tls_ra.Daemon.Tpm.{
  PublicArea, Tpm2Quote, TpmCalls, make_tpm2_quote, make_sig_scheme, pcr_select, PcrSelection,
  is_selected, select_from,
}
use portable_tls_ra.Daemon.Selects.{is_listed}
use portable_tls_ra.Daemon.Quotes.{IsReady, make_tpm2_quote-selected, make_tpm2_quote_status}

-- A signing key of ECDSA.
abbrev key : PublicArea
key = record { attributes = 0x40000; key_type = 0x23; scheme = 0x18; key_hash = 0xb }

-- The quote is the user data with the bytes of the selection.
abbrev calls : TpmCalls ℕ
calls = record {
  opens = true;
  public_area = some key;
  esys_quote = λ udata scheme sel. some (udata ++ sel.pcr_bytes, 5);
  marshal = λ sig. some (sig ∷ []);
}

abbrev silent : TpmCalls ℕ
silent = record calls { esys_quote = λ udata scheme sel. none }

abbrev before : Tpm2Quote
before = record { quote = 0 ∷ []; sign = 1 ∷ [] }

abbrev pcrs : List ℕ
pcrs = 0 ∷ 1 ∷ 2 ∷ 7 ∷ 10 ∷ []

abbrev sel : PcrSelection
sel = record { hash = 0xb; sizeof_select = 3; pcr_bytes = 135 ∷ 4 ∷ 0 ∷ 0 ∷ [] }

make_tpm2_quote-selected_example :
    (make_tpm2_quote calls (9 ∷ []) 0xb pcrs before
      ≡ some (true, record { quote = 9 ∷ 135 ∷ 4 ∷ 0 ∷ 0 ∷ []; sign = 5 ∷ [] }))
    × (sel.hash ≡ 0xb)
    × ((r : ℕ) → is_selected sel r ≡ (ltb r 24 && is_listed r pcrs))
unfolding make_sig_scheme pcr_select select_from
make_tpm2_quote-selected_example =
    make_tpm2_quote-selected calls (9 ∷ []) 0xb pcrs before 0x18 sel (9 ∷ 135 ∷ 4 ∷ 0 ∷ 0 ∷ []) 5
      (5 ∷ []) refl refl
      (omega arith, (omega arith, (omega arith, (omega arith, (omega arith, tt))))) refl refl
      (omega arith) refl

make_tpm2_quote_status_example :
    (status : Bool) × (q : Tpm2Quote) × (make_tpm2_quote silent (9 ∷ []) 0xb pcrs before
      ≡ some (status, q))
    × ((status ≡ true) ↔ IsReady silent)
    × (((scheme : ℕ) (s : PcrSelection) → silent.esys_quote (9 ∷ []) scheme s ≡ none) → q ≡ before)
make_tpm2_quote_status_example =
    make_tpm2_quote_status silent (9 ∷ []) 0xb pcrs before
      (omega arith, (omega arith, (omega arith, (omega arith, (omega arith, tt)))))
