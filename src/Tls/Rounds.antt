-- ===== src/Tls/Rounds.antt =====
-- What the claims of an enclave's evidence that are read to the end hold: claims_loop for the loop
-- of src/libintel.c.
use portable_tls_ra.Base.{
  ℕ, ◌≡◌, ◌⊎◌, inl, inr, refl, ap, sym, subst, ◌∙◌, true, false, some, List, [], ◌∷◌, Str, length,
  ltb, ◌==◌, if◌then◌else◌, >>=-eq-some, All, Bool-cases, Option-cases,
}
use portable_tls_ra.Pica.Evidence.Types.{
  CborItem, cbor_uint, cbor_bytestring, cbor_string, cbor_other,
}
use portable_tls_ra.Pica.Evidence.Extract.{is_key, bytestring_of}
use portable_tls_ra.Tls.Sgx.{
  key_pubkey_hash, key_tpm2_dash_quote, key_nonce, maxsize_ser_tpm2_quote, SgxCalls, Claims,
  check_pubkey, claim_round, claims_loop,
}

bytestring_of-some : (v : CborItem) (b : List ℕ) → bytestring_of v ≡ some b → v ≡ cbor_bytestring b
unfolding bytestring_of
bytestring_of-some (cbor_bytestring b') b h = cc
bytestring_of-some (cbor_uint n) b h = cc
bytestring_of-some (cbor_string s) b h = cc
bytestring_of-some cbor_other b h = cc

-- A claim that is taken for the name holds the bytes.
abbrev pub IsClaim : Str → List ℕ → CborItem × CborItem → Type 0
IsClaim name b p =
    (key : List ℕ) × (p.0 ≡ cbor_string key) × (is_key name key ≡ true) × (p.1 ≡ cbor_bytestring b)

abbrev pub HasClaim : Str → List ℕ → List (CborItem × CborItem) → Type 0
HasClaim name b [] = ⊥
HasClaim name b (p ∷ ps) = IsClaim name b p ⊎ HasClaim name b ps

-- What is kept of the bytes of a quote.
abbrev pub kept_quote : List ℕ → List ℕ
kept_quote b = if ltb maxsize_ser_tpm2_quote (length b) then [] else b

-- A claim that is taken for "tpm2-quote" gives the quote.
abbrev pub IsQuoteClaim : List ℕ → CborItem × CborItem → Type 0
IsQuoteClaim sent p = (b : List ℕ) × IsClaim key_tpm2_dash_quote b p × (sent ≡ kept_quote b)

abbrev pub HasQuoteClaim : List ℕ → List (CborItem × CborItem) → Type 0
HasQuoteClaim sent [] = ⊥
HasQuoteClaim sent (p ∷ ps) = IsQuoteClaim sent p ⊎ HasQuoteClaim sent ps

-- The claim is not taken for "tpm2-quote".
abbrev pub IsNoQuote : CborItem × CborItem → Type 0
IsNoQuote p =
    (key : List ℕ)
    → p.0 ≡ cbor_string key
    → (is_key key_pubkey_hash key ≡ true) ⊎ (is_key key_tpm2_dash_quote key ≡ false)

-- A round that goes on: what it has compared or stored for the name and the value of the claim.
data Round (calls : SgxCalls) (pem key : List ℕ) (value : CborItem) (c c' : Claims) : Type 0 where
  for_key :
      is_key key_pubkey_hash key ≡ true
      → check_pubkey calls pem value ≡ true
      → c ≡ c'
      → Round calls pem key value c c'
  for_quote :
      (b : List ℕ)
      → is_key key_pubkey_hash key ≡ false
      → is_key key_tpm2_dash_quote key ≡ true
      → value ≡ cbor_bytestring b
      → record c { sertpm2 = kept_quote b } ≡ c'
      → Round calls pem key value c c'
  for_nonce :
      (b : List ℕ)
      → is_key key_pubkey_hash key ≡ false
      → is_key key_tpm2_dash_quote key ≡ false
      → is_key key_nonce key ≡ true
      → value ≡ cbor_bytestring b
      → record c { nonce = if length b == 32 then b else c.nonce } ≡ c'
      → Round calls pem key value c c'
  for_none :
      is_key key_pubkey_hash key ≡ false
      → is_key key_tpm2_dash_quote key ≡ false
      → c ≡ c'
      → Round calls pem key value c c'

module _ (calls : SgxCalls) (pem : List ℕ) where
  claim_round-Round :
      (key : List ℕ) (value : CborItem) (c c' : Claims)
      → claim_round calls pem (cbor_string key) value c ≡ some (some c')
      → Round calls pem key value c c'
  unfolding claim_round
  claim_round-Round key value c c' h = elim (Bool-cases (length key == 0)) [
    | inl empty ↦ let h' = rw (claim_round, empty) at h in absurd (cc h')
    | inr named ↦ elim (Bool-cases (is_key key_pubkey_hash key)) [
      | inl pubkey ↦ elim (Bool-cases (check_pubkey calls pem value)) [
        | inl ok ↦ let h' = rw (claim_round, named, pubkey, ok) at h in for_key pubkey ok (cc h')
        | inr wrong ↦ let h' = rw (claim_round, named, pubkey, wrong) at h in absurd (cc h')
      ]
      | inr no_key ↦ elim (Bool-cases (is_key key_tpm2_dash_quote key)) [
        | inl quote' ↦
            let h' = rw (claim_round, named, no_key, quote') at h in
            let (b, e, r) = >>=-eq-some (bytestring_of value) _ h' in
            for_quote b no_key quote' (bytestring_of-some value b e) (cc r)
        | inr no_quote ↦ elim (Bool-cases (is_key key_nonce key)) [
          | inl nonce' ↦
              let h' = rw (claim_round, named, no_key, no_quote, nonce') at h in
              let (b, e, r) = >>=-eq-some (bytestring_of value) _ h' in
              for_nonce b no_key no_quote nonce' (bytestring_of-some value b e) (cc r)
          | inr no_nonce ↦
              let h' = rw (claim_round, named, no_key, no_quote, no_nonce) at h in
              for_none no_key no_quote (cc h')
        ]
      ]
    ]
  ]

  -- A claim that is taken for "pubkey-hash" is that of the key.
  abbrev pub IsForKey : CborItem × CborItem → Type 0
  IsForKey p =
      (key : List ℕ)
      → p.0 ≡ cbor_string key
      → is_key key_pubkey_hash key ≡ true
      → check_pubkey calls pem p.1 ≡ true

  -- What a round leaves: a claim "pubkey-hash" agrees with the key, the nonce is from before or from
  -- the claim, and so is the quote, from before only if the claim is not taken for it.
  abbrev IsRead : CborItem × CborItem → Claims → Claims → Type 0
  IsRead p c c' =
      IsForKey p
      × ((c'.nonce ≡ c.nonce) ⊎ IsClaim key_nonce c'.nonce p)
      × (((c'.sertpm2 ≡ c.sertpm2) × IsNoQuote p) ⊎ IsQuoteClaim c'.sertpm2 p)

  other_key :
      (key : List ℕ) (value : CborItem)
      → is_key key_pubkey_hash key ≡ false
      → IsForKey (cbor_string key, value)
  other_key key value no_key key' e is =
      let same : key' ≡ key = cc e in absurd (cc (ap (is_key key_pubkey_hash) same, is, no_key))

  not_quote :
      (key : List ℕ) (value : CborItem)
      → (is_key key_pubkey_hash key ≡ true) ⊎ (is_key key_tpm2_dash_quote key ≡ false)
      → IsNoQuote (cbor_string key, value)
  not_quote key value is key' e =
      let same : key ≡ key' = cc e in
      subst (λ k. (is_key key_pubkey_hash k ≡ true) ⊎ (is_key key_tpm2_dash_quote k ≡ false)) same
        is

  Round-IsRead :
      (key : List ℕ) (value : CborItem) (c c' : Claims)
      → Round calls pem key value c c'
      → IsRead (cbor_string key, value) c c'
  Round-IsRead key value c c' (for_key pubkey ok same) = (
    λ key' e is. ok,
    inl (ap (λ d. d.nonce) (sym same)),
    inl (ap (λ d. d.sertpm2) (sym same), not_quote key value (inl pubkey)),
  )
  Round-IsRead key value c c' (for_quote b no_key quote' holds r) = (
    other_key key value no_key,
    inl (ap (λ (d : Claims). d.nonce) (sym r)),
    inr (b, (key, refl, quote', holds), ap (λ (d : Claims). d.sertpm2) (sym r)),
  )
  Round-IsRead key value c c' (for_nonce b no_key no_quote nonce' holds r) =
      let held = ap (λ (d : Claims). d.nonce) (sym r) in
      (
        other_key key value no_key,
        elim (Bool-cases (length b == 32)) [
          | inl whole ↦
              let is : c'.nonce ≡ b = held ∙ rw whole refl in
              inr (key, refl, nonce', holds ∙ ap cbor_bytestring (sym is))
          | inr part ↦ inl (held ∙ rw part refl)
        ],
        inl (ap (λ (d : Claims). d.sertpm2) (sym r), not_quote key value (inr no_quote)),
      )
  Round-IsRead key value c c' (for_none no_key no_quote same) = (
    other_key key value no_key,
    inl (ap (λ d. d.nonce) (sym same)),
    inl (ap (λ d. d.sertpm2) (sym same), not_quote key value (inr no_quote)),
  )

  claim_round-IsRead :
      (k value : CborItem) (c c' : Claims)
      → claim_round calls pem k value c ≡ some (some c')
      → IsRead (k, value) c c'
  unfolding claim_round
  claim_round-IsRead (cbor_uint n) value c c' h = cc
  claim_round-IsRead (cbor_bytestring b) value c c' h = cc
  claim_round-IsRead cbor_other value c c' h = cc
  claim_round-IsRead (cbor_string key) value c c' h =
      Round-IsRead key value c c' (claim_round-Round key value c c' h)

  pub claims_loop-IsRead :
      (pairs : List (CborItem × CborItem)) (c c' : Claims)
      → claims_loop calls pem pairs c ≡ some (some c')
      → All IsForKey pairs
        × ((c'.nonce ≡ c.nonce) ⊎ HasClaim key_nonce c'.nonce pairs)
        × (((c'.sertpm2 ≡ c.sertpm2) × All IsNoQuote pairs) ⊎ HasQuoteClaim c'.sertpm2 pairs)
  unfolding claims_loop
  claims_loop-IsRead [] c c' h =
      let same : c ≡ c' = cc h in
      (tt, inl (ap (λ d. d.nonce) (sym same)), inl (ap (λ d. d.sertpm2) (sym same), tt))
  claims_loop-IsRead ((k, value) ∷ pairs) c c' h =
      elim (Option-cases (claim_round calls pem k value c)) [
        | inl fault ↦ let h' = rw (claims_loop, fault) at h in absurd (cc h')
        | inr (r, e) ↦ elim (Option-cases r) [
          | inl error ↦ let h' = rw (claims_loop, e, error) at h in absurd (cc h')
          | inr (c1, e1) ↦
              let h' = rw (claims_loop, e, e1) at h in
              let (all, nonce_from, quote_from) = claims_loop-IsRead pairs c1 c' h' in
              let (this, nonce1, quote1) =
                claim_round-IsRead k value c c1 (e ∙ ap (λ o. some o) e1) in
              (
                (this, all),
                elim nonce_from [
                  | inr later ↦ inr (inr later)
                  | inl same ↦ elim nonce1 [
                    | inl old ↦ inl (same ∙ old)
                    | inr (key, is_string, named, holds) ↦
                        inr (inl (key, is_string, named, holds ∙ ap cbor_bytestring (sym same)))
                  ]
                ],
                elim quote_from [
                  | inr later ↦ inr (inr later)
                  | inl (same, no_later) ↦ elim quote1 [
                    | inl (old, no_quote) ↦ inl (same ∙ old, (no_quote, no_later))
                    | inr (b, is_claim, kept) ↦ inr (inl (b, is_claim, same ∙ kept))
                  ]
                ],
              )
        ]
      ]
