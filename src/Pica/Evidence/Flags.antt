-- ===== src/Pica/Evidence/Flags.antt =====
-- The flags in which the extraction reports what it has found.
use portable_tls_ra.Base.{
  ℕ, ◌+◌, ◌≡◌, refl, ◌∙◌, subst, ap, inl, inr, Bool, true, false, ◌||◌, some, List, [], ◌∷◌, ◌==◌,
  if◌then◌else◌, bit_or, arith, Bool-cases, Option-cases, length,
}
use portable_tls_ra.Pica.Evidence.Types.{
  CborItem, cbor_uint, cbor_bytestring, cbor_string, cbor_other, cbor_array, cbor_map, cbor_item,
  External, Evidence, is_extract_tpm2_all,
}
use portable_tls_ra.Pica.Evidence.Extract.{
  bundle_entry, bundle_from, extract_tpm2evidence_bundle, evidence_entry, evidence_from,
  extract_tpm2evidence, unpack_sercbor, is_key, key_quote, key_sign, key_tpm2_quote,
}

-- The number with the flags of "quote", "sign" and "app-hash".
abbrev pub flags : Bool → Bool → Bool → ℕ
flags q s a = (if q then 1 else 0) + ((if s then 2 else 0) + (if a then 4 else 0))

-- `bit_or` of two sets of flags is their union.
pub bit_or-flags :
    (q s a q' s' a' : Bool)
    → bit_or (flags q s a) (flags q' s' a') ≡ flags (q || q') (s || s') (a || a')
bit_or-flags q s a q' s' a' = ground arith

-- The flags are complete only if all three are set.
pub is_extract_tpm2_all-flags :
    (q s a : Bool) → is_extract_tpm2_all (flags q s a) ≡ true → flags q s a ≡ 7
unfolding is_extract_tpm2_all
is_extract_tpm2_all-flags q s a h = ground arith

-- The number is a set of these flags.
abbrev pub IsFlags : ℕ → Type 0
IsFlags r = (q s a : Bool) × (r ≡ flags q s a)

IsFlags-bit_or : {r r' : ℕ} → IsFlags r → IsFlags r' → IsFlags (bit_or r r')
IsFlags-bit_or {r} {r'} (q, s, a, e) (q', s', a', e') =
    (q || q', s || s', a || a', rw (e, e') (bit_or-flags q s a q' s' a'))

zero-IsFlags : IsFlags 0
zero-IsFlags = (false, false, false, refl)

IsFlags-some :
    (s : Evidence) (rc : ℕ) (e : Evidence × ℕ) → IsFlags rc → some (s, rc) ≡ some e → IsFlags e.1
IsFlags-some s rc e ok h = (ok.0, ok.1, ok.2, ground arith)

module _ {Key : Type 0} (ext : External Key) where
  bundle_entry-IsFlags :
      (key : List ℕ) (val : CborItem) (s : Evidence) (e : Evidence × ℕ)
      → bundle_entry ext key val s ≡ some (some e)
      → IsFlags e.1
  unfolding bundle_entry
  bundle_entry-IsFlags key val s e h = elim (Bool-cases (is_key key_quote key)) [
    | inl k ↦ (true, false, false, ground arith)
    | inr k ↦ elim (Bool-cases (is_key key_sign key)) [
      | inl k' ↦ (false, true, false, ground arith)
      | inr k' ↦ (false, false, true, ground arith)
    ]
  ]

  bundle_from-IsFlags :
      (cpair : List (CborItem × CborItem)) (s : Evidence) (rc : ℕ) (e : Evidence × ℕ)
      → IsFlags rc
      → bundle_from ext cpair s rc ≡ some e
      → IsFlags e.1
  unfolding bundle_from
  bundle_from-IsFlags [] s rc e ok h = IsFlags-some s rc e ok h
  bundle_from-IsFlags ((cbor_string key, val) ∷ cpair) s rc e ok h =
      elim (Option-cases (bundle_entry ext key val s)) [
        | inl n ↦ absurd (ground arith)
        | inr (r, n) ↦ elim (Option-cases r) [
          | inl m ↦ IsFlags-some s 0 e zero-IsFlags (ground arith)
          | inr (r', m) ↦
              bundle_from-IsFlags cpair r'.0 (bit_or rc r'.1) e
                (IsFlags-bit_or ok (bundle_entry-IsFlags key val s r' (n ∙ ap some m)))
                (ground arith)
        ]
      ]
  bundle_from-IsFlags ((cbor_uint n, val) ∷ cpair) s rc e ok h = IsFlags-some s 0 e zero-IsFlags h
  bundle_from-IsFlags ((cbor_bytestring b, val) ∷ cpair) s rc e ok h =
      IsFlags-some s 0 e zero-IsFlags h
  bundle_from-IsFlags ((cbor_other, val) ∷ cpair) s rc e ok h = IsFlags-some s 0 e zero-IsFlags h

  bundle-IsFlags :
      (item : CborItem) (s : Evidence) (e : Evidence × ℕ)
      → extract_tpm2evidence_bundle ext item s ≡ some e
      → IsFlags e.1
  unfolding extract_tpm2evidence_bundle
  bundle-IsFlags item s e h = elim (Option-cases (unpack_sercbor ext item)) [
    | inl n ↦ IsFlags-some s 0 e zero-IsFlags (ground arith)
    | inr (cbor_map cpair, n) ↦ bundle_from-IsFlags cpair s 0 e zero-IsFlags (ground arith)
    | inr (cbor_array items, n) ↦ IsFlags-some s 0 e zero-IsFlags (ground arith)
    | inr (cbor_item i, n) ↦ IsFlags-some s 0 e zero-IsFlags (ground arith)
  ]

  evidence_entry-IsFlags :
      (key val : CborItem) (s : Evidence) (e : Evidence × ℕ)
      → evidence_entry ext key val s ≡ some e
      → IsFlags e.1
  unfolding evidence_entry
  evidence_entry-IsFlags (cbor_string key) val s e h =
      elim (Bool-cases (is_key key_tpm2_quote key)) [
        | inl k ↦ bundle-IsFlags val s e (ground arith)
        | inr k ↦ (false, false, false, ground arith)
      ]
  evidence_entry-IsFlags (cbor_uint n) val s e h = IsFlags-some s 0 e zero-IsFlags h
  evidence_entry-IsFlags (cbor_bytestring b) val s e h = IsFlags-some s 0 e zero-IsFlags h
  evidence_entry-IsFlags cbor_other val s e h = IsFlags-some s 0 e zero-IsFlags h

  evidence_from-IsFlags :
      (cpair : List (CborItem × CborItem)) (s : Evidence) (rc : ℕ) (e : Evidence × ℕ)
      → IsFlags rc
      → evidence_from ext cpair s rc ≡ some e
      → IsFlags e.1
  unfolding evidence_from
  evidence_from-IsFlags [] s rc e ok h = IsFlags-some s rc e ok h
  evidence_from-IsFlags ((key, val) ∷ cpair) s rc e ok h =
      elim (Option-cases (evidence_entry ext key val s)) [
        | inl n ↦ absurd (ground arith)
        | inr (r, n) ↦
            evidence_from-IsFlags cpair r.0 (bit_or rc r.1) e
              (IsFlags-bit_or ok (evidence_entry-IsFlags key val s r n)) (ground arith)
      ]

  -- Whatever the evidence is, the extraction returns a set of the three flags.
  pub extract_tpm2evidence-IsFlags :
      (measure : List ℕ) (s : Evidence) (e : Evidence × ℕ)
      → extract_tpm2evidence ext measure s ≡ some e
      → IsFlags e.1
  unfolding extract_tpm2evidence
  extract_tpm2evidence-IsFlags measure s e h = elim (Option-cases (ext.cbor_load measure)) [
    | inl n ↦ IsFlags-some s 0 e zero-IsFlags (ground arith)
    | inr (cbor_map cpair, n) ↦ elim (Bool-cases (length cpair == 2)) [
      | inl two ↦ evidence_from-IsFlags cpair s 0 e zero-IsFlags (ground arith)
      | inr other ↦ IsFlags-some s 0 e zero-IsFlags (ground arith)
    ]
    | inr (cbor_array items, n) ↦ IsFlags-some s 0 e zero-IsFlags (ground arith)
    | inr (cbor_item i, n) ↦ IsFlags-some s 0 e zero-IsFlags (ground arith)
  ]

  -- An extraction whose flags are complete returns 7.
  pub extract_tpm2evidence-seven :
      (measure : List ℕ) (s : Evidence) (e : Evidence × ℕ)
      → extract_tpm2evidence ext measure s ≡ some e
      → is_extract_tpm2_all e.1 ≡ true
      → e.1 ≡ 7
  extract_tpm2evidence-seven measure s e h all =
      let f = extract_tpm2evidence-IsFlags measure s e h in
      f.3
      ∙ is_extract_tpm2_all-flags f.0 f.1 f.2 (subst (λ r. is_extract_tpm2_all r ≡ true) f.3 all)
