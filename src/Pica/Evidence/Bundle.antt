-- ===== src/Pica/Evidence/Bundle.antt =====
-- The evidence as the daemon encodes it, read back by the extraction.
use portable_tls_ra.Base.{
  ℕ, ◌≤◌, ◌≡◌, refl, Bool, true, false, ◌||◌, some, List, [], ◌∷◌, ◌++◌, arith, length, drop, All,
  ltb, strncmp_eq,
}
use portable_tls_ra.Pica.Evidence.Types.{
  CborItem, cbor_bytestring, cbor_string, cbor_map, External, Evidence,
}
use portable_tls_ra.Pica.Evidence.Extract.{
  bundle_entry, bundle_from, extract_tpm2evidence_bundle, evidence_entry, evidence_from,
  extract_tpm2evidence, unpack_sercbor, copy_apphash, is_key, bytestring_of, key_quote, key_sign,
  key_app_hash, key_pica, key_tpm2_quote, with_quote, with_sign, with_apphash, with_picabody,
}
use portable_tls_ra.Pica.Evidence.Flags.{flags, bit_or-flags}

-- An entry of the bundle.
pub data BundleEntry : Type 0 where
  quote_entry : List ℕ → BundleEntry
  sign_entry : List ℕ → BundleEntry
  app_hash_entry : List ℕ → BundleEntry

abbrev pub encode_entry : BundleEntry → CborItem × CborItem
encode_entry (quote_entry b) = (cbor_string key_quote, cbor_bytestring b)
encode_entry (sign_entry b) = (cbor_string key_sign, cbor_bytestring b)
encode_entry (app_hash_entry b) = (cbor_string key_app_hash, cbor_bytestring b)

abbrev pub encode_bundle : List BundleEntry → List (CborItem × CborItem)
encode_bundle [] = []
encode_bundle (b ∷ bs) = encode_entry b ∷ encode_bundle bs

abbrev pub FitsApphash : BundleEntry → Type 0
FitsApphash (quote_entry b) = Unit {0}
FitsApphash (sign_entry b) = Unit {0}
FitsApphash (app_hash_entry b) = length b ≤ 32

abbrev pub is_quote_entry : BundleEntry → Bool
is_quote_entry (quote_entry b) = true
is_quote_entry (sign_entry b) = false
is_quote_entry (app_hash_entry b) = false

abbrev pub is_sign_entry : BundleEntry → Bool
is_sign_entry (quote_entry b) = false
is_sign_entry (sign_entry b) = true
is_sign_entry (app_hash_entry b) = false

abbrev pub is_app_hash_entry : BundleEntry → Bool
is_app_hash_entry (quote_entry b) = false
is_app_hash_entry (sign_entry b) = false
is_app_hash_entry (app_hash_entry b) = true

abbrev pub has : (BundleEntry → Bool) → List BundleEntry → Bool
has p [] = false
has p (b ∷ bs) = p b || has p bs

module _ {Key : Type 0} (ext : External Key) where
  -- What the entries say, the later ones over the earlier ones.
  abbrev pub collected : List BundleEntry → Evidence → Evidence
  collected [] s = s
  collected (quote_entry b ∷ bs) s = collected bs (with_quote b s)
  collected (sign_entry b ∷ bs) s = collected bs (with_sign (ext.signature_unmarshal b s.tpm_sig) s)
  collected (app_hash_entry b ∷ bs) s =
      collected bs (with_apphash (b ++ drop (length b) s.apphash) s)

  quote_entry_read :
      (b : List ℕ) (s : Evidence)
      → bundle_entry ext key_quote (cbor_bytestring b) s ≡ some (some (with_quote b s, 1))
  unfolding bundle_entry is_key strncmp_eq bytestring_of
  quote_entry_read b s = refl

  sign_entry_read :
      (b : List ℕ) (s : Evidence)
      → bundle_entry ext key_sign (cbor_bytestring b) s
        ≡ some (some (with_sign (ext.signature_unmarshal b s.tpm_sig) s, 2))
  unfolding bundle_entry is_key strncmp_eq bytestring_of
  sign_entry_read b s = refl

  app_hash_entry_read :
      (b : List ℕ) (s : Evidence)
      → length b ≤ 32
      → bundle_entry ext key_app_hash (cbor_bytestring b) s
        ≡ some (some (with_apphash (b ++ drop (length b) s.apphash) s, 4))
  unfolding bundle_entry is_key strncmp_eq bytestring_of copy_apphash
  app_hash_entry_read b s fits =
      let short : ltb 32 (length b) ≡ false = ground arith in rw short refl

  bundle_from_encoded :
      (bs : List BundleEntry) (s : Evidence) (q g a : Bool)
      → All FitsApphash bs
      → bundle_from ext (encode_bundle bs) s (flags q g a)
        ≡ some (
          collected bs s,
          flags
              (q || has is_quote_entry bs)
              (g || has is_sign_entry bs)
              (a || has is_app_hash_entry bs),
        )
  unfolding bundle_from
  bundle_from_encoded [] s q g a ok = ground arith
  bundle_from_encoded (quote_entry b ∷ bs) s q g a ok =
      rw (quote_entry_read b s, bit_or-flags q g a true false false)
        (ground (
          arith,
          bundle_from_encoded bs (with_quote b s) (q || true) (g || false) (a || false) ok.1,
        ))
  bundle_from_encoded (sign_entry b ∷ bs) s q g a ok =
      rw (sign_entry_read b s, bit_or-flags q g a false true false)
        (ground (
          arith,
          bundle_from_encoded bs (with_sign (ext.signature_unmarshal b s.tpm_sig) s) (q || false)
              (g || true) (a || false) ok.1,
        ))
  bundle_from_encoded (app_hash_entry b ∷ bs) s q g a ok =
      rw (app_hash_entry_read b s ok.0, bit_or-flags q g a false false true)
        (ground (
          arith,
          bundle_from_encoded bs (with_apphash (b ++ drop (length b) s.apphash) s) (q || false)
              (g || false) (a || true) ok.1,
        ))

  -- Reading the serialised bundle of any entries, in any order, gathers what they say, the later ones
  -- over the earlier ones, and returns the flags of the kinds that occur; an "app-hash" must have at
  -- most 32 bytes.
  pub bundle_roundtrip :
      (bs : List BundleEntry) (bytes : List ℕ) (s : Evidence)
      → All FitsApphash bs
      → ext.cbor_load bytes ≡ some (cbor_map (encode_bundle bs))
      → extract_tpm2evidence_bundle ext (cbor_bytestring bytes) s
        ≡ some (
          collected bs s,
          flags (has is_quote_entry bs) (has is_sign_entry bs) (has is_app_hash_entry bs),
        )
  unfolding extract_tpm2evidence_bundle unpack_sercbor
  bundle_roundtrip bs bytes s ok loads =
      ground (arith, bundle_from_encoded bs s false false false ok)

  -- The evidence that holds a bundle and the process information, in this order, where libcbor loads both as they
  -- were encoded and each "app-hash" has at most 32 bytes, which is the size of the array that it is copied to, is read back: the
  -- extraction returns the flags of the bundle's entries, and keeps their values with the information.
  pub extract_tpm2evidence_roundtrip :
      (bs : List BundleEntry) (measure bytes body : List ℕ) (s : Evidence)
      → All FitsApphash bs
      → ext.cbor_load bytes ≡ some (cbor_map (encode_bundle bs))
      → ext.cbor_load measure
        ≡ some (
            cbor_map (
              (cbor_string key_tpm2_quote, cbor_bytestring bytes)
              ∷ (cbor_string key_pica, cbor_bytestring body)
              ∷ []))
      → extract_tpm2evidence ext measure s
        ≡ some (
          with_picabody body (collected bs s),
          flags (has is_quote_entry bs) (has is_sign_entry bs) (has is_app_hash_entry bs),
        )
  unfolding extract_tpm2evidence evidence_from evidence_entry is_key strncmp_eq bytestring_of
  extract_tpm2evidence_roundtrip bs measure bytes body s ok loads whole =
      let q = has is_quote_entry bs in
      let g = has is_sign_entry bs in
      let a = has is_app_hash_entry bs in
      let none_added = bit_or-flags false false false q g a in
      let kept = bit_or-flags q g a false false false in
      ground (arith, bundle_roundtrip bs bytes s ok loads)
