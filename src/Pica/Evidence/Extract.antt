-- ===== src/Pica/Evidence/Extract.antt =====
-- `unpack_sercbor`, `extract_tpm2evidence_bundle` and `extract_tpm2evidence` of src/libpica_clnt.c.
-- `none` stands for an access outside of a buffer or of an item of the wrong kind.
use portable_tls_ra.Base.{
  ℕ, Bool, Option, none, some, List, [], ◌∷◌, ◌++◌, Str, strncmp_eq, length, drop, ltb, ◌==◌,
  if◌then◌else◌, ◌>>=◌, bit_or,
}
use portable_tls_ra.Pica.Evidence.Types.{
  CborItem, cbor_uint, cbor_bytestring, cbor_string, cbor_other, CborDoc, cbor_array, cbor_map,
  cbor_item, External, Evidence, TpmtSignature, extract_tpm2_qute, extract_tpm2_sign,
  extract_tpm2_aphash,
}

-- "quote"
abbrev pub key_quote : Str
key_quote = 113 ∷ 117 ∷ 111 ∷ 116 ∷ 101 ∷ []

-- "sign"
abbrev pub key_sign : Str
key_sign = 115 ∷ 105 ∷ 103 ∷ 110 ∷ []

-- "app-hash"
abbrev pub key_app_hash : Str
key_app_hash = 97 ∷ 112 ∷ 112 ∷ 45 ∷ 104 ∷ 97 ∷ 115 ∷ 104 ∷ []

-- "tpm2_quote"
abbrev pub key_tpm2_quote : Str
key_tpm2_quote = 116 ∷ 112 ∷ 109 ∷ 50 ∷ 95 ∷ 113 ∷ 117 ∷ 111 ∷ 116 ∷ 101 ∷ []

-- "pica"
abbrev pub key_pica : Str
key_pica = 112 ∷ 105 ∷ 99 ∷ 97 ∷ []

-- `!strncmp(lit, cp, clen)`
unfoldable pub is_key : Str → List ℕ → Bool
is_key lit key = strncmp_eq lit (length key) key

-- `cbor_bytestring_handle` with `cbor_bytestring_length`.
unfoldable pub bytestring_of : CborItem → Option (List ℕ)
bytestring_of (cbor_bytestring bytes) = some bytes
bytestring_of (cbor_uint n) = none
bytestring_of (cbor_string s) = none
bytestring_of cbor_other = none

-- `memcpy(apphash, body, bsz)` into an array of 32 bytes.
unfoldable pub copy_apphash : List ℕ → List ℕ → Option (List ℕ)
copy_apphash body apphash =
    if ltb 32 (length body) then none else some (body ++ drop (length body) apphash)

-- `*quote = malloc(s_siz); memcpy(...)`
abbrev pub with_quote : List ℕ → Evidence → Evidence
with_quote body s = record {
  quote = some body;
  apphash = s.apphash;
  tpm_sig = s.tpm_sig;
  picabody = s.picabody;
}

abbrev pub with_sign : TpmtSignature → Evidence → Evidence
with_sign tpm_sig s = record {
  quote = s.quote;
  apphash = s.apphash;
  tpm_sig = tpm_sig;
  picabody = s.picabody;
}

abbrev pub with_apphash : List ℕ → Evidence → Evidence
with_apphash apphash s = record {
  quote = s.quote;
  apphash = apphash;
  tpm_sig = s.tpm_sig;
  picabody = s.picabody;
}

abbrev pub with_picabody : List ℕ → Evidence → Evidence
with_picabody body s = record {
  quote = s.quote;
  apphash = s.apphash;
  tpm_sig = s.tpm_sig;
  picabody = some body;
}

module _ {Key : Type 0} (ext : External Key) where
  -- The inner `none` is the NULL that is returned for an item that holds no document.
  unfoldable pub unpack_sercbor : CborItem → Option CborDoc
  unpack_sercbor (cbor_bytestring bytes) = ext.cbor_load bytes
  unpack_sercbor (cbor_uint n) = none
  unpack_sercbor (cbor_string s) = none
  unpack_sercbor cbor_other = none

  -- One entry of the bundle: what it changes, and its flag. The inner `none` is the jump to `err_ext`.
  unfoldable pub bundle_entry : List ℕ → CborItem → Evidence → Option (Option (Evidence × ℕ))
  unfolding is_key bytestring_of copy_apphash
  bundle_entry key val s =
      if is_key key_quote key
      then (bytestring_of val >>= λ body. some (some (with_quote body s, extract_tpm2_qute)))
      else if is_key key_sign key
      then (bytestring_of val >>= λ body.
          some (some (with_sign (ext.signature_unmarshal body s.tpm_sig) s, extract_tpm2_sign)))
      else if is_key key_app_hash key
      then (bytestring_of val >>= λ body. copy_apphash body s.apphash >>= λ apphash.
          some (some (with_apphash apphash s, extract_tpm2_aphash)))
      else some none

  -- The loop over the bundle.
  unfoldable pub bundle_from : List (CborItem × CborItem) → Evidence → ℕ → Option (Evidence × ℕ)
  bundle_from [] s rc = some (s, rc)
  bundle_from ((cbor_string key, val) ∷ cpair) s rc = bundle_entry key val s >>= λ r. elim r [
    | none ↦ some (s, 0)
    | some e ↦ bundle_from cpair e.0 (bit_or rc e.1)
  ]
  bundle_from ((cbor_uint n, val) ∷ cpair) s rc = some (s, 0)
  bundle_from ((cbor_bytestring b, val) ∷ cpair) s rc = some (s, 0)
  bundle_from ((cbor_other, val) ∷ cpair) s rc = some (s, 0)

  unfoldable pub extract_tpm2evidence_bundle : CborItem → Evidence → Option (Evidence × ℕ)
  unfolding unpack_sercbor bundle_from
  extract_tpm2evidence_bundle item s = elim (unpack_sercbor item) [
    | some (cbor_map cpair) ↦ bundle_from cpair s 0
    | some (cbor_array items) ↦ some (s, 0)
    | some (cbor_item i) ↦ some (s, 0)
    | none ↦ some (s, 0)
  ]

  -- One entry of the whole evidence, with the flags it adds.
  unfoldable pub evidence_entry : CborItem → CborItem → Evidence → Option (Evidence × ℕ)
  unfolding is_key bytestring_of
  evidence_entry (cbor_string key) val s =
      if is_key key_tpm2_quote key
      then extract_tpm2evidence_bundle val s
      else if is_key key_pica key
      then (bytestring_of val >>= λ body. some (with_picabody body s, 0))
      else some (s, 0)
  evidence_entry (cbor_uint n) val s = some (s, 0)
  evidence_entry (cbor_bytestring b) val s = some (s, 0)
  evidence_entry cbor_other val s = some (s, 0)

  unfoldable pub evidence_from : List (CborItem × CborItem) → Evidence → ℕ → Option (Evidence × ℕ)
  evidence_from [] s rc = some (s, rc)
  evidence_from ((key, val) ∷ cpair) s rc =
      evidence_entry key val s >>= λ e. evidence_from cpair e.0 (bit_or rc e.1)

  unfoldable pub extract_tpm2evidence : List ℕ → Evidence → Option (Evidence × ℕ)
  unfolding evidence_from
  extract_tpm2evidence measure s = elim (ext.cbor_load measure) [
    | some (cbor_map cpair) ↦ if length cpair == 2 then evidence_from cpair s 0 else some (s, 0)
    | some (cbor_array items) ↦ some (s, 0)
    | some (cbor_item i) ↦ some (s, 0)
    | none ↦ some (s, 0)
  ]
