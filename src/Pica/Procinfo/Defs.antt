-- ===== src/Pica/Procinfo/Defs.antt =====
-- `mycbor_get_int`, `mycbor_get_string`, `mycbor_copy_bstring`, `extract_procinfo` and `pica_extract_pinfo` of
-- src/libpica_clnt.c. `none` stands for a read past the entries of a map or through NULL.
use portable_tls_ra.Base.{
  ℕ, ◌-◌, ◌%◌, ◌^◌, Option, none, some, List, [], ◌∷◌, Str, length, drop, map, get_elem?, replicate,
  ◌==◌, if◌then◌else◌, ◌>>=◌,
}
use portable_tls_ra.Pica.Types.{Fdigest, Procinfo}
use portable_tls_ra.Pica.Evidence.Types.{
  CborItem, cbor_uint, cbor_bytestring, cbor_string, cbor_other, CborDoc, cbor_array, cbor_map,
  cbor_item, External,
}
use portable_tls_ra.Pica.Evidence.Extract.{unpack_sercbor}

-- The bytes of a C string before its NUL, which `strncpy` copies.
unfoldable pub c_string : List ℕ → Str
c_string [] = []
c_string (b ∷ bs) = if b == 0 then [] else b ∷ c_string bs

-- The result is a 64-bit word, -1 for an item that is no integer.
unfoldable pub mycbor_get_int : CborItem → ℕ
mycbor_get_int (cbor_uint n) = n
mycbor_get_int (cbor_bytestring b) = 2 ^ 64 - 1
mycbor_get_int (cbor_string s) = 2 ^ 64 - 1
mycbor_get_int cbor_other = 2 ^ 64 - 1

-- NULL for an item that is no text string.
unfoldable pub mycbor_get_string : CborItem → Option Str
unfolding c_string
mycbor_get_string (cbor_string s) = some (c_string s)
mycbor_get_string (cbor_uint n) = none
mycbor_get_string (cbor_bytestring b) = none
mycbor_get_string cbor_other = none

-- What the buffer `out` holds after the call; it is left alone on an error, which no caller looks at.
unfoldable pub mycbor_copy_bstring : List ℕ → CborItem → ℕ → List ℕ
mycbor_copy_bstring out (cbor_bytestring b) size = if length b == size then b else out
mycbor_copy_bstring out (cbor_uint n) size = out
mycbor_copy_bstring out (cbor_string s) size = out
mycbor_copy_bstring out cbor_other size = out

-- An identifier as the 32-bit field in which the word is stored.
unfoldable pub id_field : CborItem → ℕ
unfolding mycbor_get_int
id_field val = mycbor_get_int val % 2 ^ 32

-- The digest of a library is stored into memory from `malloc`, which holds `heap`.
unfoldable pub extract_lib : List ℕ → CborItem × CborItem → Fdigest
extract_lib heap pair = record {
  path = mycbor_get_string pair.0;
  digest = mycbor_copy_bstring heap pair.1 32;
}

-- One round of the loop of `extract_procinfo`, for the pairs of the process's map: the first ten
-- values by their positions, and the others as libraries.
unfoldable pub extract_proc : List ℕ → List (CborItem × CborItem) → Option Procinfo
unfolding id_field extract_lib
extract_proc heap cpair = get_elem? cpair 0 >>= λ p0. get_elem? cpair 1 >>= λ p1.
    get_elem? cpair 2 >>= λ p2. get_elem? cpair 3 >>= λ p3. get_elem? cpair 4 >>= λ p4.
    get_elem? cpair 5 >>= λ p5. get_elem? cpair 6 >>= λ p6. get_elem? cpair 7 >>= λ p7.
    get_elem? cpair 8 >>= λ p8. get_elem? cpair 9 >>= λ p9. some (record {
      pid = id_field p0.1;
      ppid = id_field p1.1;
      ruid = id_field p2.1;
      rgid = id_field p3.1;
      euid = id_field p4.1;
      egid = id_field p5.1;
      suid = id_field p6.1;
      sgid = id_field p7.1;
      path = mycbor_get_string p8.1;
      digest = mycbor_copy_bstring (replicate 32 0) p9.1 32;
      count = length cpair - 10;
      libs = map (extract_lib heap) (drop 10 cpair);
    })

module _ {Key : Type 0} (ext : External Key) (heap : List ℕ) where
  -- The loop over the items of the array; a NULL document and one that is no map are read as a map.
  unfoldable pub extract_procs : List CborItem → Option (List Procinfo)
  unfolding extract_proc unpack_sercbor
  extract_procs [] = some []
  extract_procs (item ∷ items) =
      let rest = extract_procs items in
      elim (unpack_sercbor ext item) [
        | some (cbor_map cpair) ↦ extract_proc heap cpair >>= λ p. rest >>= λ ps. some (p ∷ ps)
        | some (cbor_array a) ↦ none
        | some (cbor_item i) ↦ none
        | none ↦ none
      ]

  -- The number of entries with the processes; 0 for a document that is no array.
  unfoldable pub extract_procinfo : CborDoc → Option (ℕ × List Procinfo)
  unfolding extract_procs
  extract_procinfo (cbor_array items) = extract_procs items >>= λ ps. some (length items, ps)
  extract_procinfo (cbor_map cpair) = some (0, [])
  extract_procinfo (cbor_item i) = some (0, [])

  -- The inner `none` is the result -1, with which `*o_pinfo` stays NULL.
  unfoldable pub pica_extract_pinfo : List ℕ → Option (Option (ℕ × List Procinfo))
  unfolding extract_procinfo
  pica_extract_pinfo picabody = elim (ext.cbor_load picabody) [
    | none ↦ some none
    | some doc ↦ extract_procinfo doc >>= λ r. if r.0 == 0 then some none else some (some r)
  ]
