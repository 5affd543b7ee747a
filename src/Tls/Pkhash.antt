-- ===== src/Tls/Pkhash.antt =====
-- The entry for the hash of a public key: make_cbor_pkhash_entry and pem2der_sha256 of
-- src/libtpm2.c, and compare_cert_pubkey_against_cbor_claim_hash of src/libintel.c. `none` stands
-- for an item that is NULL.
use portable_tls_ra.Base.{
  ℕ, ◌≡◌, refl, Bool, true, false, ◌&&◌, Option, none, some, List, [], ◌∷◌, length, take, take_all,
  ◌==◌, if◌then◌else◌, ◌>>=◌, memcmp_eq, bytes_eq, bytes_eq_iff, arith,
}
use portable_tls_ra.Pica.Evidence.Types.{CborItem, cbor_uint, cbor_bytestring, CborDoc, cbor_array}

abbrev pub hash_alg_sha256 : ℕ
hash_alg_sha256 = 1

abbrev pub hash_alg_sha384 : ℕ
hash_alg_sha384 = 7

abbrev pub hash_alg_sha512 : ℕ
hash_alg_sha512 = 8

-- What `cbor_load` returns, with its tag if it has one. Items of indefinite length are items of another kind.
pub data Loaded : Type 0 where
  tagged : ℕ → CborDoc → Loaded
  plain : CborDoc → Loaded

-- `PEM2DER`, unless it fails, and the hashes of OpenSSL.
pub record KeyCalls : Type 0 where
  pub pem2der : List ℕ → Option (List ℕ)
  pub sha256 : List ℕ → List ℕ
  pub sha384 : List ℕ → List ℕ
  pub sha512 : List ℕ → List ℕ

-- The hash of the entry has the size of the algorithm, and is that of the key.
abbrev pub hash_matches : ℕ → List ℕ → List ℕ → Bool
hash_matches size sha hash = length hash == size && memcmp_eq size hash sha

-- Whether the result is SGX_SUCCESS.
unfoldable pub compare_cert_pubkey_against_cbor_claim_hash : KeyCalls → List ℕ → Loaded → Bool
compare_cert_pubkey_against_cbor_claim_hash keys pem entry = elim (keys.pem2der pem) [
  | none ↦ false
  | some der ↦ elim entry [
    | plain (cbor_array (cbor_uint alg ∷ cbor_bytestring hash ∷ [])) ↦
        if alg == hash_alg_sha256
        then hash_matches 32 (keys.sha256 der) hash
        else if alg == hash_alg_sha384
        then hash_matches 48 (keys.sha384 der) hash
        else if alg == hash_alg_sha512
        then hash_matches 64 (keys.sha512 der) hash
        else false
    | _ ↦ false
  ]
]

-- What the making of the entry calls: the DER form of a key that OpenSSL reads from its PEM form, SHA-256, and
-- `cbor_serialize_alloc` of an array.
pub record EntryCalls : Type 0 where
  pub public_der : List ℕ → Option (List ℕ)
  pub digest : List ℕ → List ℕ
  pub serialize_array : List CborItem → List ℕ

abbrev pub pkhash_items : List ℕ → List CborItem
pkhash_items sha = cbor_uint hash_alg_sha256 ∷ cbor_bytestring (take 32 sha) ∷ []

-- The serialised entry, unless the result is 0. The result -1 of `pem2der_sha256` is stored in a `size_t` and not noticed, so
-- that NULL is pushed.
unfoldable pub make_cbor_pkhash_entry : EntryCalls → List ℕ → Option (Option (List ℕ))
make_cbor_pkhash_entry mk pem = mk.public_der pem >>= λ der.
    let hash = mk.serialize_array (pkhash_items (mk.digest der)) in
    some (if length hash == 0 then none else some hash)

-- The entry that was made for a key is that of the key, where both decoders give the same DER form, and SHA-256 is 32 bytes.
pub compare-pkhash_items :
    (keys : KeyCalls) (mk : EntryCalls) (pem der : List ℕ)
    → keys.pem2der pem ≡ some der
    → mk.digest der ≡ keys.sha256 der
    → length (keys.sha256 der) ≡ 32
    → compare_cert_pubkey_against_cbor_claim_hash keys pem
        (plain (cbor_array (pkhash_items (mk.digest der))))
      ≡ true
unfolding compare_cert_pubkey_against_cbor_claim_hash memcmp_eq
compare-pkhash_items keys mk pem der decoded same size =
    let sha = keys.sha256 der in
    let all : take 32 sha ≡ sha = take_all 32 sha (omega (arith, size)) in
    let whole : (length sha == 32) ≡ true = ground (arith, size) in
    let equal : bytes_eq sha sha ≡ true = (bytes_eq_iff sha sha).1 refl in
    rw (compare_cert_pubkey_against_cbor_claim_hash, decoded, same, all, whole, all, equal) refl
