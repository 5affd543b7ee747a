-- ===== src/Daemon/Quote.antt =====
-- `make_tpm2_quote_with_pid` and `make_tpm2_pica` of tpm2/tpmdaemon.c. The quote of the TPM, the serialisation by
-- libcbor and the chain of the processes are parameters.
use portable_tls_ra.Base.{
  ℕ, ◌≡◌, ◌≤◌, ◌<◌, refl, Bool, true, false, not, ◌||◌, ◌&&◌, Option, none, some, List, [], ◌∷◌,
  ◌++◌, length, take, take_all, ltb, ◌==◌, if◌then◌else◌, arith,
}
use portable_tls_ra.Pica.Evidence.Types.{External, EvpCalls, CborItem}
use portable_tls_ra.Pica.Evidence.Quote.{hash_extend_sha256}
use portable_tls_ra.Pica.Evidence.Bundle.{quote_entry, sign_entry, app_hash_entry, encode_bundle}

-- `make_tpm2_quote` of a user data, with the quote and its signature; whether the quote is one of
-- the registers; and `cbor_serialize_alloc` of a map.
pub record QuoteCalls : Type 0 where
  pub make_tpm2_quote : List ℕ → Option (List ℕ × List ℕ)
  pub is_quote : List ℕ → Bool
  pub serialize : List (CborItem × CborItem) → List ℕ

module _ {Key : Type 0} (ext : External Key) (evp : EvpCalls) (calls : QuoteCalls) where
  -- `*sz`, and the bytes that are copied to the buffer of `qbsize` bytes; the size is stored even if the
  -- map does not fit. `newhash` is the array before it is set.
  unfoldable pub make_tpm2_quote_with_pid : List ℕ → List ℕ → ℕ → ℕ → List ℕ → ℕ → ℕ × List ℕ
  make_tpm2_quote_with_pid newhash nonce nsize qbsize apphash appsz =
      let extended = (hash_extend_sha256 ext evp apphash nonce newhash).1 in
      elim (calls.make_tpm2_quote (take nsize extended)) [
        | none ↦ (0, [])
        | some t_quote ↦
            if not (calls.is_quote t_quote.0)
            then (0, [])
            else (let bytes = calls.serialize (
                  encode_bundle (
                    quote_entry t_quote.0
                    ∷ sign_entry t_quote.1
                    ∷ app_hash_entry (take appsz apphash)
                    ∷ [])) in
                if length bytes == 0 || ltb qbsize (length bytes)
                then (length bytes, [])
                else (length bytes, bytes))
      ]

  -- The size and the bytes of the evidence for a serialised chain of processes.
  unfoldable pub make_tpm2_pica : List ℕ → List ℕ → List ℕ → ℕ → ℕ × List ℕ
  make_tpm2_pica newhash procchain nonce sersz =
      make_tpm2_quote_with_pid newhash nonce 32 sersz (ext.digest procchain) 32

  -- The user data that the client expects for a chain and a nonce.
  abbrev pub expected : List ℕ → List ℕ → List ℕ
  expected procchain nonce = ext.digest (take 32 (ext.digest procchain) ++ take 32 nonce)

  extend_works :
      (old digest new_hash : List ℕ)
      → evp.ctx_new ≡ true
      → (evp.init && evp.update_old && evp.update_digest && evp.final) ≡ true
      → hash_extend_sha256 ext evp old digest new_hash
        ≡ (true, ext.digest (take 32 old ++ take 32 digest))
  unfolding hash_extend_sha256
  extend_works old digest new_hash ctx works = rw (ctx, works) refl

  pub quote_with_pid_works :
      (newhash nonce hash quote sign : List ℕ) (sersz : ℕ)
      → evp.ctx_new ≡ true
      → (evp.init && evp.update_old && evp.update_digest && evp.final) ≡ true
      → ((b : List ℕ) → length (ext.digest b) ≡ 32)
      → length hash ≡ 32
      → calls.make_tpm2_quote (ext.digest (take 32 hash ++ take 32 nonce)) ≡ some (quote, sign)
      → calls.is_quote quote ≡ true
      → 0
        < length (
            calls.serialize
              (encode_bundle (quote_entry quote ∷ sign_entry sign ∷ app_hash_entry hash ∷ [])))
      → length (
          calls.serialize
            (encode_bundle (quote_entry quote ∷ sign_entry sign ∷ app_hash_entry hash ∷ [])))
        ≤ sersz
      → make_tpm2_quote_with_pid newhash nonce 32 sersz hash 32 ≡ (
        length (
            calls.serialize
              (encode_bundle (quote_entry quote ∷ sign_entry sign ∷ app_hash_entry hash ∷ []))),
        calls.serialize
            (encode_bundle (quote_entry quote ∷ sign_entry sign ∷ app_hash_entry hash ∷ [])),
      )
  unfolding make_tpm2_quote_with_pid
  quote_with_pid_works newhash nonce hash quote sign sersz ctx works whole size quoted is_quote more
        fits =
      let data' = ext.digest (take 32 hash ++ take 32 nonce) in
      let bytes =
        calls.serialize
          (encode_bundle (quote_entry quote ∷ sign_entry sign ∷ app_hash_entry hash ∷ [])) in
      let all : take 32 hash ≡ hash = take_all 32 hash (omega (arith, size)) in
      let all' : take 32 data' ≡ data' =
        take_all 32 data' (omega (arith, whole (take 32 hash ++ take 32 nonce))) in
      let some_map : (length bytes == 0) ≡ false = ground (arith, more) in
      let room : ltb sersz (length bytes) ≡ false = ground (arith, fits) in
      let extended = extend_works hash nonce newhash ctx works in
      rw (make_tpm2_quote_with_pid, extended, all', quoted, is_quote, all, some_map, room) refl
