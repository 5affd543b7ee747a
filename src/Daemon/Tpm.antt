-- ===== src/Daemon/Tpm.antt =====
-- `pcr_select`, `make_sig_scheme` and `make_tpm2_quote` of tpm2/libquote.c. The calls of TSS2 are parameters. `none` stands for
-- a write past the bytes of a selection.
use portable_tls_ra.Base.{
  ℕ, ◌/◌, ◌%◌, ◌^◌, Bool, true, false, not, ◌||◌, ◌&&◌, Option, none, some, List, [], ◌∷◌, length,
  set, get_or, replicate, ltb, ◌==◌, if◌then◌else◌, ◌>>=◌, bit_and, bit_or,
}

-- `TPMS_PCR_SELECTION`: `pcrSelect` has TPM2_PCR_SELECT_MAX bytes, of which `sizeofSelect` count.
pub record PcrSelection : Type 0 where
  pub hash : ℕ
  pub sizeof_select : ℕ
  pub pcr_bytes : List ℕ

-- The loop over the registers.
unfoldable pub select_from : List ℕ → List ℕ → Option (List ℕ)
select_from [] bytes = some bytes
select_from (pcr ∷ pcrs) bytes =
    if ltb (pcr / 8) (length bytes)
    then select_from pcrs (set bytes (pcr / 8) (bit_or (get_or bytes (pcr / 8) 0) (2 ^ (pcr % 8))))
    else none

unfoldable pub pcr_select : ℕ → List ℕ → Option PcrSelection
unfolding select_from
pcr_select alg pcrs = select_from pcrs (replicate 4 0) >>= λ bytes.
    some (record { hash = alg; sizeof_select = 3; pcr_bytes = bytes })

-- Is a register selected?
abbrev pub is_selected : PcrSelection → ℕ → Bool
is_selected sel pcr =
    ltb (pcr / 8) sel.sizeof_select && get_or sel.pcr_bytes (pcr / 8) 0 / 2 ^ (pcr % 8) % 2 == 1

abbrev pub alg_rsa : ℕ
alg_rsa = 0x1

abbrev pub alg_null : ℕ
alg_null = 0x10

abbrev pub alg_sha256 : ℕ
alg_sha256 = 0xb

abbrev pub alg_rsassa : ℕ
alg_rsassa = 0x14

abbrev pub alg_rsapss : ℕ
alg_rsapss = 0x16

abbrev pub alg_ecdsa : ℕ
alg_ecdsa = 0x18

abbrev pub alg_ecc : ℕ
alg_ecc = 0x23

abbrev pub sign_encrypt : ℕ
sign_encrypt = 0x40000

-- The public area of the signing key.
pub record PublicArea : Type 0 where
  pub attributes : ℕ
  pub key_type : ℕ
  pub scheme : ℕ
  pub key_hash : ℕ

-- The scheme, the hash being SHA-256, unless the key cannot sign so.
unfoldable pub make_sig_scheme : Option PublicArea → Option ℕ
make_sig_scheme none = none
make_sig_scheme (some key) =
    if bit_and key.attributes sign_encrypt == 0
    then none
    else if not (key.scheme == alg_null)
        && not (key.key_hash == alg_null)
        && not (key.key_hash == alg_sha256)
    then none
    else if key.key_type == alg_rsa
    then (if key.scheme == alg_null
        then some alg_rsassa
        else if key.scheme == alg_rsassa || key.scheme == alg_rsapss
        then some key.scheme
        else none)
    else if key.key_type == alg_ecc
    then (if key.scheme == alg_null
        then some alg_ecdsa
        else if key.scheme == alg_ecdsa
        then some key.scheme
        else none)
    else none

-- `struct tpm2_quote`
pub record Tpm2Quote : Type 0 where
  pub quote : List ℕ
  pub sign : List ℕ

-- What TSS2 does: whether the contexts and the key can be had, the key's public area, a quote with its signature
-- for user data, a scheme and a selection, and the marshalled signature.
pub record TpmCalls (Signature : Type 0) : Type 0 where
  pub opens : Bool
  pub public_area : Option PublicArea
  pub esys_quote : List ℕ → ℕ → PcrSelection → Option (List ℕ × Signature)
  pub marshal : Signature → Option (List ℕ)

abbrev pub max_quotesize : ℕ
max_quotesize = 256

-- Whether the result is 0, and `*t_quote`, which held `before`. From `make_sig_scheme` on, `err` is 0, and nothing sets it
-- again.
unfoldable pub make_tpm2_quote :
    {Signature : Type 0}
    → TpmCalls Signature
    → List ℕ
    → ℕ
    → List ℕ
    → Tpm2Quote
    → Option (Bool × Tpm2Quote)
make_tpm2_quote calls udata alg pcrs before =
    if not calls.opens then some (false, before) else elim (make_sig_scheme calls.public_area) [
      | none ↦ some (false, before)
      | some scheme ↦ pcr_select alg pcrs >>= λ sel. elim (calls.esys_quote udata scheme sel) [
        | none ↦ some (true, before)
        | some (quoted, sig) ↦
            if ltb max_quotesize (length quoted)
            then some (true, before)
            else elim (calls.marshal sig) [
              | none ↦ some (true, record { quote = quoted; sign = before.sign })
              | some marshalled ↦ some (true, record { quote = quoted; sign = marshalled })
            ]
      ]
    ]
