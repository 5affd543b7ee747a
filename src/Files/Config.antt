-- ===== src/Files/Config.antt =====
-- The ends of `reg_config` and `pica_read_config` of src/libpica_clnt.c: the configuration is sealed into a file
-- and read from it.
use portable_tls_ra.Base.{ℕ, true, false, Option, none, some, List, Str}
use portable_tls_ra.Sock.Defs.{Written, Received}
use portable_tls_ra.Pica.Types.{Procinfo}
use portable_tls_ra.Pica.Hashtable.Defs.{Slot}
use portable_tls_ra.Pica.Config.Build.{pica_read_config}
use portable_tls_ra.Files.Defs.{
  SgxSeal, file_seal_write, file_size, file_seal_read_close, unset, null, points, written_to,
}

-- What the file that held `old` holds after `reg_config` has sealed its bytes; the result of `file_seal_write` is
-- printed at most.
unfoldable pub seal_config : SgxSeal → List ℕ → Written → List ℕ → List ℕ
seal_config sgx bytes w old = written_to old (file_seal_write sgx bytes w).1

-- `pica_read_config` with its calls of `file_size` and `file_seal_read_close`; `none` where `build_conf` gets a
-- pointer that is NULL or not initialised.
unfoldable pub read_sealed_config :
    SgxSeal
    → (Str → ℕ → ℕ)
    → Option ℕ
    → Received
    → List ℕ
    → List (Slot Procinfo)
    → Option (ℕ × List Procinfo × List (Slot Procinfo))
read_sealed_config sgx murmur end r heap table =
    let (opened, enc_sz) = file_size end in
    elim opened [
      | false ↦ pica_read_config murmur none table
      | true ↦ elim (file_seal_read_close sgx r heap enc_sz).1 [
        | unset ↦ none
        | null ↦ none
        | points buffer ↦ pica_read_config murmur (some buffer) table
      ]
    ]
