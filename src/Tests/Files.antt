-- ===== src/Tests/Files.antt =====
-- A configuration in a sealed file.
use portable_tls_ra.Base.{
  ℕ, ◌^◌, ◌<◌, ◌≡◌, refl, true, le_bytes, none, some, Option, List, [], ◌∷◌, ◌++◌, length, take,
  take-append, drop, map, replicate, arith, Str, ◌==◌, if◌then◌else◌, bytes_eq,
}
use portable_tls_ra.Sock.Defs.{wrote, received}
use portable_tls_ra.Pica.Types.{Procinfo, pica_ent_conf_procinfo}
use portable_tls_ra.Pica.Hashtable.Defs.{Slot, empty_htable, find_hashtable}
use portable_tls_ra.Pica.Hashtable.Build.{first_named}
use portable_tls_ra.Pica.Procinfo.Roundtrip.{procinfo_of, pica_extract_pinfo_roundtrip}
use portable_tls_ra.Pica.Config.Roundtrip.{trimmed}
use portable_tls_ra.Pica.Config.Written.{layout, reg_config-layout}
use portable_tls_ra.Pica.Config.Layout.{encode_head, encode_procs, encode_digs}
use portable_tls_ra.Pica.Config.Write.{pica_reg_config, raw_copy}
use portable_tls_ra.Files.Defs.{SgxSeal, file_seal_write}
use portable_tls_ra.Files.Config.{read_sealed_config}
use portable_tls_ra.Files.Sealed.{seal_config_front, sealed_config_roundtrip}
use portable_tls_ra.Tests.Procinfo.{
  external, ser, shell, editor, shell-IsMeasured, editor-IsMeasured,
}
use portable_tls_ra.Tests.Config.{address, hash}

-- A seal that puts the length before the text.
abbrev open_seal : List ℕ → Option (List ℕ)
open_seal [] = none
open_seal (n ∷ rest) = if length (take n rest) == n then some (take n rest) else none

abbrev sgx : SgxSeal
sgx = record { seal_data = λ b. some (length b ∷ b); text_len = length; unseal_data = open_seal }

open_seal_whole : (b tail : List ℕ) → open_seal ((length b ∷ b) ++ tail) ≡ some b
open_seal_whole b tail =
    let same : (length b == length b) ≡ true = ground arith in
    rw (take-append b tail (length b) refl, same) refl

-- What is registered of two processes, and a longer file that is written over.
abbrev bytes : List ℕ
bytes = layout address address (shell ∷ editor ∷ [])

abbrev enc : List ℕ
enc = length bytes ∷ bytes

abbrev old : List ℕ
old = replicate 400 9

abbrev file : List ℕ
file = enc ++ drop (length enc) old

registered : pica_reg_config address address external [] (7 ∷ []) ≡ some bytes
unfolding pica_reg_config bytes_eq
registered =
    rw
      (pica_extract_pinfo_roundtrip external [] ser shell (editor ∷ []) (7 ∷ [])
        (shell-IsMeasured, (editor-IsMeasured, tt)) (refl, (refl, tt)) refl)
      (reg_config-layout address address (shell ∷ editor ∷ [])
        (shell-IsMeasured, (editor-IsMeasured, tt)))

file_small : length file < 2 ^ 64
unfolding le_bytes encode_head encode_procs raw_copy encode_digs
file_small = omega arith

sealed_config_roundtrip_example :
    (ps : List Procinfo) × (table : List (Slot Procinfo)) × (file_seal_write sgx bytes
        (wrote (length enc))
      ≡ (some 1, enc))
    × (file ≡ enc ++ drop (length enc) old)
    × (read_sealed_config sgx hash (some (length file)) (received file) file empty_htable
        ≡ some (2, ps, table))
    × (map trimmed ps ≡ procinfo_of shell ∷ procinfo_of editor ∷ [])
    × ((q : Str) (k : ℕ)
        → find_hashtable hash q k table
          ≡ (if pica_ent_conf_procinfo == k then first_named q 2 ps else none))
unfolding bytes_eq
sealed_config_roundtrip_example =
    sealed_config_roundtrip address address external [] ser hash sgx shell (editor ∷ []) (7 ∷ [])
      bytes enc old file file (λ p. omega arith) (shell-IsMeasured, (editor-IsMeasured, tt))
      (omega arith) (refl, (refl, tt)) refl registered refl (open_seal_whole bytes)
      (seal_config_front sgx bytes enc old refl).1 file_small refl
