-- ===== src/Files/Sealed.antt =====
-- What the sealed file gives back.
use portable_tls_ra.Base.{
  ℕ, ◌+◌, ◌%◌, ◌^◌, ◌<◌, ◌≡◌, refl, ap, sym, ◌∙◌, true, none, some, List, [], ◌∷◌, ◌++◌, Str,
  length, take, take_all, drop, drop_all, append-nil, map, All, ◌==◌, if◌then◌else◌, arith,
}
use portable_tls_ra.Sock.Defs.{wrote, received, size_mod, store_at}
use portable_tls_ra.Pica.Types.{Procinfo, pica_ent_conf_procinfo}
use portable_tls_ra.Pica.Hashtable.Defs.{Slot, empty_htable, find_hashtable}
use portable_tls_ra.Pica.Hashtable.Build.{first_named}
use portable_tls_ra.Pica.Evidence.Types.{External, cbor_array}
use portable_tls_ra.Pica.Procinfo.Encode.{Measured}
use portable_tls_ra.Pica.Procinfo.Roundtrip.{IsMeasured, procinfo_of, Loads, items_of}
use portable_tls_ra.Pica.Config.Roundtrip.{trimmed}
use portable_tls_ra.Pica.Config.Roundtrip as Roundtrip
use portable_tls_ra.Pica.Config.Write.{pica_reg_config}
use portable_tls_ra.Pica.Config.Build.{pica_read_config}
use portable_tls_ra.Pica.Config.Registered.{pica_reg_config_roundtrip}
use portable_tls_ra.Files.Defs.{
  SgxSeal, points, file_read_close, file_size, file_seal_write, file_seal_read_close, written_to,
}
use portable_tls_ra.Files.Config.{seal_config, read_sealed_config}

-- A write of the whole replaces the front of what was there.
written_to_front : (old bytes : List ℕ) → written_to old bytes ≡ bytes ++ drop (length bytes) old
unfolding written_to store_at
written_to_front old bytes =
    let start : 0 + length bytes ≡ length bytes = omega arith in rw start refl

-- A file that is read to its end fills the memory of its size.
file_read_close_whole :
    (file heap : List ℕ)
    → length heap ≡ length file
    → file_read_close (received file) (take (length file) heap) ≡ (length file, file)
unfolding file_read_close store_at
file_read_close_whole file heap size =
    let all : take (length file) heap ≡ heap = take_all (length file) heap (omega (arith, size)) in
    let rest : drop (length file) heap ≡ [] = drop_all (length file) heap (omega (arith, size)) in
    let start : 0 + length file ≡ length file = omega arith in
    rw (all, start, rest, append-nil) refl

module _ (sgx : SgxSeal) (file heap : List ℕ) (room : length heap ≡ length file) where
  unsealed_whole :
      (plain : List ℕ)
      → sgx.unseal_data file ≡ some plain
      → file_seal_read_close sgx (received file) heap (length file) ≡ (length plain, points plain)
  unfolding file_seal_read_close
  unsealed_whole plain opened =
      let same : (length file == length file) ≡ true = ground arith in
      rw (file_seal_read_close, file_read_close_whole file heap room, same, opened) refl

  read_sealed_config-unsealed :
      (murmur : Str → ℕ → ℕ) (plain : List ℕ) (table : List (Slot Procinfo))
      → length file < size_mod
      → sgx.unseal_data file ≡ some plain
      → read_sealed_config sgx murmur (some (length file)) (received file) heap table
        ≡ pica_read_config murmur (some plain) table
  unfolding read_sealed_config file_size
  read_sealed_config-unsealed murmur plain table small opened =
      let wrap : length file % size_mod ≡ length file = omega (arith, small) in
      rw (read_sealed_config, file_size, wrap, unsealed_whole plain opened) refl

-- What is sealed and written as a whole over a file is the front of the file.
pub seal_config_front :
    (sgx : SgxSeal) (bytes enc old : List ℕ)
    → sgx.seal_data bytes ≡ some enc
    → (file_seal_write sgx bytes (wrote (length enc)) ≡ (some 1, enc))
      × (seal_config sgx bytes (wrote (length enc)) old ≡ enc ++ drop (length enc) old)
unfolding seal_config file_seal_write
seal_config_front sgx bytes enc old sealed =
    let same : (length enc == length enc) ≡ true = ground arith in
    let all : take (length enc) enc ≡ enc = take_all (length enc) enc (omega arith) in
    let written : file_seal_write sgx bytes (wrote (length enc)) ≡ (some 1, enc) =
      rw (file_seal_write, sealed, same, all) refl in
    (written, rw (seal_config, written) (written_to_front old enc))

module _ (path_addr libs_addr : Procinfo → ℕ) {Key : Type 0} (ext : External Key) (heap : List ℕ)
    (ser : Measured → List ℕ) (murmur : Str → ℕ → ℕ) (sgx : SgxSeal) where
  -- The configuration of processes as in `pica_reg_config_roundtrip`, of which the bytes are sealed and written as a whole
  -- over a file that held anything, also more: where a sealed text can be unsealed whatever follows it, the file
  -- holds the sealed text before what is left of the old one, and reading the file to its end gives the
  -- processes and the table that the configuration describes.
  pub sealed_config_roundtrip :
      (m : Measured) (ms : List Measured) (picabody bytes enc old file room : List ℕ)
      → ((p : Procinfo) → libs_addr p < 2 ^ 64)
      → All IsMeasured (m ∷ ms)
      → Roundtrip.file_size (m ∷ ms) < 2 ^ 31
      → All (Loads ext heap ser) (m ∷ ms)
      → ext.cbor_load picabody ≡ some (cbor_array (items_of ext heap ser (m ∷ ms)))
      → pica_reg_config path_addr libs_addr ext heap picabody ≡ some bytes
      → sgx.seal_data bytes ≡ some enc
      → ((tail : List ℕ) → sgx.unseal_data (enc ++ tail) ≡ some bytes)
      → seal_config sgx bytes (wrote (length enc)) old ≡ file
      → length file < size_mod
      → length room ≡ length file
      → (ps : List Procinfo) × (table : List (Slot Procinfo)) × (file_seal_write sgx bytes
            (wrote (length enc))
          ≡ (some 1, enc))
        × (file ≡ enc ++ drop (length enc) old)
        × (read_sealed_config sgx murmur (some (length file)) (received file) room empty_htable
            ≡ some (length (m ∷ ms), ps, table))
        × (map trimmed ps ≡ map procinfo_of (m ∷ ms))
        × ((q : Str) (k : ℕ)
            → find_hashtable murmur q k table
              ≡ (if pica_ent_conf_procinfo == k then first_named q (length (m ∷ ms)) ps else none))
  sealed_config_roundtrip m ms picabody bytes enc old file room addresses ok few loads whole
        registered sealed opens held small size =
      let r =
        pica_reg_config_roundtrip path_addr libs_addr ext heap ser murmur m ms picabody addresses ok
          few loads whole in
      let same : r.0 ≡ bytes = cc (r.3, registered) in
      let front = seal_config_front sgx bytes enc old sealed in
      let contents : file ≡ enc ++ drop (length enc) old = sym held ∙ front.1 in
      let opened : sgx.unseal_data file ≡ some bytes =
        ap sgx.unseal_data contents ∙ opens (drop (length enc) old) in
      let read =
        read_sealed_config-unsealed sgx file room size murmur bytes empty_htable small opened in
      (
        r.1,
        r.2,
        front.0,
        contents,
        read ∙ ap (λ b. pica_read_config murmur (some b) empty_htable) (sym same) ∙ r.4,
        r.5,
        r.6,
      )
