-- ===== src/Pica/Config/Registered.antt =====
-- From the processes that the daemon measured to the table of the configured ones: `pica_reg_config` in one run
-- of the client, and `pica_read_config` in a later one.
use portable_tls_ra.Base.{
  ℕ, ◌^◌, ◌<◌, ◌≡◌, refl, none, some, List, [], ◌∷◌, Str, length, map, All, ◌==◌, if◌then◌else◌,
  arith,
}
use portable_tls_ra.Pica.Types.{Procinfo, pica_ent_conf_procinfo}
use portable_tls_ra.Pica.Hashtable.Defs.{Slot, empty_htable, find_hashtable}
use portable_tls_ra.Pica.Hashtable.Refines.{empty_htable-IsHtable, find_empty}
use portable_tls_ra.Pica.Hashtable.Build.{first_named, IsNamed, reg_procs-Extends}
use portable_tls_ra.Pica.Evidence.Types.{External, cbor_array}
use portable_tls_ra.Pica.Procinfo.Encode.{Measured}
use portable_tls_ra.Pica.Procinfo.Roundtrip.{
  IsMeasured, procinfo_of, Loads, items_of, pica_extract_pinfo_roundtrip,
}
use portable_tls_ra.Pica.Config.Relocated.{read_procs}
use portable_tls_ra.Pica.Config.Roundtrip.{
  file_size, trimmed, trimmed-read_procs, build_conf-layout,
}
use portable_tls_ra.Pica.Config.Written.{layout, reg_config-layout}
use portable_tls_ra.Pica.Config.Write.{pica_reg_config}
use portable_tls_ra.Pica.Config.Build.{pica_read_config}

read_procs-IsNamed : (ms : List Measured) → IsNamed (length ms) (read_procs ms)
read_procs-IsNamed [] = tt
read_procs-IsNamed (m ∷ ms) = ((λ e. cc), read_procs-IsNamed ms)

module _ (path_addr libs_addr : Procinfo → ℕ) {Key : Type 0} (ext : External Key) (heap : List ℕ)
    (ser : Measured → List ℕ) (murmur : Str → ℕ → ℕ) where
  -- For processes, one at least, with 32-bit identifiers, texts for paths and 32-byte digests, of
  -- which all structures and paths take less than 2^31 bytes, whose pointers are below 2^64 and whose
  -- maps libcbor loads again from what the daemon sends: pica_reg_config writes a file, and
  -- pica_read_config reads from it as many entries, which are the processes with their identifiers,
  -- paths and digests and, as far as the count of each goes, with their libraries in order. The
  -- table, which was empty, then finds under a path of kind PICA_ENT_CONF_PROCINFO the first entry
  -- that has it, and nothing under any other kind.
  pub pica_reg_config_roundtrip :
      (m : Measured) (ms : List Measured) (picabody : List ℕ)
      → ((p : Procinfo) → libs_addr p < 2 ^ 64)
      → All IsMeasured (m ∷ ms)
      → file_size (m ∷ ms) < 2 ^ 31
      → All (Loads ext heap ser) (m ∷ ms)
      → ext.cbor_load picabody ≡ some (cbor_array (items_of ext heap ser (m ∷ ms)))
      → (bytes : List ℕ) × (ps : List Procinfo) × (table : List (Slot Procinfo)) × (pica_reg_config
            path_addr libs_addr ext heap picabody
          ≡ some bytes)
        × (pica_read_config murmur (some bytes) empty_htable ≡ some (length (m ∷ ms), ps, table))
        × (map trimmed ps ≡ map procinfo_of (m ∷ ms))
        × ((q : Str) (k : ℕ)
            → find_hashtable murmur q k table
              ≡ (if pica_ent_conf_procinfo == k then first_named q (length (m ∷ ms)) ps else none))
  unfolding pica_reg_config pica_read_config
  pica_reg_config_roundtrip m ms picabody addresses ok few loads whole =
      let all = m ∷ ms in
      let ps = read_procs all in
      let extracted = pica_extract_pinfo_roundtrip ext heap ser m ms picabody ok loads whole in
      let written = reg_config-layout path_addr libs_addr all ok in
      let read = build_conf-layout path_addr libs_addr all addresses ok few in
      let table =
        reg_procs-Extends murmur (length all) ps empty_htable empty_htable-IsHtable
          (read_procs-IsNamed all) in
      (
        layout path_addr libs_addr all,
        ps,
        table.0,
        rw extracted written,
        rw (read, table.1) refl,
        trimmed-read_procs all,
        λ q k. ground (arith, table.3 q k, find_empty murmur {A = Procinfo} q k),
      )
