-- ===== src/Pica/Config/Written.antt =====
-- What `reg_config` writes for processes that were measured.
use portable_tls_ra.Base.{
  ℕ, suc, ◌+◌, ◌≡◌, refl, ap, subst, some, List, [], ◌∷◌, ◌++◌, length, map, replicate, All,
  append-nil, arith,
}
use portable_tls_ra.Pica.Types.{Procinfo}
use portable_tls_ra.Pica.Procinfo.Encode.{Measured}
use portable_tls_ra.Pica.Procinfo.Roundtrip.{IsMeasured, procinfo_of}
use portable_tls_ra.Pica.Config.Layout.{encode_head, encode_procs, encode_digs}
use portable_tls_ra.Pica.Config.Placed.{
  proc_strs, all_libs, proc_raws, dig_raws, conf_sizes-proc_strs, place_procs-raws,
}
use portable_tls_ra.Pica.Config.Write.{reg_config, place_procs}

-- The bytes of the file: the sizes of the three parts, the processes, the libraries of all of them, and
-- all the paths.
module _ (path_addr libs_addr : Procinfo → ℕ) where
  abbrev pub layout : List Measured → List ℕ
  layout ms =
      encode_head
        (record {
          proc_cnt = length ms;
          fdig_cnt = length (all_libs ms);
          str_size = length (proc_strs ms);
        })
        (encode_procs (proc_raws path_addr libs_addr 0 0 ms)
          (encode_digs (dig_raws path_addr libs_addr 0 ms) (proc_strs ms)))

  length-map-procinfo_of : (ms : List Measured) → length (map procinfo_of ms) ≡ length ms
  length-map-procinfo_of [] = refl
  length-map-procinfo_of (m ∷ ms) = ap suc (length-map-procinfo_of ms)

  -- For processes with 32-bit identifiers, texts for paths and 32-byte digests, the sizes of the first
  -- loop of reg_config are the room that the second loop needs: no write leaves the string buffer, and
  -- the file is the head with these sizes, the processes, all their libraries, and all the paths, each
  -- with its NUL, to the last byte of the buffer.
  pub reg_config-layout :
      (ms : List Measured)
      → All IsMeasured ms
      → reg_config path_addr libs_addr (map procinfo_of ms) ≡ some (layout ms)
  unfolding reg_config
  reg_config-layout ms ok =
      let sizes = conf_sizes-proc_strs ms in
      let placed = place_procs-raws path_addr libs_addr ms [] 0 0 0 ok refl in
      let room : length (proc_strs ms) + 0 ≡ length (proc_strs ms) = omega arith in
      let placed' =
        subst
          (λ k.
            place_procs path_addr libs_addr (map procinfo_of ms) 0 0 (replicate k 0)
            ≡ some (
              proc_raws path_addr libs_addr 0 0 ms,
              dig_raws path_addr libs_addr 0 ms,
              proc_strs ms ++ [],
            ))
          room placed in
      rw (sizes, placed', length-map-procinfo_of ms, append-nil (proc_strs ms)) refl
