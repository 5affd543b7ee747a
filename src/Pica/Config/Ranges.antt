-- ===== src/Pica/Config/Ranges.antt =====
-- The words of the structures that `reg_config` writes are in range.
use portable_tls_ra.Base.{
  All-append, ℕ, suc, ◌+◌, ◌^◌, ◌<◌, ◌≡◌, refl, ap, List, [], ◌∷◌, ◌++◌, length, All, length-append,
  arith, ◌==◌, if◌then◌else◌,
}
use portable_tls_ra.Pica.Types.{Procinfo}
use portable_tls_ra.Pica.Procinfo.Encode.{Measured, MeasuredLib}
use portable_tls_ra.Pica.Procinfo.Roundtrip.{IsMeasured, IsMeasuredLib, procinfo_of}
use portable_tls_ra.Pica.Config.Codec.{IsRawProc, IsRawDig}
use portable_tls_ra.Pica.Config.Placed.{
  lib_strs, proc_strs, all_libs, lib_raws, next_spos, proc_raw, proc_raws, dig_raws,
}
use portable_tls_ra.Pica.Config.Write.{raw_copy}

length-lib_raws : (ls : List MeasuredLib) (spos : ℕ) → length (lib_raws spos ls) ≡ length ls
length-lib_raws [] spos = refl
length-lib_raws (l ∷ ls) spos = ap suc (length-lib_raws ls (spos + length l.path + 1))

lib_raws-IsRawDig :
    (ls : List MeasuredLib) (spos : ℕ)
    → All IsMeasuredLib ls
    → spos + length (lib_strs ls) < 2 ^ 31
    → All IsRawDig (lib_raws spos ls)
lib_raws-IsRawDig [] spos ok few = tt
lib_raws-IsRawDig (l ∷ ls) spos ok few =
    let size = length-append l.path (0 ∷ lib_strs ls) in
    (
      (omega (arith, few), ok.0.1),
      lib_raws-IsRawDig ls (spos + length l.path + 1) ok.1 (omega (arith, few, size)),
    )

module _ (path_addr libs_addr : Procinfo → ℕ) where
  pub length-proc_raws :
      (ms : List Measured) (spos fpos : ℕ)
      → length (proc_raws path_addr libs_addr spos fpos ms) ≡ length ms
  length-proc_raws [] spos fpos = refl
  length-proc_raws (m ∷ ms) spos fpos =
      ap suc (length-proc_raws ms (next_spos path_addr libs_addr spos m) (fpos + length m.paths))

  pub length-dig_raws :
      (ms : List Measured) (spos : ℕ)
      → length (dig_raws path_addr libs_addr spos ms) ≡ length (all_libs ms)
  length-dig_raws [] spos = refl
  length-dig_raws (m ∷ ms) spos =
      let raws = lib_raws (spos + length m.cmdpath + 1) m.paths in
      let raws' = dig_raws path_addr libs_addr (next_spos path_addr libs_addr spos m) ms in
      omega (
        arith,
        length-append raws raws',
        length-append m.paths (all_libs ms),
        length-lib_raws m.paths (spos + length m.cmdpath + 1),
        length-dig_raws ms (next_spos path_addr libs_addr spos m),
      )

  length-proc_strs :
      (m : Measured) (ms : List Measured)
      → length (proc_strs (m ∷ ms))
        ≡ length m.cmdpath + 1 + length (lib_strs m.paths) + length (proc_strs ms)
  length-proc_strs m ms = omega (
    arith,
    length-append m.cmdpath (0 ∷ (lib_strs m.paths ++ proc_strs ms)),
    length-append (lib_strs m.paths) (proc_strs ms),
  )

  pub dig_raws-IsRawDig :
      (ms : List Measured) (spos : ℕ)
      → All IsMeasured ms
      → spos + length (proc_strs ms) < 2 ^ 31
      → All IsRawDig (dig_raws path_addr libs_addr spos ms)
  dig_raws-IsRawDig [] spos ok few = tt
  dig_raws-IsRawDig (m ∷ ms) spos ok few =
      let size = length-proc_strs m ms in
      let raws = lib_raws (spos + length m.cmdpath + 1) m.paths in
      let raws' = dig_raws path_addr libs_addr (next_spos path_addr libs_addr spos m) ms in
      All-append IsRawDig raws raws'
        (lib_raws-IsRawDig m.paths (spos + length m.cmdpath + 1) ok.0.paths
          (omega (arith, few, size)))
        (dig_raws-IsRawDig ms (next_spos path_addr libs_addr spos m) ok.1
          (omega (arith, few, size)))

  module _ (addresses : (p : Procinfo) → libs_addr p < 2 ^ 64) where
    fpos_lem :
        (n addr fpos : ℕ) → addr < 2 ^ 64 → fpos < 2 ^ 31 → (if n == 0 then addr else fpos) < 2 ^ 64
    fpos_lem n addr fpos h few = ground arith

    proc_raw-IsRawProc :
        (m : Measured) (spos fpos : ℕ)
        → IsMeasured m
        → spos < 2 ^ 31
        → fpos + length m.paths < 2 ^ 31
        → IsRawProc (proc_raw path_addr libs_addr spos fpos m)
    unfolding raw_copy
    proc_raw-IsRawProc m spos fpos ok s_few f_few = record {
      pid = ok.pid;
      ppid = ok.ppid;
      ruid = ok.ruid;
      rgid = ok.rgid;
      euid = ok.euid;
      egid = ok.egid;
      suid = ok.suid;
      sgid = ok.sgid;
      spos = omega arith;
      digest = ok.digest;
      count = omega arith;
      fpos =
          fpos_lem (length m.paths) (libs_addr (procinfo_of m)) fpos (addresses (procinfo_of m))
            (omega arith);
    }

    pub proc_raws-IsRawProc :
        (ms : List Measured) (spos fpos : ℕ)
        → All IsMeasured ms
        → spos + length (proc_strs ms) < 2 ^ 31
        → fpos + length (all_libs ms) < 2 ^ 31
        → All IsRawProc (proc_raws path_addr libs_addr spos fpos ms)
    proc_raws-IsRawProc [] spos fpos ok s_few f_few = tt
    proc_raws-IsRawProc (m ∷ ms) spos fpos ok s_few f_few =
        let size = length-proc_strs m ms in
        let libs = length-append m.paths (all_libs ms) in
        (
          proc_raw-IsRawProc m spos fpos ok.0 (omega (arith, s_few)) (omega (arith, f_few, libs)),
          proc_raws-IsRawProc ms (next_spos path_addr libs_addr spos m) (fpos + length m.paths) ok.1
              (omega (arith, s_few, size)) (omega (arith, f_few, libs)),
        )
