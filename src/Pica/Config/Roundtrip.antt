-- ===== src/Pica/Config/Roundtrip.antt =====
-- The configuration file that `reg_config` writes, read back by `build_conf`.
use portable_tls_ra.Base.{
  ℕ, ◌+◌, ◌*◌, ◌^◌, ◌<◌, ◌≡◌, refl, ap, sym, subst, ◌∙◌, some, List, [], ◌∷◌, ◌++◌, length, take,
  map, All, append-nil, take-append, arith, ◌==◌, ltb, if◌then◌else◌, false,
}
use portable_tls_ra.Pica.Types.{Procinfo}
use portable_tls_ra.Pica.Procinfo.Encode.{Measured, MeasuredLib}
use portable_tls_ra.Pica.Procinfo.Roundtrip.{IsMeasured, fdigest_of, procinfo_of}
use portable_tls_ra.Pica.Config.Layout.{
  ConfHead, RawProc, RawDig, encode_procs, encode_digs, decode_procs, decode_digs,
}
use portable_tls_ra.Pica.Config.Codec.{
  decode_head-encode_head, decode_procs-encode_procs, decode_digs-encode_digs, length-encode_head,
  length-encode_procs, length-encode_digs,
}
use portable_tls_ra.Pica.Config.Placed.{proc_strs, all_libs, proc_raws, dig_raws}
use portable_tls_ra.Pica.Config.Written.{layout}
use portable_tls_ra.Pica.Config.Relocated.{
  relocate-dig_raws, map-append, relocate-proc_raws, read_proc, read_procs, length-map-fdigest_of,
}
use portable_tls_ra.Pica.Config.Build.{
  build_conf, relocate_all, build_body, relocate_dig, relocate_proc,
}
use portable_tls_ra.Pica.Config.Ranges.{
  length-proc_raws, length-dig_raws, proc_raws-IsRawProc, dig_raws-IsRawDig,
}

-- What the three parts take, with the head.
abbrev pub file_size : List Measured → ℕ
file_size ms = 20 + 88 * length ms + 40 * length (all_libs ms) + length (proc_strs ms)

-- A process with the libraries of its count.
abbrev pub trimmed : Procinfo → Procinfo
trimmed p = record p { libs = take p.count p.libs }

take-libs :
    (ls others : List MeasuredLib)
    → take (length ls) (if length ls == 0 then [] else map fdigest_of (ls ++ others))
      ≡ map fdigest_of ls
take-libs [] others = refl
take-libs (l ∷ ls) others =
    let all = l ∷ ls in
    let nonzero : (length all == 0) ≡ false = ground arith in
    let split = map-append fdigest_of all others in
    let count = length-map-fdigest_of all in
    rw nonzero (
      ap (take (length all)) split
      ∙ take-append (map fdigest_of all) (map fdigest_of others) (length all) count)

trimmed-read_proc : (m : Measured) (ms : List Measured) → trimmed (read_proc m ms) ≡ procinfo_of m
trimmed-read_proc m ms = rw (take-libs m.paths (all_libs ms)) refl

pub trimmed-read_procs : (ms : List Measured) → map trimmed (read_procs ms) ≡ map procinfo_of ms
trimmed-read_procs [] = refl
trimmed-read_procs (m ∷ ms) =
    ap (◌∷◌ (trimmed (read_proc m ms))) (trimmed-read_procs ms)
    ∙ ap (λ p. p ∷ map procinfo_of ms) (trimmed-read_proc m ms)

module _ (path_addr libs_addr : Procinfo → ℕ) where
  abbrev head_of : List Measured → ConfHead
  head_of ms = record {
    proc_cnt = length ms;
    fdig_cnt = length (all_libs ms);
    str_size = length (proc_strs ms);
  }

  abbrev body_of : List Measured → List ℕ
  body_of ms =
      encode_procs (proc_raws path_addr libs_addr 0 0 ms)
        (encode_digs (dig_raws path_addr libs_addr 0 ms) (proc_strs ms))

  -- The last step of `relocate_all`.
  abbrev relocated : List RawDig × List ℕ → List RawProc → List Procinfo
  relocated r raws = map (relocate_proc r.1 (map (relocate_dig r.1) r.0)) raws

  relocate_all-read_procs :
      (ms : List Measured)
      → ((p : Procinfo) → libs_addr p < 2 ^ 64)
      → All IsMeasured ms
      → file_size ms < 2 ^ 31
      → relocate_all (head_of ms) (body_of ms) ≡ read_procs ms
  unfolding relocate_all
  relocate_all-read_procs ms addresses ok few =
      let procs_ok =
        proc_raws-IsRawProc path_addr libs_addr addresses ms 0 0 ok (omega (arith, few))
          (omega (arith, few)) in
      let digs_ok = dig_raws-IsRawDig path_addr libs_addr ms 0 ok (omega (arith, few)) in
      let raws = proc_raws path_addr libs_addr 0 0 ms in
      let digs = dig_raws path_addr libs_addr 0 ms in
      let rest = encode_digs digs (proc_strs ms) in
      let back1 =
        subst (λ n. decode_procs n (encode_procs raws rest) ≡ (raws, rest))
          (length-proc_raws path_addr libs_addr ms 0 0)
          (decode_procs-encode_procs raws rest procs_ok) in
      let back2 =
        subst (λ n. decode_digs n rest ≡ (digs, proc_strs ms))
          (length-dig_raws path_addr libs_addr ms 0)
          (decode_digs-encode_digs digs (proc_strs ms) digs_ok) in
      let libs =
        relocate-dig_raws path_addr libs_addr ms (proc_strs ms) [] [] 0 ok refl
          (sym (append-nil (proc_strs ms))) in
      let digs' = map fdigest_of (all_libs ms) in
      let procs =
        relocate-proc_raws path_addr libs_addr ms (proc_strs ms) [] [] digs' [] 0 0 ok
          (omega (arith, few)) refl (sym (append-nil (proc_strs ms))) refl refl in
      ap (λ r. relocated (decode_digs (length (all_libs ms)) r.1) r.0) back1
      ∙ ap (λ r. relocated r raws) back2
      ∙ ap (λ ds. map (relocate_proc (proc_strs ms) ds) raws) libs
      ∙ procs

  length-layout :
      (ms : List Measured)
      → ((p : Procinfo) → libs_addr p < 2 ^ 64)
      → All IsMeasured ms
      → file_size ms < 2 ^ 31
      → (length (layout path_addr libs_addr ms) ≡ file_size ms)
        × (length (body_of ms) + 20 ≡ file_size ms)
  length-layout ms addresses ok few =
      let procs_ok =
        proc_raws-IsRawProc path_addr libs_addr addresses ms 0 0 ok (omega (arith, few))
          (omega (arith, few)) in
      let digs_ok = dig_raws-IsRawDig path_addr libs_addr ms 0 ok (omega (arith, few)) in
      let raws = proc_raws path_addr libs_addr 0 0 ms in
      let digs = dig_raws path_addr libs_addr 0 ms in
      let rest = encode_digs digs (proc_strs ms) in
      let whole = length-encode_head (head_of ms) (body_of ms) in
      let procs = length-encode_procs raws rest procs_ok in
      let libs = length-encode_digs digs (proc_strs ms) digs_ok in
      let proc_cnt = length-proc_raws path_addr libs_addr ms 0 0 in
      let fdig_cnt = length-dig_raws path_addr libs_addr ms 0 in
      (
        omega (arith, whole, procs, libs, proc_cnt, fdig_cnt),
        omega (arith, procs, libs, proc_cnt, fdig_cnt),
      )

  build_body-read_procs :
      (ms : List Measured)
      → ((p : Procinfo) → libs_addr p < 2 ^ 64)
      → All IsMeasured ms
      → file_size ms < 2 ^ 31
      → build_body (head_of ms) (body_of ms) (file_size ms) ≡ some (length ms, some (read_procs ms))
  unfolding build_body
  build_body-read_procs ms addresses ok few =
      let size = (length-layout ms addresses ok few).1 in
      let read = relocate_all-read_procs ms addresses ok few in rw read (ground (arith, few, size))

  pub build_conf-layout :
      (ms : List Measured)
      → ((p : Procinfo) → libs_addr p < 2 ^ 64)
      → All IsMeasured ms
      → file_size ms < 2 ^ 31
      → build_conf (layout path_addr libs_addr ms) (length (layout path_addr libs_addr ms))
        ≡ some (length ms, some (read_procs ms))
  unfolding build_conf
  build_conf-layout ms addresses ok few =
      let size = (length-layout ms addresses ok few).0 in
      let whole : ltb (length (layout path_addr libs_addr ms)) 20 ≡ false = ground (arith, size) in
      let head =
        decode_head-encode_head (head_of ms) (body_of ms) (omega (arith, few)) (omega (arith, few))
          (omega (arith, few)) in
      let body = build_body-read_procs ms addresses ok few in
      rw whole (
        ap (λ r. build_body r.0 r.1 (length (layout path_addr libs_addr ms))) head
        ∙ ap (build_body (head_of ms) (body_of ms)) size
        ∙ body)
