-- ===== src/Pica/Config/Placed.antt =====
-- What the second loop of `reg_config` writes: where each structure points, and the strings in their buffer.
use portable_tls_ra.Base.{
  false, replicate-add, ℕ, suc, ◌+◌, ◌≡◌, refl, ap, sym, ◌∙◌, some, List, [], ◌∷◌, ◌++◌, Str,
  length, take, drop, map, replicate, All, append_assoc, length-append, length-replicate,
  take-append, drop-append, drop-append_past, append-nil, take_all, ltb, ◌==◌, if◌then◌else◌, arith,
}
use portable_tls_ra.Pica.Types.{Procinfo}
use portable_tls_ra.Pica.Procinfo.Encode.{Measured, MeasuredLib}
use portable_tls_ra.Pica.Procinfo.Roundtrip.{IsMeasured, IsMeasuredLib, fdigest_of, procinfo_of}
use portable_tls_ra.Pica.Config.Layout.{RawProc, RawDig}
use portable_tls_ra.Pica.Config.Write.{
  libs_size, conf_sizes, copy_string, place_libs, place_procs, raw_copy,
}

-- The paths, each with its NUL.
abbrev pub lib_strs : List MeasuredLib → List ℕ
lib_strs [] = []
lib_strs (l ∷ ls) = l.path ++ 0 ∷ lib_strs ls

abbrev pub proc_strs : List Measured → List ℕ
proc_strs [] = []
proc_strs (m ∷ ms) = m.cmdpath ++ 0 ∷ (lib_strs m.paths ++ proc_strs ms)

abbrev pub all_libs : List Measured → List MeasuredLib
all_libs [] = []
all_libs (m ∷ ms) = m.paths ++ all_libs ms

-- The structures, with the positions of their paths.
abbrev pub lib_raws : ℕ → List MeasuredLib → List RawDig
lib_raws spos [] = []
lib_raws spos (l ∷ ls) =
    record { spos = spos; digest = l.digest } ∷ lib_raws (spos + length l.path + 1) ls

-- The zeros behind what is written leave room for a path and its NUL.
copy-zeros :
    (written : List ℕ) (n spos : ℕ) (path : Str)
    → spos ≡ length written
    → copy_string (written ++ replicate (length path + suc n) 0) spos path
      ≡ some ((written ++ (path ++ 0 ∷ [])) ++ replicate n 0)
unfolding copy_string
copy-zeros written n spos path at_end =
    let room = length path + suc n in
    let zeros = replicate room 0 in
    let fits : ltb (length (written ++ zeros)) (spos + length path) ≡ false =
      ground (arith, length-append written zeros, length-replicate {A = ℕ} room 0) in
    let front = take-append written zeros spos (sym at_end) in
    let split = replicate-add {A = ℕ} (length path) (suc n) 0 in
    let blank = replicate (length path) 0 in
    let past : drop (spos + length path) (written ++ zeros) ≡ 0 ∷ replicate n 0 =
      rw (at_end, drop-append_past written zeros (length path), split)
        (drop-append blank (0 ∷ replicate n 0) (length path)
          (length-replicate {A = ℕ} (length path) 0)) in
    let regroup =
      append_assoc written (path ++ 0 ∷ []) (replicate n 0)
      ∙ ap (◌++◌ written) (append_assoc path (0 ∷ []) (replicate n 0)) in
    rw (fits, front, past) (ap some (sym regroup))

libs_size-lib_strs :
    (ls : List MeasuredLib)
    → libs_size (length ls) (map fdigest_of ls) ≡ some (length (lib_strs ls))
unfolding libs_size
libs_size-lib_strs [] = refl
libs_size-lib_strs (l ∷ ls) =
    let size = length-append l.path (0 ∷ lib_strs ls) in
    let rest = libs_size-lib_strs ls in rw rest (ap some (omega (arith, size)))

pub conf_sizes-proc_strs :
    (ms : List Measured)
    → conf_sizes (map procinfo_of ms) ≡ some (length (proc_strs ms), length (all_libs ms))
unfolding conf_sizes
conf_sizes-proc_strs [] = refl
conf_sizes-proc_strs (m ∷ ms) =
    let rest = conf_sizes-proc_strs ms in
    let own = libs_size-lib_strs m.paths in
    let size1 = length-append m.cmdpath (0 ∷ (lib_strs m.paths ++ proc_strs ms)) in
    let size2 = length-append (lib_strs m.paths) (proc_strs ms) in
    let libs = length-append m.paths (all_libs ms) in
    let sizes : length m.cmdpath + 1 + length (lib_strs m.paths) + length (proc_strs ms)
        ≡ length (proc_strs (m ∷ ms)) =
      omega (arith, size1, size2) in
    rw (own, rest, sizes, sym libs) refl

place_libs-lib_raws :
    (ls : List MeasuredLib) (written : List ℕ) (n spos : ℕ)
    → All IsMeasuredLib ls
    → spos ≡ length written
    → place_libs
        (length ls)
        (map fdigest_of ls)
        spos
        (written ++ replicate (length (lib_strs ls) + n) 0)
      ≡ some
          (lib_raws spos ls, spos + length (lib_strs ls), (written ++ lib_strs ls) ++ replicate n 0)
unfolding place_libs
place_libs-lib_raws [] written n spos ok at_end =
    let here : spos ≡ spos + 0 = omega arith in
    let none_left : 0 + n ≡ n = omega arith in
    let nothing = append-nil written in rw (none_left, nothing, sym here) refl
place_libs-lib_raws (l ∷ ls) written n spos ok at_end =
    let path = l.path in
    let others = length (lib_strs ls) + n in
    let step = written ++ (path ++ 0 ∷ []) in
    let size = length-append path (0 ∷ lib_strs ls) in
    let room : length (path ++ 0 ∷ lib_strs ls) + n ≡ length path + suc others =
      omega (arith, size) in
    let next : spos + length path + 1 ≡ length step =
      omega (arith, at_end, length-append written (path ++ 0 ∷ []), length-append path (0 ∷ [])) in
    let copied = copy-zeros written others spos path at_end in
    let rest = place_libs-lib_raws ls step n (spos + length path + 1) ok.1 next in
    let digest : take 32 l.digest ≡ l.digest = take_all 32 l.digest (omega (arith, ok.0.1)) in
    let ends : spos + length path + 1 + length (lib_strs ls)
        ≡ spos + length (path ++ 0 ∷ lib_strs ls) =
      omega (arith, size) in
    let regroup : step ++ lib_strs ls ≡ written ++ (path ++ 0 ∷ lib_strs ls) =
      append_assoc written (path ++ 0 ∷ []) (lib_strs ls)
      ∙ ap (◌++◌ written) (append_assoc path (0 ∷ []) (lib_strs ls)) in
    rw (room, copied, rest, digest, ends, regroup) refl

module _ (path_addr libs_addr : Procinfo → ℕ) where
  -- Where the strings and the libraries of the process after this one begin.
  abbrev pub next_spos : ℕ → Measured → ℕ
  next_spos spos m = spos + length m.cmdpath + 1 + length (lib_strs m.paths)

  abbrev pub proc_raw : ℕ → ℕ → Measured → RawProc
  proc_raw spos fpos m = record (raw_copy path_addr libs_addr (procinfo_of m)) {
    spos = spos;
    fpos = if length m.paths == 0 then libs_addr (procinfo_of m) else fpos;
  }

  abbrev pub proc_raws : ℕ → ℕ → List Measured → List RawProc
  proc_raws spos fpos [] = []
  proc_raws spos fpos (m ∷ ms) =
      proc_raw spos fpos m ∷ proc_raws (next_spos spos m) (fpos + length m.paths) ms

  abbrev pub dig_raws : ℕ → List Measured → List RawDig
  dig_raws spos [] = []
  dig_raws spos (m ∷ ms) =
      lib_raws (spos + length m.cmdpath + 1) m.paths ++ dig_raws (next_spos spos m) ms

  pub place_procs-raws :
      (ms : List Measured) (written : List ℕ) (n spos fpos : ℕ)
      → All IsMeasured ms
      → spos ≡ length written
      → place_procs path_addr libs_addr
          (map procinfo_of ms)
          spos
          fpos
          (written ++ replicate (length (proc_strs ms) + n) 0)
        ≡ some
            (proc_raws spos fpos ms, dig_raws spos ms, (written ++ proc_strs ms) ++ replicate n 0)
  unfolding place_procs
  place_procs-raws [] written n spos fpos ok at_end =
      let none_left : 0 + n ≡ n = omega arith in
      let nothing = append-nil written in rw (none_left, nothing) refl
  place_procs-raws (m ∷ ms) written n spos fpos ok at_end =
      let path = m.cmdpath in
      let libs = lib_strs m.paths in
      let others = length (proc_strs ms) + n in
      let step = written ++ (path ++ 0 ∷ []) in
      let size = length-append path (0 ∷ (libs ++ proc_strs ms)) in
      let size' = length-append libs (proc_strs ms) in
      let room : length (path ++ 0 ∷ (libs ++ proc_strs ms)) + n
          ≡ length path + suc (length libs + others) =
        omega (arith, size, size') in
      let at_libs : spos + length path + 1 ≡ length step =
        omega
          (arith, at_end, length-append written (path ++ 0 ∷ []), length-append path (0 ∷ [])) in
      let at_next : next_spos spos m ≡ length (step ++ libs) =
        omega (arith, at_libs, length-append step libs) in
      let copied = copy-zeros written (length libs + others) spos path at_end in
      let own =
        place_libs-lib_raws m.paths step others (spos + length path + 1) ok.0.paths at_libs in
      let rest =
        place_procs-raws ms (step ++ libs) n (next_spos spos m) (fpos + length m.paths) ok.1
          at_next in
      let regroup : (step ++ libs) ++ proc_strs ms
          ≡ written ++ (path ++ 0 ∷ (libs ++ proc_strs ms)) =
        append_assoc step libs (proc_strs ms)
        ∙ append_assoc written (path ++ 0 ∷ []) (libs ++ proc_strs ms)
        ∙ ap (◌++◌ written) (append_assoc path (0 ∷ []) (libs ++ proc_strs ms)) in
      rw (room, copied, own, rest, regroup) refl
