-- ===== src/Pica/Config/Relocated.antt =====
-- What `build_conf` makes of the positions: the paths and libraries that `reg_config` was given.
use portable_tls_ra.Base.{
  IsText, ℕ, zero, suc, ◌+◌, ◌^◌, ◌<◌, ◌≡◌, refl, ap, sym, ◌∙◌, some, List, [], ◌∷◌, ◌++◌, length,
  drop, map, All, append_assoc, length-append, drop-append, arith, ◌==◌, if◌then◌else◌, true, false,
}
use portable_tls_ra.Pica.Types.{Fdigest, Procinfo}
use portable_tls_ra.Pica.Procinfo.Encode.{Measured, MeasuredLib}
use portable_tls_ra.Pica.Procinfo.Roundtrip.{IsMeasured, IsMeasuredLib, fdigest_of, procinfo_of}
use portable_tls_ra.Pica.Config.Placed.{
  lib_strs, proc_strs, all_libs, lib_raws, next_spos, proc_raw, proc_raws, dig_raws,
}
use portable_tls_ra.Pica.Config.Write.{raw_copy}
use portable_tls_ra.Pica.Config.Build.{
  string_from, string_at, is_positive, relocate_dig, relocate_proc,
}

string_from_text : (s rest : List ℕ) → IsText s → string_from (s ++ 0 ∷ rest) ≡ some s
unfolding string_from
string_from_text [] rest ok = refl
string_from_text (b ∷ bs) rest ok =
    let nonzero : (b == 0) ≡ false = ground (arith, ok.0) in
    rw (nonzero, string_from_text bs rest ok.1) refl

string_at_text :
    (sbuf before s rest : List ℕ) (spos : ℕ)
    → IsText s
    → spos ≡ length before
    → sbuf ≡ before ++ (s ++ 0 ∷ rest)
    → string_at sbuf spos ≡ some s
unfolding string_at
string_at_text sbuf before s rest spos ok at is =
    rw (is, drop-append before (s ++ 0 ∷ rest) spos (sym at)) (string_from_text s rest ok)

-- What stands behind a text in the buffer.
behind_text :
    (sbuf before s rest : List ℕ)
    → sbuf ≡ before ++ (s ++ 0 ∷ rest)
    → sbuf ≡ (before ++ (s ++ 0 ∷ [])) ++ rest
behind_text sbuf before s rest is =
    is
    ∙ ap (◌++◌ before) (sym (append_assoc s (0 ∷ []) rest))
    ∙ sym (append_assoc before (s ++ 0 ∷ []) rest)

length-behind_text :
    (before s : List ℕ) → length (before ++ (s ++ 0 ∷ [])) ≡ length before + length s + 1
length-behind_text before s =
    omega (arith, length-append before (s ++ 0 ∷ []), length-append s (0 ∷ []))

pub length-map-fdigest_of : (ls : List MeasuredLib) → length (map fdigest_of ls) ≡ length ls
length-map-fdigest_of [] = refl
length-map-fdigest_of (l ∷ ls) = ap suc (length-map-fdigest_of ls)

pub map-append :
    {A B : Type 0} (f : A → B) (xs ys : List A) → map f (xs ++ ys) ≡ map f xs ++ map f ys
map-append f [] ys = refl
map-append f (x ∷ xs) ys = ap (◌∷◌ (f x)) (map-append f xs ys)

-- The strings of a process and of those behind it.
regroup :
    (m : Measured) (ms : List Measured) (after : List ℕ)
    → proc_strs (m ∷ ms) ++ after ≡ m.cmdpath ++ 0 ∷ (lib_strs m.paths ++ (proc_strs ms ++ after))
regroup m ms after =
    append_assoc m.cmdpath (0 ∷ (lib_strs m.paths ++ proc_strs ms)) after
    ∙ ap (λ b. m.cmdpath ++ 0 ∷ b) (append_assoc (lib_strs m.paths) (proc_strs ms) after)

relocate-lib_raws :
    (ls : List MeasuredLib) (sbuf before after : List ℕ) (spos : ℕ)
    → All IsMeasuredLib ls
    → spos ≡ length before
    → sbuf ≡ before ++ (lib_strs ls ++ after)
    → map (relocate_dig sbuf) (lib_raws spos ls) ≡ map fdigest_of ls
unfolding relocate_dig
relocate-lib_raws [] sbuf before after spos ok at is = refl
relocate-lib_raws (l ∷ ls) sbuf before after spos ok at is =
    let more = lib_strs ls ++ after in
    let is' = is ∙ ap (◌++◌ before) (append_assoc l.path (0 ∷ lib_strs ls) after) in
    let here = string_at_text sbuf before l.path more spos ok.0.0 at is' in
    let step = before ++ (l.path ++ 0 ∷ []) in
    let next : spos + length l.path + 1 ≡ length step =
      omega (arith, at, length-behind_text before l.path) in
    let rest =
      relocate-lib_raws ls sbuf step after (spos + length l.path + 1) ok.1 next
        (behind_text sbuf before l.path more is') in
    rw (here, rest) refl

-- A process with the libraries that its pointer leads to: those of the processes behind it follow.
abbrev pub read_proc : Measured → List Measured → Procinfo
read_proc m ms = record (procinfo_of m) {
  libs = if length m.paths == 0 then [] else map fdigest_of (m.paths ++ all_libs ms);
}

abbrev pub read_procs : List Measured → List Procinfo
read_procs [] = []
read_procs (m ∷ ms) = read_proc m ms ∷ read_procs ms

libs_read :
    (n fpos addr : ℕ) (digs rest : List Fdigest)
    → n < 2 ^ 31
    → drop fpos digs ≡ rest
    → (if is_positive n then drop (if n == 0 then addr else fpos) digs else [])
      ≡ (if n == 0 then [] else rest)
libs_read zero fpos addr digs rest few e = refl
libs_read (suc n) fpos addr digs rest few e =
    let positive : is_positive (suc n) ≡ true = ground arith in
    let nonzero : (suc n == 0) ≡ false = ground arith in rw (positive, nonzero) e

module _ (path_addr libs_addr : Procinfo → ℕ) where
  pub relocate-dig_raws :
      (ms : List Measured) (sbuf before after : List ℕ) (spos : ℕ)
      → All IsMeasured ms
      → spos ≡ length before
      → sbuf ≡ before ++ (proc_strs ms ++ after)
      → map (relocate_dig sbuf) (dig_raws path_addr libs_addr spos ms)
        ≡ map fdigest_of (all_libs ms)
  relocate-dig_raws [] sbuf before after spos ok at is = refl
  relocate-dig_raws (m ∷ ms) sbuf before after spos ok at is =
      let libs = lib_strs m.paths in
      let more = libs ++ (proc_strs ms ++ after) in
      let step = before ++ (m.cmdpath ++ 0 ∷ []) in
      let is_libs =
        behind_text sbuf before m.cmdpath more (is ∙ ap (◌++◌ before) (regroup m ms after)) in
      let at_libs : spos + length m.cmdpath + 1 ≡ length step =
        omega (arith, at, length-behind_text before m.cmdpath) in
      let own =
        relocate-lib_raws m.paths sbuf step (proc_strs ms ++ after) (spos + length m.cmdpath + 1)
          ok.0.paths at_libs is_libs in
      let at_next : next_spos path_addr libs_addr spos m ≡ length (step ++ libs) =
        omega (arith, at_libs, length-append step libs) in
      let is_next = is_libs ∙ sym (append_assoc step libs (proc_strs ms ++ after)) in
      let rest =
        relocate-dig_raws ms sbuf (step ++ libs) after (next_spos path_addr libs_addr spos m) ok.1
          at_next is_next in
      let raws = lib_raws (spos + length m.cmdpath + 1) m.paths in
      let raws' = dig_raws path_addr libs_addr (next_spos path_addr libs_addr spos m) ms in
      rw
        (
          map-append (relocate_dig sbuf) raws raws',
          own,
          rest,
          map-append fdigest_of m.paths (all_libs ms),
        )
        refl

  relocate-proc_raw :
      (m : Measured) (ms : List Measured) (sbuf : List ℕ) (digs : List Fdigest) (spos fpos : ℕ)
      → length m.paths < 2 ^ 31
      → string_at sbuf spos ≡ some m.cmdpath
      → drop fpos digs ≡ map fdigest_of (m.paths ++ all_libs ms)
      → relocate_proc sbuf digs (proc_raw path_addr libs_addr spos fpos m) ≡ read_proc m ms
  unfolding relocate_proc raw_copy
  relocate-proc_raw m ms sbuf digs spos fpos few e_path e_libs =
      let rest = map fdigest_of (m.paths ++ all_libs ms) in
      let libs = libs_read (length m.paths) fpos (libs_addr (procinfo_of m)) digs rest few e_libs in
      rw (e_path, libs) refl

  pub relocate-proc_raws :
      (ms : List Measured) (sbuf before after : List ℕ) (digs digs' : List Fdigest) (spos fpos : ℕ)
      → All IsMeasured ms
      → length (all_libs ms) < 2 ^ 31
      → spos ≡ length before
      → sbuf ≡ before ++ (proc_strs ms ++ after)
      → fpos ≡ length digs'
      → digs ≡ digs' ++ map fdigest_of (all_libs ms)
      → map (relocate_proc sbuf digs) (proc_raws path_addr libs_addr spos fpos ms) ≡ read_procs ms
  relocate-proc_raws [] sbuf before after digs digs' spos fpos ok few at is f_at f_is = refl
  relocate-proc_raws (m ∷ ms) sbuf before after digs digs' spos fpos ok few at is f_at f_is =
      let libs = lib_strs m.paths in
      let more = libs ++ (proc_strs ms ++ after) in
      let is' = is ∙ ap (◌++◌ before) (regroup m ms after) in
      let here = string_at_text sbuf before m.cmdpath more spos ok.0.cmdpath at is' in
      let step = before ++ (m.cmdpath ++ 0 ∷ []) in
      let at_next : next_spos path_addr libs_addr spos m ≡ length (step ++ libs) =
        omega (arith, at, length-behind_text before m.cmdpath, length-append step libs) in
      let is_next =
        behind_text sbuf before m.cmdpath more is'
        ∙ sym (append_assoc step libs (proc_strs ms ++ after)) in
      let own = map fdigest_of m.paths in
      let others = map fdigest_of (all_libs ms) in
      let split = map-append fdigest_of m.paths (all_libs ms) in
      let e_libs : drop fpos digs ≡ map fdigest_of (m.paths ++ all_libs ms) =
        rw f_is (drop-append digs' (map fdigest_of (m.paths ++ all_libs ms)) fpos (sym f_at)) in
      let f_next : fpos + length m.paths ≡ length (digs' ++ own) =
        omega (arith, f_at, length-append digs' own, length-map-fdigest_of m.paths) in
      let f_is' : digs ≡ (digs' ++ own) ++ others =
        f_is ∙ ap (◌++◌ digs') split ∙ sym (append_assoc digs' own others) in
      let size = length-append m.paths (all_libs ms) in
      let rest =
        relocate-proc_raws ms sbuf (step ++ libs) after digs (digs' ++ own)
          (next_spos path_addr libs_addr spos m) (fpos + length m.paths) ok.1
          (omega (arith, few, size)) at_next is_next f_next f_is' in
      let first =
        relocate-proc_raw m ms sbuf digs spos fpos (omega (arith, few, size)) here e_libs in
      ap
        (λ p.
          p
          ∷ map (relocate_proc sbuf digs) (
              proc_raws path_addr libs_addr (next_spos path_addr libs_addr spos m)
                (fpos + length m.paths) ms))
        first
      ∙ ap (◌∷◌ (read_proc m ms)) rest
