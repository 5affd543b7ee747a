-- ===== src/Measure/Stale.antt =====
-- What the cache of `sha256_file` does to later measurements.
use portable_tls_ra.Base.{
  ℕ, zero, suc, ◌+◌, ◌-◌, ltb, is_text-IsText, ◌/◌, ◌%◌, ◌≢◌, ◌≡◌, ◌≤◌, ◌<◌, refl, sym, ap, subst,
  ◌∙◌, Option, none, some, List, [], ◌∷◌, ◌++◌, Str, IsText, bytes_eq_refl, length, take, take_all,
  set, get_or-set_same, All-append, replicate, get_or-replicate, length-replicate, arith,
  Bool-cases, Option-cases, inl, inr,
}
use portable_tls_ra.Measure.Defs.{
  FpHentry, FpHtable, FileCalls, htable_sz, myhash, strcmp_alloc, find_from, find_hashentry,
  stored_path, measure_file, entry_digest, sha256_file, no_digests,
}
use portable_tls_ra.Measure.Cache.{
  Digests, Implements, answer, remember, sha256_file-Implements, myhash_bounds, find_no_digests,
}
use portable_tls_ra.Measure.Libs.{print_digits, digit_char, proc_dir, exe_file, sha256_pid}

strcmp_alloc_cut :
    (n : ℕ) (q rest : List ℕ) → n ≤ length q → strcmp_alloc (take n (q ++ rest)) q ≡ none
unfolding strcmp_alloc
strcmp_alloc_cut zero q rest h = refl
strcmp_alloc_cut (suc n) [] rest h = absurd (omega arith)
strcmp_alloc_cut (suc n) (c ∷ q) rest h = ground (arith, strcmp_alloc_cut n q rest (omega arith))

-- A search finds an entry that stands alone in the slot of its path, whichever path it holds.
find_alone :
    (murmur : Str → ℕ → ℕ) (table : FpHtable) (q : Str) (entry : FpHentry)
    → myhash murmur q < length table
    → strcmp_alloc entry.path q ≡ none
    → find_hashentry murmur q (set table (myhash murmur q) (entry ∷ [])) ≡ none
unfolding find_hashentry find_from
find_alone murmur table q entry bounds reads_on =
    rw (get_or-set_same table (myhash murmur q) (entry ∷ []) [] bounds, reads_on) refl

print_digits-IsText : (base n v : ℕ) → IsText (print_digits base n v)
unfolding print_digits
print_digits-IsText base zero v = tt
print_digits-IsText base (suc n) v = elim (Bool-cases (ltb v base)) [
  | inl e ↦ rw e ((λ zero_digit. ground (arith, zero_digit)), tt)
  | inr e ↦ rw e (
      All-append (λ b. b ≢ 0) (print_digits base n (v / base)) (digit_char (v % base) ∷ [])
        (print_digits-IsText base n (v / base)) ((λ zero_digit. ground (arith, zero_digit)), tt))
]

exe_file-IsText : (pid : ℕ) → IsText (exe_file pid)
unfolding exe_file
exe_file-IsText pid =
    All-append (λ b. b ≢ 0) proc_dir (print_digits 10 20 pid ++ (47 ∷ 101 ∷ 120 ∷ 101 ∷ []))
      (is_text-IsText proc_dir refl)
      (All-append (λ b. b ≢ 0) (print_digits 10 20 pid) (47 ∷ 101 ∷ 120 ∷ 101 ∷ [])
        (print_digits-IsText 10 20 pid) (is_text-IsText (47 ∷ 101 ∷ 120 ∷ 101 ∷ []) refl))

answer_known :
    (known : Digests) (libpath : Str) (measured : Option (List ℕ)) (d : List ℕ)
    → known libpath ≡ some d
    → answer known libpath measured ≡ some d
answer_known known libpath measured d e = ground (arith, e)

module _ (murmur : Str → ℕ → ℕ) (sha256 : List ℕ → Option (List ℕ)) where
  -- A library with a path longer than that of the file behind it is kept without its NUL: in a table without
  -- digests it is measured once, and the next search for the same path reads past the end of the copy.
  pub sha256_file_cut :
      (files files' : Str → FileCalls) (libpath path path' : Str)
      → length path < length libpath
      → (table : FpHtable) × (sha256_file murmur sha256 files no_digests libpath path
          ≡ some (table, measure_file sha256 (files path)))
        × (sha256_file murmur sha256 files' table libpath path' ≡ none)
  unfolding sha256_file stored_path
  sha256_file_cut files files' libpath path path' longer =
      let measured = measure_file sha256 (files path) in
      let entry : FpHentry = record {
        path = stored_path libpath path;
        digest = entry_digest measured;
      } in
      let hash = myhash murmur libpath in
      let bounds =
        subst (λ n. hash < n) (sym (length-replicate {A = List FpHentry} htable_sz []))
          (myhash_bounds murmur libpath) in
      let cut = strcmp_alloc_cut (length path + 1) libpath (0 ∷ []) (omega (arith, longer)) in
      let empty = get_or-replicate {A = List FpHentry} htable_sz hash [] in
      (
        set no_digests hash (entry ∷ []),
        rw (find_no_digests murmur libpath, empty) refl,
        rw (find_alone murmur no_digests libpath entry bounds cut) refl,
      )

  abbrev target_of : (Str → Option Str) → ℕ → ℕ → Option Str
  target_of readlink pid path_len = elim (readlink (exe_file pid)) [
    | none ↦ none
    | some target ↦ some (take (path_len - 1) target)
  ]

  sha256_pid_measured :
      (files : Str → FileCalls) (pid : ℕ) (readlink : Str → Option Str) (table table' : FpHtable)
      (path_len : ℕ) (digest : List ℕ)
      → sha256_file murmur sha256 files table (exe_file pid) (exe_file pid)
        ≡ some (table', some digest)
      → sha256_pid murmur sha256 files pid readlink table path_len
        ≡ some (table', some digest, target_of readlink pid path_len)
  unfolding sha256_pid
  sha256_pid_measured files pid readlink table table' path_len digest measured =
      rw measured (elim (Option-cases (readlink (exe_file pid))) [
        | inl e ↦ ground (arith, e)
        | inr (t, e) ↦ ground (arith, e)
      ])

  -- After sha256_pid has measured the executable of a process that the cache did not know, with a digest of 32
  -- bytes, a later call for the same number gives the same digest, whatever the executable is by then,
  -- and with it the path of the new executable.
  pub sha256_pid_stale :
      (files files' : Str → FileCalls) (pid : ℕ) (readlink readlink' : Str → Option Str)
      (table : FpHtable) (known : Digests) (path_len : ℕ) (digest : List ℕ) (target : Str)
      → Implements murmur table known
      → known (exe_file pid) ≡ none
      → measure_file sha256 (files (exe_file pid)) ≡ some digest
      → length digest ≡ 32
      → readlink' (exe_file pid) ≡ some target
      → (table' table'' : FpHtable) × (cmdpath : Option Str) × (sha256_pid murmur sha256 files pid
            readlink table path_len
          ≡ some (table', some digest, cmdpath))
        × (sha256_pid murmur sha256 files' pid readlink' table' path_len
            ≡ some (table'', some digest, some (take (path_len - 1) target)))
  sha256_pid_stale files files' pid readlink readlink' table known path_len digest target ok new
        measured whole e =
      let exe = exe_file pid in
      let first =
        sha256_file-Implements murmur sha256 files table known exe exe ok (exe_file-IsText pid)
          (omega arith) in
      let kept = first.2 in
      let second =
        sha256_file-Implements murmur sha256 files' first.0
          (remember known exe (measure_file sha256 (files exe))) exe exe kept (exe_file-IsText pid)
          (omega arith) in
      let all : take 32 digest ≡ digest = take_all 32 digest (omega (arith, whole)) in
      let now : answer known exe (measure_file sha256 (files exe)) ≡ some digest =
        ground (arith, new, measured) in
      let old : remember known exe (measure_file sha256 (files exe)) exe ≡ some digest =
        ground (arith, new, measured, bytes_eq_refl exe, all) in
      let again : answer (remember known exe (measure_file sha256 (files exe))) exe
            (measure_file sha256 (files' exe))
          ≡ some digest =
        answer_known (remember known exe (measure_file sha256 (files exe))) exe
          (measure_file sha256 (files' exe)) digest old in
      (
        first.0,
        second.0,
        target_of readlink pid path_len,
        sha256_pid_measured files pid readlink table first.0 path_len digest
            (first.1 ∙ ap (λ a. some (first.0, a)) now),
        sha256_pid_measured files' pid readlink' first.0 second.0 path_len digest
              (second.1 ∙ ap (λ a. some (second.0, a)) again)
            ∙ ap (λ c. some (second.0, some digest, c)) (ground (arith, e)),
      )

  -- If a file cannot be measured, and nothing is kept for its library, whose path is a text not longer than
  -- that of the file, sha256_file fails; but the next call for the library, with whatever file,
  -- succeeds, with a digest of 32 zeros.
  pub sha256_file_zeros :
      (files files' : Str → FileCalls) (table : FpHtable) (known : Digests)
      (libpath path path' : Str)
      → Implements murmur table known
      → IsText libpath
      → length libpath ≤ length path
      → length libpath ≤ length path'
      → known libpath ≡ none
      → measure_file sha256 (files path) ≡ none
      → (table' table'' : FpHtable) × (sha256_file murmur sha256 files table libpath path
          ≡ some (table', none))
        × (sha256_file murmur sha256 files' table' libpath path'
            ≡ some (table'', some (replicate 32 0)))
  sha256_file_zeros files files' table known libpath path path' ok text shorter shorter' new
        failed =
      let measured = measure_file sha256 (files path) in
      let known' = remember known libpath measured in
      let first =
        sha256_file-Implements murmur sha256 files table known libpath path ok text shorter in
      let second =
        sha256_file-Implements murmur sha256 files' first.0 known' libpath path' first.2 text
          shorter' in
      let now : answer known libpath measured ≡ none = ground (arith, new, failed) in
      let old : known' libpath ≡ some (replicate 32 0) =
        ground (arith, new, failed, bytes_eq_refl libpath) in
      let again =
        answer_known known' libpath (measure_file sha256 (files' path')) (replicate 32 0) old in
      (
        first.0,
        second.0,
        first.1 ∙ ap (λ a. some (first.0, a)) now,
        second.1 ∙ ap (λ a. some (second.0, a)) again,
      )
