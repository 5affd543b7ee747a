-- ===== src/Tests/Measure.antt =====
-- Measurements of a library and of an executable.
use portable_tls_ra.Base.{
  ℕ, ◌+◌, ◌≡◌, ◌≤◌, refl, true, false, ◌||◌, Option, none, some, List, [], ◌∷◌, ◌++◌, Str, IsText,
  is_text-IsText, length, replicate, arith, subst,
}
use portable_tls_ra.Measure.Status.{Creds, starts_with, cred_pid}
use portable_tls_ra.Measure.Creds.{AreWords, ppid_line, uid_line, gid_line, cred_pid_roundtrip}
use portable_tls_ra.Measure.Defs.{FpHtable, FileCalls, no_digests, measure_file, sha256_file}
use portable_tls_ra.Measure.Cache.{
  Implements, remember, no_digests-Implements, sha256_file-Implements,
}
use portable_tls_ra.Measure.Libs.{
  PathEntry, MapsLine, path_exists, map_file, library_of, sha256_libs, sha256_pid,
}
use portable_tls_ra.Measure.Listed.{sha256_libs-Lists}
use portable_tls_ra.Measure.Reads.{Lists, is_named, IsReadable}
use portable_tls_ra.Measure.Stale.{sha256_pid_stale}

abbrev hash : Str → ℕ → ℕ
hash s seed = length s

-- The digest of a file repeats the number of its bytes.
abbrev digest : List ℕ → Option (List ℕ)
digest bytes = some (replicate 32 (length bytes))

abbrev readable : Str → FileCalls
readable path = record { opens = true; size = some 2; contents = some (7 ∷ 8 ∷ []) }

abbrev unreadable : Str → FileCalls
unreadable path = record { opens = false; size = none; contents = none }

-- "/a.so"
abbrev library : Str
library = 47 ∷ 97 ∷ 46 ∷ 115 ∷ 111 ∷ []

abbrev file : Str
file = replicate 9 47

-- " /a.so" with its line feed.
abbrev line : MapsLine
line = record { n = 6; start = 4096; end = 8192; pos = 40; text = 32 ∷ (library ++ 10 ∷ []) }

sha256_file_example :
    (table : FpHtable) × (sha256_file hash digest readable no_digests library file
      ≡ some (table, some (replicate 32 2)))
    × Implements hash table (remember (λ q. none) library (some (replicate 32 2)))
unfolding measure_file
sha256_file_example =
    sha256_file-Implements hash digest readable no_digests (λ q. none) library file
      (no_digests-Implements hash) (is_text-IsText library refl) (omega arith)

line-IsReadable : IsReadable hash digest readable 70 line
unfolding library_of map_file measure_file
line-IsReadable path e =
    let named : ◌≡◌ {A = Option Str} (some library) (some path) = e in
    let same : library ≡ path = cc in
    let measured : (d : List ℕ) × (measure_file digest (readable file) ≡ some d) × (length d ≡ 32) =
      (replicate 32 2, refl, refl) in
    subst
      (λ p.
        IsText p
        × (length p ≤ 28)
        × ((d : List ℕ) × (measure_file digest (readable file) ≡ some d) × (length d ≡ 32)))
      same (is_text-IsText library refl, omega arith, measured)

sha256_libs_example :
    (table : FpHtable) × (known : Str → Option (List ℕ)) × (head : List PathEntry) × (n : ℕ)
    × (sha256_libs hash digest readable 70 (some (line ∷ line ∷ [])) no_digests []
        ≡ some (table, head, some n))
    × Lists hash digest readable 70 table known head
    × (length head ≡ length {A = PathEntry} [] + n)
    × ((q : Str) → path_exists head q ≡ (path_exists [] q || is_named (line ∷ line ∷ []) q))
sha256_libs_example =
    sha256_libs-Lists hash digest readable 70 (line ∷ line ∷ []) no_digests (λ q. none) []
      (no_digests-Implements hash, tt, tt) (line-IsReadable, (line-IsReadable, tt))

sha256_pid_stale_example :
    (table table' : FpHtable) × (cmdpath : Option Str) × (sha256_pid hash digest readable 70
        (λ q. some file)
        no_digests
        4097
      ≡ some (table, some (replicate 32 2), cmdpath))
    × (sha256_pid hash digest unreadable 70 (λ q. some library) table 4097
        ≡ some (table', some (replicate 32 2), some library))
unfolding measure_file
sha256_pid_stale_example =
    sha256_pid_stale hash digest readable unreadable 70 (λ q. some file) (λ q. some library)
      no_digests (λ q. none) 4097 (replicate 32 2) library (no_digests-Implements hash) refl refl
      refl refl

abbrev creds : Creds
creds = record {
  ppid = 70;
  ruid = 1000;
  rgid = 1001;
  euid = 1000;
  egid = 1001;
  suid = 0;
  sgid = 1001;
}

creds-AreWords : AreWords creds
creds-AreWords = record {
  ppid = omega arith;
  ruid = omega arith;
  rgid = omega arith;
  euid = omega arith;
  egid = omega arith;
  suid = omega arith;
  sgid = omega arith;
}

-- "Name:"
abbrev name_line : Str
name_line = 78 ∷ 97 ∷ 109 ∷ 101 ∷ 58 ∷ []

cred_pid_example :
    cred_pid
      (some (
        name_line
        ∷ ppid_line creds
        ∷ uid_line creds 0
        ∷ name_line
        ∷ gid_line creds 0
        ∷ uid_line creds 9
        ∷ []))
      (record creds { ppid = 3 })
    ≡ (true, creds)
unfolding starts_with
cred_pid_example =
    cred_pid_roundtrip creds creds-AreWords (name_line ∷ []) [] (name_line ∷ [])
      (uid_line creds 9 ∷ []) 0 0 (record creds { ppid = 3 }) ((refl, refl, refl), tt) tt
      ((refl, refl, refl), tt)
