-- ===== src/Measure/Libs.antt =====
-- `sha256_libs` of src/libmeasure.c with `trim`, `is_shared_library`, `path_exists` and `add_path`, and `sha256_pid`.
-- What `sscanf` reads of a line of /proc/<pid>/maps is a parameter.
use portable_tls_ra.Base.{
  take, ◌-◌, ℕ, zero, suc, ◌+◌, ◌/◌, ◌%◌, Bool, true, false, ◌&&◌, ◌||◌, Option, none, some, List,
  [], ◌∷◌, ◌++◌, Str, bytes_eq, ltb, leb, ◌==◌, if◌then◌else◌, ◌>>=◌,
}
use portable_tls_ra.Measure.Defs.{FpHtable, FileCalls, sha256_file}

-- `isspace` of the C locale.
abbrev pub isspace : ℕ → Bool
isspace c = c == 32 || (leb 9 c && leb c 13)

abbrev pub is_empty : Str → Bool
is_empty [] = true
is_empty (c ∷ s) = false

-- The two loops of `trim`. The second one cannot reach the first character, which is no white space.
unfoldable pub trim_start : Str → Str
trim_start [] = []
trim_start (c ∷ s) = let rest = trim_start s in if isspace c then rest else c ∷ s

unfoldable pub trim_end : Str → Str
trim_end [] = []
trim_end (c ∷ s) = let rest = trim_end s in if is_empty rest && isspace c then [] else c ∷ rest

unfoldable pub trim : Str → Str
unfolding trim_start trim_end
trim s = trim_end (trim_start s)

-- The string begins with ".so".
unfoldable pub starts_so : Str → Bool
starts_so (a ∷ b ∷ c ∷ s) = a == 46 && b == 115 && c == 111
starts_so s = false

-- `strstr(path, ".so") != NULL`
unfoldable pub is_shared_library : Str → Bool
unfolding starts_so
is_shared_library [] = false
is_shared_library (c ∷ path) = starts_so (c ∷ path) || is_shared_library path

pub record PathEntry : Type 0 where
  pub path : Str
  pub digest : List ℕ

unfoldable pub path_exists : List PathEntry → Str → Bool
path_exists [] path = false
path_exists (p ∷ head) path = bytes_eq p.path path || path_exists head path

unfoldable pub add_path : List PathEntry → Str → List ℕ → List PathEntry
add_path head path dp = record { path = path; digest = dp } ∷ head

-- A digit, and a number in a base up to 16, of at most `n` digits.
abbrev pub digit_char : ℕ → ℕ
digit_char d = if ltb d 10 then 48 + d else 87 + d

unfoldable pub print_digits : ℕ → ℕ → ℕ → Str
print_digits base zero v = []
print_digits base (suc n) v =
    let rest = print_digits base n (v / base) in
    if ltb v base then digit_char v ∷ [] else rest ++ digit_char (v % base) ∷ []

-- "/proc/"
abbrev pub proc_dir : Str
proc_dir = 47 ∷ 112 ∷ 114 ∷ 111 ∷ 99 ∷ 47 ∷ []

-- "/map_files/"
abbrev pub map_files_dir : Str
map_files_dir = 47 ∷ 109 ∷ 97 ∷ 112 ∷ 95 ∷ 102 ∷ 105 ∷ 108 ∷ 101 ∷ 115 ∷ 47 ∷ []

-- "/proc/%ld/map_files/%lx-%lx"
unfoldable pub map_file : ℕ → ℕ → ℕ → Str
unfolding print_digits
map_file pid start end =
    proc_dir
    ++ (print_digits 10 20 pid
        ++ (map_files_dir ++ (print_digits 16 16 start ++ (45 ∷ print_digits 16 16 end))))

-- "/proc/%d/exe"
unfoldable pub exe_file : ℕ → Str
unfolding print_digits
exe_file pid = proc_dir ++ (print_digits 10 20 pid ++ (47 ∷ 101 ∷ 120 ∷ 101 ∷ []))

-- What `sscanf` makes of a line: its result, the range, the position after the fields, and the text there.
pub record MapsLine : Type 0 where
  pub n : ℕ
  pub start : ℕ
  pub end : ℕ
  pub pos : ℕ
  pub text : Str

-- The line names a file in brackets, such as "[heap]".
abbrev pub is_bracketed : Str → Bool
is_bracketed [] = false
is_bracketed (c ∷ s) = c == 91

-- The path that a line gives, if it goes on to the last tests.
unfoldable pub library_of : MapsLine → Option Str
unfolding trim is_shared_library
library_of line =
    let path = trim line.text in
    if ltb line.n 6 || line.pos == 0 || is_empty line.text
    then none
    else if is_empty path || is_bracketed path
    then none
    else if is_shared_library path
    then some path
    else none

module _ (murmur : Str → ℕ → ℕ) (sha256 : List ℕ → Option (List ℕ)) (files : Str → FileCalls)
    (pid : ℕ) where
  -- The loop over the lines, with `count`.
  unfoldable pub libs_from :
      List MapsLine → FpHtable → List PathEntry → ℕ → Option (FpHtable × List PathEntry × ℕ)
  libs_from [] table head count = some (table, head, count)
  libs_from (line ∷ lines) table head count =
      let skip = libs_from lines table head count in
      elim (library_of line) [
        | none ↦ skip
        | some path ↦
            if path_exists head path
            then skip
            else (sha256_file murmur sha256 files table path (map_file pid line.start line.end)
                >>= λ r. elim r.1 [
                  | none ↦ libs_from lines r.0 head count
                  | some dig ↦ libs_from lines r.0 (add_path head path dig) (suc count)
                ])
      ]

  -- The table and the list after the call, and the result; the inner `none` is -1, for a process whose maps cannot be
  -- opened.
  unfoldable pub sha256_libs :
      Option (List MapsLine)
      → FpHtable
      → List PathEntry
      → Option (FpHtable × List PathEntry × Option ℕ)
  sha256_libs none table head = some (table, head, none)
  sha256_libs (some maps) table head =
      libs_from maps table head 0 >>= λ r. some (r.0, r.1, some r.2)

  -- The table, the digest (`none` for the result -1), and the bytes in `cmdpath` before the NUL that
  -- is put behind them, `none` if it is left as it was. `readlink` gives the target of the link.
  unfoldable pub sha256_pid :
      (Str → Option Str) → FpHtable → ℕ → Option (FpHtable × Option (List ℕ) × Option Str)
  sha256_pid readlink table path_len =
      sha256_file murmur sha256 files table (exe_file pid) (exe_file pid) >>= λ r. elim r.1 [
        | none ↦ some (r.0, none, none)
        | some digest ↦ elim (readlink (exe_file pid)) [
          | none ↦ some (r.0, some digest, none)
          | some target ↦ some (r.0, some digest, some (take (path_len - 1) target))
        ]
      ]
