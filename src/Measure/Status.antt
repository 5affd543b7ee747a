-- ===== src/Measure/Status.antt =====
-- `cred_pid` of tpm2/libprocchain.c: the parent and the users of a process, from the lines of its status file.
use portable_tls_ra.Base.{
  ℕ, zero, suc, ◌+◌, ◌-◌, ◌*◌, ◌%◌, ◌^◌, Bool, true, false, ◌&&◌, Option, none, some, List, [], ◌∷◌,
  Str, drop, leb, ◌==◌, if◌then◌else◌, ◌>>=◌,
}
use portable_tls_ra.Measure.Libs.{isspace}

-- `strncmp(line, key, strlen(key)) == 0`
unfoldable pub starts_with : Str → Str → Bool
starts_with [] line = true
starts_with (c ∷ key) [] = false
starts_with (c ∷ key) (d ∷ line) = d == c && starts_with key line

abbrev pub isdigit : ℕ → Bool
isdigit c = leb 48 c && leb c 57

-- The number that the digits at the front continue, and what follows them.
unfoldable pub read_digits : ℕ → Str → ℕ × Str
read_digits acc [] = (acc, [])
read_digits acc (c ∷ s) =
    let rest = read_digits (acc * 10 + (c - 48)) s in if isdigit c then rest else (acc, c ∷ s)

-- A number with at least one digit.
unfoldable pub read_number : Str → Option (ℕ × Str)
read_number [] = none
read_number (c ∷ s) = if isdigit c then some (read_digits 0 (c ∷ s)) else none

-- A sign, and the number as a 32-bit word.
unfoldable pub read_signed : Str → Option (ℕ × Str)
read_signed [] = none
read_signed (c ∷ s) =
    if c == 45
    then (read_number s >>= λ r. some ((2 ^ 32 - r.0) % 2 ^ 32, r.1))
    else if c == 43
    then read_number s
    else read_number (c ∷ s)

-- "%d" of `sscanf`: white space, a sign, and digits of a number that an `int` holds.
unfoldable pub scan_int : Str → Option (ℕ × Str)
scan_int [] = none
scan_int (c ∷ s) = let rest = scan_int s in if isspace c then rest else read_signed (c ∷ s)

-- `sscanf` with "%d %d %d", if its result is 3.
unfoldable pub scan_three : Str → Option (ℕ × ℕ × ℕ)
scan_three s = scan_int s >>= λ a. scan_int a.1 >>= λ b. scan_int b.1 >>= λ c. some (a.0, b.0, c.0)

-- The variables of the caller.
pub record Creds : Type 0 where
  pub ppid : ℕ
  pub ruid : ℕ
  pub rgid : ℕ
  pub euid : ℕ
  pub egid : ℕ
  pub suid : ℕ
  pub sgid : ℕ

-- -1 as a 32-bit word.
abbrev pub minus_one_32 : ℕ
minus_one_32 = 2 ^ 32 - 1

-- "PPid:"
abbrev pub key_ppid_line : Str
key_ppid_line = 80 ∷ 80 ∷ 105 ∷ 100 ∷ 58 ∷ []

-- "Uid:"
abbrev pub key_uid_line : Str
key_uid_line = 85 ∷ 105 ∷ 100 ∷ 58 ∷ []

-- "Gid:"
abbrev pub key_gid_line : Str
key_gid_line = 71 ∷ 105 ∷ 100 ∷ 58 ∷ []

unfoldable pub with_ppid : Option (ℕ × Str) → Creds → Creds
with_ppid none creds = record creds { ppid = minus_one_32 }
with_ppid (some r) creds = record creds { ppid = r.0 }

unfoldable pub with_uids : Option (ℕ × ℕ × ℕ) → Creds → Creds
with_uids none creds = record creds {
  ruid = minus_one_32;
  euid = minus_one_32;
  suid = minus_one_32;
}
with_uids (some r) creds = record creds { ruid = r.0; euid = r.1; suid = r.2 }

unfoldable pub with_gids : Option (ℕ × ℕ × ℕ) → Creds → Creds
with_gids none creds = record creds {
  rgid = minus_one_32;
  egid = minus_one_32;
  sgid = minus_one_32;
}
with_gids (some r) creds = record creds { rgid = r.0; egid = r.1; sgid = r.2 }

-- The loop; `left` is 3 - `pass`.
unfoldable pub creds_from : List Str → ℕ → Creds → Creds
creds_from [] left creds = creds
creds_from (line ∷ lines) zero creds = creds
creds_from (line ∷ lines) (suc left) creds =
    if starts_with key_ppid_line line
    then creds_from lines left (with_ppid (scan_int (drop 5 line)) creds)
    else if starts_with key_uid_line line
    then creds_from lines left (with_uids (scan_three (drop 4 line)) creds)
    else if starts_with key_gid_line line
    then creds_from lines left (with_gids (scan_three (drop 4 line)) creds)
    else creds_from lines (suc left) creds

-- Whether the result is 0 (it is -1 else), and the variables, which are left alone if the file cannot be
-- opened.
unfoldable pub cred_pid : Option (List Str) → Creds → Bool × Creds
cred_pid none creds = (false, creds)
cred_pid (some status) creds = (
  true,
  creds_from status 3 (record {
    ppid = minus_one_32;
    ruid = minus_one_32;
    rgid = minus_one_32;
    euid = minus_one_32;
    egid = minus_one_32;
    suid = minus_one_32;
    sgid = minus_one_32;
  }),
)
