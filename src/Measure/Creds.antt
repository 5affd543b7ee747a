-- ===== src/Measure/Creds.antt =====
-- A status file with the lines that the kernel prints is read by `cred_pid`.
use portable_tls_ra.Base.{
  ℕ, suc, ◌^◌, ◌<◌, ◌≡◌, refl, ap, ◌∙◌, true, false, some, List, [], ◌∷◌, ◌++◌, Str, All, arith,
}
use portable_tls_ra.Measure.Libs.{print_digits}
use portable_tls_ra.Measure.Status.{
  Creds, minus_one_32, starts_with, scan_three, key_ppid_line, key_uid_line, key_gid_line,
  with_ppid, with_uids, with_gids, creds_from, cred_pid,
}
use portable_tls_ra.Measure.Digits.{Ends, HasDigits, scan_int-print_digits}

word-HasDigits : (v : ℕ) → v < 2 ^ 32 → HasDigits 20 v
word-HasDigits v h = omega arith

-- A tab and a number.
abbrev pub tabbed : ℕ → Str → Str
tabbed v rest = 9 ∷ (print_digits 10 20 v ++ rest)

scan_three-tabbed :
    (a b c : ℕ) (rest : Str)
    → a < 2 ^ 32
    → b < 2 ^ 32
    → c < 2 ^ 32
    → Ends rest
    → scan_three (tabbed a (tabbed b (tabbed c rest))) ≡ some (a, b, c)
unfolding scan_three
scan_three-tabbed a b c rest ha hb hc ends =
    let first = scan_int-print_digits a (tabbed b (tabbed c rest)) (word-HasDigits a ha) refl in
    let second = scan_int-print_digits b (tabbed c rest) (word-HasDigits b hb) refl in
    let third = scan_int-print_digits c rest (word-HasDigits c hc) ends in
    rw (first, second, third) refl

-- The lines with the credentials; `fs` is the fourth identifier.
abbrev pub ppid_line : Creds → Str
ppid_line c = key_ppid_line ++ tabbed c.ppid (10 ∷ [])

abbrev pub uid_line : Creds → ℕ → Str
uid_line c fs = key_uid_line ++ tabbed c.ruid (tabbed c.euid (tabbed c.suid (tabbed fs (10 ∷ []))))

abbrev pub gid_line : Creds → ℕ → Str
gid_line c fs = key_gid_line ++ tabbed c.rgid (tabbed c.egid (tabbed c.sgid (tabbed fs (10 ∷ []))))

-- A line of none of the three kinds.
abbrev pub IsOtherLine : Str → Type 0
IsOtherLine line =
    (starts_with key_ppid_line line ≡ false)
    × (starts_with key_uid_line line ≡ false)
    × (starts_with key_gid_line line ≡ false)

pub record AreWords (c : Creds) : Type 0 where
  pub ppid : c.ppid < 2 ^ 32
  pub ruid : c.ruid < 2 ^ 32
  pub rgid : c.rgid < 2 ^ 32
  pub euid : c.euid < 2 ^ 32
  pub egid : c.egid < 2 ^ 32
  pub suid : c.suid < 2 ^ 32
  pub sgid : c.sgid < 2 ^ 32

creds_from_others :
    (others lines : List Str) (left : ℕ) (creds : Creds)
    → All IsOtherLine others
    → creds_from (others ++ lines) (suc left) creds ≡ creds_from lines (suc left) creds
unfolding creds_from
creds_from_others [] lines left creds ok = refl
creds_from_others (line ∷ others) lines left creds ok =
    rw (ok.0.0, ok.0.1, ok.0.2) (creds_from_others others lines left creds ok.1)

creds_from_done : (lines : List Str) (creds : Creds) → creds_from lines 0 creds ≡ creds
unfolding creds_from
creds_from_done [] creds = refl
creds_from_done (line ∷ lines) creds = refl

module _ (c : Creds) (ok : AreWords c) where
  creds_from-ppid_line :
      (lines : List Str) (left : ℕ) (creds : Creds)
      → creds_from (ppid_line c ∷ lines) (suc left) creds
        ≡ creds_from lines left (record creds { ppid = c.ppid })
  unfolding creds_from starts_with with_ppid
  creds_from-ppid_line lines left creds =
      rw (scan_int-print_digits c.ppid (10 ∷ []) (word-HasDigits c.ppid ok.ppid) refl) refl

  creds_from-uid_line :
      (lines : List Str) (left : ℕ) (creds : Creds) (fs : ℕ)
      → creds_from (uid_line c fs ∷ lines) (suc left) creds
        ≡ creds_from lines left (record creds { ruid = c.ruid; euid = c.euid; suid = c.suid })
  unfolding creds_from starts_with with_uids
  creds_from-uid_line lines left creds fs =
      rw (scan_three-tabbed c.ruid c.euid c.suid (tabbed fs (10 ∷ [])) ok.ruid ok.euid ok.suid refl)
        refl

  creds_from-gid_line :
      (lines : List Str) (left : ℕ) (creds : Creds) (fs : ℕ)
      → creds_from (gid_line c fs ∷ lines) (suc left) creds
        ≡ creds_from lines left (record creds { rgid = c.rgid; egid = c.egid; sgid = c.sgid })
  unfolding creds_from starts_with with_gids
  creds_from-gid_line lines left creds fs =
      rw (scan_three-tabbed c.rgid c.egid c.sgid (tabbed fs (10 ∷ [])) ok.rgid ok.egid ok.sgid refl)
        refl

  -- From a status file in which the lines "PPid:", "Uid:" and "Gid:" stand in this order, with other lines
  -- anywhere, and hold 32-bit numbers in decimal behind tabs, cred_pid returns 0 with the parent and
  -- the real, effective and saved users and groups of these lines, whatever the variables held before,
  -- the fourth numbers are, and the lines behind the three say.
  pub cred_pid_roundtrip :
      (l1 l2 l3 lines : List Str) (fs_uid fs_gid : ℕ) (before : Creds)
      → All IsOtherLine l1
      → All IsOtherLine l2
      → All IsOtherLine l3
      → cred_pid
          (some (l1 ++ ppid_line c ∷ (l2 ++ uid_line c fs_uid ∷ (l3 ++ gid_line c fs_gid ∷ lines))))
          before
        ≡ (true, c)
  unfolding cred_pid
  cred_pid_roundtrip l1 l2 l3 lines fs_uid fs_gid before ok1 ok2 ok3 =
      let r3 = gid_line c fs_gid ∷ lines in
      let r2 = uid_line c fs_uid ∷ (l3 ++ r3) in
      let r1 = ppid_line c ∷ (l2 ++ r2) in
      let c0 : Creds = record {
        ppid = minus_one_32;
        ruid = minus_one_32;
        rgid = minus_one_32;
        euid = minus_one_32;
        egid = minus_one_32;
        suid = minus_one_32;
        sgid = minus_one_32;
      } in
      let c1 : Creds = record c0 { ppid = c.ppid } in
      let c2 : Creds = record c1 { ruid = c.ruid; euid = c.euid; suid = c.suid } in
      ap (λ r. (true, r))
        (creds_from_others l1 r1 2 c0 ok1
          ∙ creds_from-ppid_line (l2 ++ r2) 2 c0
          ∙ creds_from_others l2 r2 1 c1 ok2
          ∙ creds_from-uid_line (l3 ++ r3) 1 c1 fs_uid
          ∙ creds_from_others l3 r3 0 c2 ok3
          ∙ creds_from-gid_line lines 0 c2 fs_gid
          ∙ creds_from_done lines c)
