-- ===== src/Pica/Config/Build.antt =====
-- `build_conf` and `pica_read_config` of src/libpica_clnt.c. `none` stands for a read outside of the
-- buffer; a path that does not end in the buffer is `none` as well.
use portable_tls_ra.Base.{
  ℕ, ◌+◌, ◌-◌, ◌*◌, ◌%◌, ◌^◌, Bool, not, ◌&&◌, ◌||◌, Option, none, some, List, [], ◌∷◌, Str, length,
  drop, map, ltb, leb, ◌==◌, if◌then◌else◌, ◌>>=◌,
}
use portable_tls_ra.Pica.Types.{Fdigest, Procinfo}
use portable_tls_ra.Pica.Hashtable.Defs.{Slot, reg_procs}
use portable_tls_ra.Pica.Config.Layout.{
  ConfHead, RawProc, RawDig, confhead_size, procinfo_size, fdigest_size, decode_head, decode_procs,
  decode_digs,
}

-- The C string at the front of a buffer.
unfoldable pub string_from : List ℕ → Option Str
string_from [] = none
string_from (b ∷ bs) = if b == 0 then some [] else string_from bs >>= λ s. some (b ∷ s)

-- The string that `sbuf + spos` points to.
unfoldable pub string_at : List ℕ → ℕ → Option Str
unfolding string_from
string_at sbuf spos = string_from (drop spos sbuf)

-- An `int` above 0.
abbrev pub is_positive : ℕ → Bool
is_positive n = leb 1 n && ltb n (2 ^ 31)

-- An `int` as the `size_t` that it is converted to.
abbrev pub size_of_int : ℕ → ℕ
size_of_int n = if ltb n (2 ^ 31) then n else n + (2 ^ 64 - 2 ^ 32)

unfoldable pub relocate_dig : List ℕ → RawDig → Fdigest
relocate_dig sbuf d = record { path = string_at sbuf d.spos; digest = d.digest }

-- The libraries of a process are all that follow in the array; those of a process without any
-- cannot be read.
unfoldable pub relocate_proc : List ℕ → List Fdigest → RawProc → Procinfo
relocate_proc sbuf digs p = record {
  pid = p.pid;
  ppid = p.ppid;
  ruid = p.ruid;
  rgid = p.rgid;
  euid = p.euid;
  egid = p.egid;
  suid = p.suid;
  sgid = p.sgid;
  path = string_at sbuf p.spos;
  digest = p.digest;
  count = p.count;
  libs = if is_positive p.count then drop p.fpos digs else [];
}

-- `sz` of the size check.
abbrev pub conf_size : ConfHead → ℕ
conf_size head =
    (confhead_size
      + procinfo_size * size_of_int head.proc_cnt
      + fdigest_size * size_of_int head.fdig_cnt
      + size_of_int head.str_size)
    % 2 ^ 64

-- The arrays behind the head, and the strings behind them.
unfoldable pub relocate_all : ConfHead → List ℕ → List Procinfo
unfolding relocate_dig relocate_proc decode_procs decode_digs
relocate_all head body =
    let (procs, b1) = decode_procs head.proc_cnt body in
    let (digs, sbuf) = decode_digs head.fdig_cnt b1 in
    map (relocate_proc sbuf (map (relocate_dig sbuf) digs)) procs

-- `build_conf` after it has read the head: the count, and the array if `*pinfop` is set. A negative
-- count moves the pointers off the buffer.
unfoldable pub build_body : ConfHead → List ℕ → ℕ → Option (ℕ × Option (List Procinfo))
build_body head body sz =
    if not (sz == conf_size head)
    then some (0, none)
    else if leb (2 ^ 31) head.proc_cnt || leb (2 ^ 31) head.fdig_cnt
    then none
    else if ltb (length body) (procinfo_size * head.proc_cnt + fdigest_size * head.fdig_cnt)
    then none
    else some (head.proc_cnt, some (relocate_all head body))

unfoldable pub build_conf : List ℕ → ℕ → Option (ℕ × Option (List Procinfo))
build_conf buf sz =
    if ltb (length buf) confhead_size
    then none
    else (let (head, body) = decode_head buf in build_body head body sz)

-- What is behind `*procinfo` when the loop begins; it is not read after 0 entries.
abbrev pub procs_of : Option (List Procinfo) → List Procinfo
procs_of none = []
procs_of (some ps) = ps

-- The file as `file_seal_read_close` decrypts it, `none` if it cannot be opened; the entries with
-- the array, and the hash table.
unfoldable pub pica_read_config :
    (Str → ℕ → ℕ)
    → Option (List ℕ)
    → List (Slot Procinfo)
    → Option (ℕ × List Procinfo × List (Slot Procinfo))
unfolding build_conf
pica_read_config murmur none table = some (0, [], table)
pica_read_config murmur (some buffer) table = build_conf buffer (length buffer) >>= λ r.
    reg_procs murmur r.0 (procs_of r.1) table >>= λ table'. some (r.0, procs_of r.1, table')
