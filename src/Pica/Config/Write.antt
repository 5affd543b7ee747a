-- ===== src/Pica/Config/Write.antt =====
-- `reg_config` of src/libpica_clnt.c up to `file_seal_write`, to which it gives the bytes, and
-- `pica_reg_config`. `none` stands for a read through NULL, or a write past a buffer.
use portable_tls_ra.Base.{
  ℕ, zero, suc, ◌+◌, Option, none, some, List, [], ◌∷◌, ◌++◌, Str, length, take, drop, map,
  replicate, ltb, ◌==◌, if◌then◌else◌, ◌>>=◌,
}
use portable_tls_ra.Pica.Types.{Fdigest, Procinfo}
use portable_tls_ra.Pica.Config.Layout.{RawProc, RawDig, encode_head, encode_procs, encode_digs}
use portable_tls_ra.Pica.Evidence.Types.{External}
use portable_tls_ra.Pica.Procinfo.Defs.{pica_extract_pinfo}

-- The room for the paths of `n` libraries.
unfoldable pub libs_size : ℕ → List Fdigest → Option ℕ
libs_size zero libs = some 0
libs_size (suc n) [] = none
libs_size (suc n) (f ∷ libs) =
    f.path >>= λ path. libs_size n libs >>= λ rest. some (length path + 1 + rest)

-- The first loop: `ssz` and `fdcnt`; it ends at a process without a path.
unfoldable pub conf_sizes : List Procinfo → Option (ℕ × ℕ)
unfolding libs_size
conf_sizes [] = some (0, 0)
conf_sizes (p ∷ pinfo) = elim p.path [
  | none ↦ some (0, 0)
  | some path ↦ libs_size p.count p.libs >>= λ libs.
      conf_sizes pinfo >>= λ rest. some (length path + 1 + libs + rest.0, p.count + rest.1)
]

-- `memcpy(&sbuf[spos], path, len)`
unfoldable pub copy_string : List ℕ → ℕ → Str → Option (List ℕ)
copy_string sbuf spos path =
    if ltb (length sbuf) (spos + length path)
    then none
    else some (take spos sbuf ++ (path ++ drop (spos + length path) sbuf))

-- The loop over the libraries of a process: the structures, and `spos` and the string buffer after it.
unfoldable pub place_libs : ℕ → List Fdigest → ℕ → List ℕ → Option (List RawDig × ℕ × List ℕ)
unfolding copy_string
place_libs zero libs spos sbuf = some ([], spos, sbuf)
place_libs (suc n) [] spos sbuf = none
place_libs (suc n) (f ∷ libs) spos sbuf = f.path >>= λ path. copy_string sbuf spos path >>= λ sbuf'.
    place_libs n libs (spos + length path + 1) sbuf' >>= λ r.
    some (record { spos = spos; digest = take 32 f.digest } ∷ r.0, r.1, r.2)

module _ (path_addr libs_addr : Procinfo → ℕ) where
  -- The copy of a process before its pointers are replaced; they are given by their addresses.
  unfoldable pub raw_copy : Procinfo → RawProc
  raw_copy p = record {
    pid = p.pid;
    ppid = p.ppid;
    ruid = p.ruid;
    rgid = p.rgid;
    euid = p.euid;
    egid = p.egid;
    suid = p.suid;
    sgid = p.sgid;
    spos = path_addr p;
    digest = p.digest;
    count = p.count;
    fpos = libs_addr p;
  }

  -- The second loop, which ends at a process without a path.
  unfoldable pub place_procs :
      List Procinfo → ℕ → ℕ → List ℕ → Option (List RawProc × List RawDig × List ℕ)
  unfolding copy_string place_libs raw_copy
  place_procs [] spos fpos sbuf = some ([], [], sbuf)
  place_procs (p ∷ pinfo) spos fpos sbuf = elim p.path [
    | none ↦ some (map raw_copy (p ∷ pinfo), [], sbuf)
    | some path ↦ copy_string sbuf spos path >>= λ sbuf'.
        place_libs p.count p.libs (spos + length path + 1) sbuf' >>= λ r.
        place_procs pinfo r.1 (fpos + p.count) r.2 >>= λ t. some (
          record (raw_copy p) { spos = spos; fpos = if p.count == 0 then libs_addr p else fpos }
              ∷ t.0,
          r.0 ++ t.1,
          t.2,
        )
  ]

  unfoldable pub reg_config : List Procinfo → Option (List ℕ)
  unfolding conf_sizes place_procs encode_head encode_procs encode_digs
  reg_config pinfo = conf_sizes pinfo >>= λ sizes.
      place_procs pinfo 0 0 (replicate sizes.0 0) >>= λ placed. some (
        encode_head (record { proc_cnt = length pinfo; fdig_cnt = sizes.1; str_size = sizes.0 })
          (encode_procs placed.0 (encode_digs placed.1 placed.2)))

  -- The extraction returns -1, never 0, when there is nothing to register, and `reg_config` then
  -- copies from NULL.
  unfoldable pub pica_reg_config : {Key : Type 0} → External Key → List ℕ → List ℕ → Option (List ℕ)
  unfolding reg_config
  pica_reg_config ext heap picabody =
      pica_extract_pinfo ext heap picabody >>= λ r. r >>= λ extracted. reg_config extracted.1
