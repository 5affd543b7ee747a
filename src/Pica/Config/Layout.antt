-- ===== src/Pica/Config/Layout.antt =====
-- The layout of the configuration file: `struct confhead`, and `struct procinfo` and `struct fdigest` with
-- positions in place of their pointers, as their bytes on a little-endian 64-bit machine. The four
-- bytes of padding after `count` are zero, as `extract_procinfo` clears the structures.
use portable_tls_ra.Base.{
  ℕ, zero, suc, List, [], ◌∷◌, ◌++◌, replicate, le_bytes, next_word, next_bytes,
}

pub record ConfHead : Type 0 where
  pub proc_cnt : ℕ
  pub fdig_cnt : ℕ
  pub str_size : ℕ

-- The members are words; `count` and `fpos` are those of the unions.
pub record RawProc : Type 0 where
  pub pid : ℕ
  pub ppid : ℕ
  pub ruid : ℕ
  pub rgid : ℕ
  pub euid : ℕ
  pub egid : ℕ
  pub suid : ℕ
  pub sgid : ℕ
  pub spos : ℕ
  pub digest : List ℕ
  pub count : ℕ
  pub fpos : ℕ

pub record RawDig : Type 0 where
  pub spos : ℕ
  pub digest : List ℕ

-- "PROCCNF" with its NUL.
abbrev pub procconf_magic : List ℕ
procconf_magic = 80 ∷ 82 ∷ 79 ∷ 67 ∷ 67 ∷ 78 ∷ 70 ∷ 0 ∷ []

abbrev pub confhead_size : ℕ
confhead_size = 20

abbrev pub procinfo_size : ℕ
procinfo_size = 88

abbrev pub fdigest_size : ℕ
fdigest_size = 40

-- The bytes of a structure before those that follow it.
unfoldable pub encode_head : ConfHead → List ℕ → List ℕ
encode_head h rest =
    procconf_magic
    ++ (le_bytes 4 h.proc_cnt ++ (le_bytes 4 h.fdig_cnt ++ (le_bytes 4 h.str_size ++ rest)))

unfoldable pub encode_proc : RawProc → List ℕ → List ℕ
encode_proc p rest =
    le_bytes 4 p.pid
    ++ (le_bytes 4 p.ppid
        ++ (le_bytes 4 p.ruid
            ++ (le_bytes 4 p.rgid
                ++ (le_bytes 4 p.euid
                    ++ (le_bytes 4 p.egid
                        ++ (le_bytes 4 p.suid
                            ++ (le_bytes 4 p.sgid
                                ++ (le_bytes 8 p.spos
                                    ++ (p.digest
                                        ++ (le_bytes 4 p.count
                                            ++ (replicate 4 0
                                                ++ (le_bytes 8 p.fpos ++ rest))))))))))))

unfoldable pub encode_dig : RawDig → List ℕ → List ℕ
encode_dig d rest = le_bytes 8 d.spos ++ (d.digest ++ rest)

unfoldable pub encode_procs : List RawProc → List ℕ → List ℕ
unfolding encode_proc
encode_procs [] rest = rest
encode_procs (p ∷ ps) rest = encode_proc p (encode_procs ps rest)

unfoldable pub encode_digs : List RawDig → List ℕ → List ℕ
unfolding encode_dig
encode_digs [] rest = rest
encode_digs (d ∷ ds) rest = encode_dig d (encode_digs ds rest)

-- A structure at the front of a buffer, and the rest; a buffer that is too short gives no sense.
unfoldable pub decode_head : List ℕ → ConfHead × List ℕ
decode_head bs =
    let (magic, b1) = next_bytes 8 bs in
    let (proc_cnt, b2) = next_word 4 b1 in
    let (fdig_cnt, b3) = next_word 4 b2 in
    let (str_size, b4) = next_word 4 b3 in
    (record { proc_cnt = proc_cnt; fdig_cnt = fdig_cnt; str_size = str_size }, b4)

unfoldable pub decode_proc : List ℕ → RawProc × List ℕ
decode_proc bs =
    let (pid, b1) = next_word 4 bs in
    let (ppid, b2) = next_word 4 b1 in
    let (ruid, b3) = next_word 4 b2 in
    let (rgid, b4) = next_word 4 b3 in
    let (euid, b5) = next_word 4 b4 in
    let (egid, b6) = next_word 4 b5 in
    let (suid, b7) = next_word 4 b6 in
    let (sgid, b8) = next_word 4 b7 in
    let (spos, b9) = next_word 8 b8 in
    let (digest, b10) = next_bytes 32 b9 in
    let (count, b11) = next_word 4 b10 in
    let (padding, b12) = next_bytes 4 b11 in
    let (fpos, b13) = next_word 8 b12 in
    (
      record {
        pid = pid;
        ppid = ppid;
        ruid = ruid;
        rgid = rgid;
        euid = euid;
        egid = egid;
        suid = suid;
        sgid = sgid;
        spos = spos;
        digest = digest;
        count = count;
        fpos = fpos;
      },
      b13,
    )

unfoldable pub decode_dig : List ℕ → RawDig × List ℕ
decode_dig bs =
    let (spos, b1) = next_word 8 bs in
    let (digest, b2) = next_bytes 32 b1 in (record { spos = spos; digest = digest }, b2)

unfoldable pub decode_procs : ℕ → List ℕ → List RawProc × List ℕ
unfolding decode_proc
decode_procs zero bs = ([], bs)
decode_procs (suc n) bs =
    let (p, b1) = decode_proc bs in let (ps, b2) = decode_procs n b1 in (p ∷ ps, b2)

unfoldable pub decode_digs : ℕ → List ℕ → List RawDig × List ℕ
unfolding decode_dig
decode_digs zero bs = ([], bs)
decode_digs (suc n) bs =
    let (d, b1) = decode_dig bs in let (ds, b2) = decode_digs n b1 in (d ∷ ds, b2)
