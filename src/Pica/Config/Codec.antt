-- ===== src/Pica/Config/Codec.antt =====
-- Reading back the structures of the configuration file.
use portable_tls_ra.Base.{
  le_word-take, drop-le_bytes, length-le_bytes-append, ℕ, ◌+◌, ◌*◌, ◌^◌, ◌<◌, ◌≡◌, refl, ap, ◌∙◌,
  List, [], ◌∷◌, ◌++◌, length, All, length-append, take-append, drop-append, word32-Fits,
  word64-Fits, arith,
}
use portable_tls_ra.Pica.Config.Layout.{
  ConfHead, RawProc, RawDig, encode_head, encode_proc, encode_dig, encode_procs, encode_digs,
  decode_head, decode_proc, decode_dig, decode_procs, decode_digs,
}

-- The words of a structure in range, and its digest of 32 bytes.
pub record IsRawProc (p : RawProc) : Type 0 where
  pub pid : p.pid < 2 ^ 32
  pub ppid : p.ppid < 2 ^ 32
  pub ruid : p.ruid < 2 ^ 32
  pub rgid : p.rgid < 2 ^ 32
  pub euid : p.euid < 2 ^ 32
  pub egid : p.egid < 2 ^ 32
  pub suid : p.suid < 2 ^ 32
  pub sgid : p.sgid < 2 ^ 32
  pub spos : p.spos < 2 ^ 64
  pub digest : length p.digest ≡ 32
  pub count : p.count < 2 ^ 32
  pub fpos : p.fpos < 2 ^ 64

abbrev pub IsRawDig : RawDig → Type 0
IsRawDig d = (d.spos < 2 ^ 64) × (length d.digest ≡ 32)

decode_dig-encode_dig :
    (d : RawDig) (rest : List ℕ) → IsRawDig d → decode_dig (encode_dig d rest) ≡ (d, rest)
unfolding decode_dig encode_dig
decode_dig-encode_dig d rest h =
    let spos = le_word-take 8 d.spos (word64-Fits d.spos h.0) (d.digest ++ rest) in
    let b1 = drop-le_bytes 8 d.spos (d.digest ++ rest) in
    let digest = take-append d.digest rest 32 h.1 in
    let b2 = drop-append d.digest rest 32 h.1 in rw (spos, b1, digest, b2) refl

pub decode_head-encode_head :
    (h : ConfHead) (rest : List ℕ)
    → h.proc_cnt < 2 ^ 32
    → h.fdig_cnt < 2 ^ 32
    → h.str_size < 2 ^ 32
    → decode_head (encode_head h rest) ≡ (h, rest)
unfolding decode_head encode_head
decode_head-encode_head h rest h1 h2 h3 =
    let e1 = le_word-take 4 h.proc_cnt (word32-Fits h.proc_cnt h1) in
    let e2 = le_word-take 4 h.fdig_cnt (word32-Fits h.fdig_cnt h2) in
    let e3 = le_word-take 4 h.str_size (word32-Fits h.str_size h3) in
    simp (drop-le_bytes, e1, e2, e3)

decode_proc-encode_proc :
    (p : RawProc) (rest : List ℕ) → IsRawProc p → decode_proc (encode_proc p rest) ≡ (p, rest)
unfolding decode_proc encode_proc
decode_proc-encode_proc p rest h =
    let e1 = le_word-take 4 p.pid (word32-Fits p.pid h.pid) in
    let e2 = le_word-take 4 p.ppid (word32-Fits p.ppid h.ppid) in
    let e3 = le_word-take 4 p.ruid (word32-Fits p.ruid h.ruid) in
    let e4 = le_word-take 4 p.rgid (word32-Fits p.rgid h.rgid) in
    let e5 = le_word-take 4 p.euid (word32-Fits p.euid h.euid) in
    let e6 = le_word-take 4 p.egid (word32-Fits p.egid h.egid) in
    let e7 = le_word-take 4 p.suid (word32-Fits p.suid h.suid) in
    let e8 = le_word-take 4 p.sgid (word32-Fits p.sgid h.sgid) in
    let e9 = le_word-take 8 p.spos (word64-Fits p.spos h.spos) in
    let e10 = λ (r : List ℕ). take-append p.digest r 32 h.digest in
    let b10 = λ (r : List ℕ). drop-append p.digest r 32 h.digest in
    let e11 = le_word-take 4 p.count (word32-Fits p.count h.count) in
    let e12 = le_word-take 8 p.fpos (word64-Fits p.fpos h.fpos) in
    simp (drop-le_bytes, e1, e2, e3, e4, e5, e6, e7, e8, e9, e10, b10, e11, e12)

-- A structure in front of what the decoder of the others gives.
abbrev next_proc : ℕ → RawProc × List ℕ → List RawProc × List ℕ
next_proc n r = (r.0 ∷ (decode_procs n r.1).0, (decode_procs n r.1).1)

pub decode_procs-encode_procs :
    (ps : List RawProc) (rest : List ℕ)
    → All IsRawProc ps
    → decode_procs (length ps) (encode_procs ps rest) ≡ (ps, rest)
unfolding decode_procs encode_procs
decode_procs-encode_procs [] rest h = refl
decode_procs-encode_procs (p ∷ ps) rest h =
    let front = decode_proc-encode_proc p (encode_procs ps rest) h.0 in
    let back = decode_procs-encode_procs ps rest h.1 in
    ap (next_proc (length ps)) front ∙ ap (λ r. (p ∷ r.0, r.1)) back

-- A structure in front of what the decoder of the others gives.
abbrev next_dig : ℕ → RawDig × List ℕ → List RawDig × List ℕ
next_dig n r = (r.0 ∷ (decode_digs n r.1).0, (decode_digs n r.1).1)

pub decode_digs-encode_digs :
    (ds : List RawDig) (rest : List ℕ)
    → All IsRawDig ds
    → decode_digs (length ds) (encode_digs ds rest) ≡ (ds, rest)
unfolding decode_digs encode_digs
decode_digs-encode_digs [] rest h = refl
decode_digs-encode_digs (d ∷ ds) rest h =
    let front = decode_dig-encode_dig d (encode_digs ds rest) h.0 in
    let back = decode_digs-encode_digs ds rest h.1 in
    ap (next_dig (length ds)) front ∙ ap (λ r. (d ∷ r.0, r.1)) back

pub length-encode_head :
    (h : ConfHead) (rest : List ℕ) → length (encode_head h rest) ≡ 20 + length rest
unfolding encode_head
length-encode_head h rest = simp length-le_bytes-append (omega arith)

pub length-encode_procs :
    (ps : List RawProc) (rest : List ℕ)
    → All IsRawProc ps
    → length (encode_procs ps rest) ≡ 88 * length ps + length rest
unfolding encode_procs encode_proc
length-encode_procs [] rest h = omega arith
length-encode_procs (p ∷ ps) rest h =
    let e = λ (r : List ℕ). length-append p.digest r in
    let tail = length-encode_procs ps rest h.1 in
    simp (length-le_bytes-append, e, h.0.digest, tail) (omega arith)

pub length-encode_digs :
    (ds : List RawDig) (rest : List ℕ)
    → All IsRawDig ds
    → length (encode_digs ds rest) ≡ 40 * length ds + length rest
unfolding encode_digs encode_dig
length-encode_digs [] rest h = omega arith
length-encode_digs (d ∷ ds) rest h =
    let front = length-append d.digest (encode_digs ds rest) in
    let tail = length-encode_digs ds rest h.1 in
    simp (length-le_bytes-append, front, h.0.1, tail) (omega arith)
