-- ===== src/Pica/Procinfo/Roundtrip.antt =====
-- What the daemon encodes of the processes is what the client extracts.
use portable_tls_ra.Base.{
  IsText, ℕ, suc, ◌+◌, ◌-◌, ◌^◌, ◌<◌, ◌≡◌, refl, some, List, [], ◌∷◌, length, map, take, take_all,
  replicate, All, arith,
}
use portable_tls_ra.Pica.Types.{Fdigest, Procinfo}
use portable_tls_ra.Pica.Evidence.Types.{
  CborItem, cbor_uint, cbor_bytestring, cbor_array, cbor_map, External,
}
use portable_tls_ra.Pica.Evidence.Extract.{unpack_sercbor}
use portable_tls_ra.Pica.Procinfo.Encode.{
  Measured, MeasuredLib, lib_pair, mycbor_sha256_binaries, sign_extended,
}
use portable_tls_ra.Pica.Procinfo.Defs.{
  c_string, id_field, mycbor_get_int, mycbor_get_string, mycbor_copy_bstring, extract_lib,
  extract_proc, extract_procs, extract_procinfo, pica_extract_pinfo,
}

pub c_string-IsText : (s : List ℕ) → IsText s → c_string s ≡ s
unfolding c_string
c_string-IsText [] h = refl
c_string-IsText (b ∷ bs) h = ground (arith, c_string-IsText bs h.1)

-- A library whose path is a text, with a SHA-256 digest.
abbrev pub IsMeasuredLib : MeasuredLib → Type 0
IsMeasuredLib l = IsText l.path × (length l.digest ≡ 32)

abbrev pub IsWord : ℕ → Type 0
IsWord n = n < 2 ^ 32

-- The identifiers are 32-bit words, the paths texts, and the digests have 32 bytes.
pub record IsMeasured (m : Measured) : Type 0 where
  pub pid : IsWord m.pid
  pub ppid : IsWord m.ppid
  pub ruid : IsWord m.ruid
  pub rgid : IsWord m.rgid
  pub euid : IsWord m.euid
  pub egid : IsWord m.egid
  pub suid : IsWord m.suid
  pub sgid : IsWord m.sgid
  pub cmdpath : IsText m.cmdpath
  pub digest : length m.digest ≡ 32
  pub paths : All IsMeasuredLib m.paths

abbrev pub fdigest_of : MeasuredLib → Fdigest
fdigest_of l = record { path = some l.path; digest = l.digest }

-- The `struct procinfo` of a measured process.
abbrev pub procinfo_of : Measured → Procinfo
procinfo_of m = record {
  pid = m.pid;
  ppid = m.ppid;
  ruid = m.ruid;
  rgid = m.rgid;
  euid = m.euid;
  egid = m.egid;
  suid = m.suid;
  sgid = m.sgid;
  path = some m.cmdpath;
  digest = m.digest;
  count = length m.paths;
  libs = map fdigest_of m.paths;
}

id_field_uint : (n : ℕ) → IsWord n → id_field (cbor_uint n) ≡ n
unfolding id_field mycbor_get_int
id_field_uint n h = omega arith

id_field-sign_extended : (n : ℕ) → IsWord n → id_field (cbor_uint (sign_extended n)) ≡ n
unfolding id_field mycbor_get_int
id_field-sign_extended n h = ground (arith, h)

copy_digest :
    (out d : List ℕ) → length d ≡ 32 → mycbor_copy_bstring out (cbor_bytestring (take 32 d)) 32 ≡ d
unfolding mycbor_copy_bstring
copy_digest out d h =
    let whole : take 32 d ≡ d = take_all 32 d (omega (arith, h)) in rw whole (ground (arith, h))

extract-lib_pair :
    (heap : List ℕ) (l : MeasuredLib)
    → IsMeasuredLib l
    → extract_lib heap (lib_pair l) ≡ fdigest_of l
unfolding extract_lib mycbor_get_string
extract-lib_pair heap l ok = rw (copy_digest heap l.digest ok.1, c_string-IsText l.path ok.0) refl

extract-libs :
    (heap : List ℕ) (ls : List MeasuredLib)
    → All IsMeasuredLib ls
    → map (extract_lib heap) (map lib_pair ls) ≡ map fdigest_of ls
extract-libs heap [] ok = refl
extract-libs heap (l ∷ ls) ok = rw (extract-lib_pair heap l ok.0, extract-libs heap ls ok.1) refl

length-map-lib_pair : (ls : List MeasuredLib) → length (map lib_pair ls) ≡ length ls
length-map-lib_pair [] = refl
length-map-lib_pair (l ∷ ls) = omega (arith, length-map-lib_pair ls)

-- A process's map is read back as the process.
pub extract_proc_roundtrip :
    (heap : List ℕ) (m : Measured)
    → IsMeasured m
    → extract_proc heap (mycbor_sha256_binaries m) ≡ some (procinfo_of m)
unfolding extract_proc mycbor_sha256_binaries mycbor_get_string
extract_proc_roundtrip heap m ok =
    let count : 10 + length (map lib_pair m.paths) - 10 ≡ length m.paths =
      omega (arith, length-map-lib_pair m.paths) in
    rw
      (
        id_field-sign_extended m.pid ok.pid,
        id_field-sign_extended m.ppid ok.ppid,
        id_field_uint m.ruid ok.ruid,
        id_field_uint m.rgid ok.rgid,
        id_field_uint m.euid ok.euid,
        id_field_uint m.egid ok.egid,
        id_field_uint m.suid ok.suid,
        id_field_uint m.sgid ok.sgid,
        c_string-IsText m.cmdpath ok.cmdpath,
        copy_digest (replicate 32 0) m.digest ok.digest,
        extract-libs heap m.paths ok.paths,
      )
      (ground arith)

module _ {Key : Type 0} (ext : External Key) (heap : List ℕ) (ser : Measured → List ℕ) where
  -- The serialised map of each process is loaded again.
  abbrev pub Loads : Measured → Type 0
  Loads m = ext.cbor_load (ser m) ≡ some (cbor_map (mycbor_sha256_binaries m))

  abbrev pub items_of : List Measured → List CborItem
  items_of ms = map (λ m. cbor_bytestring (ser m)) ms

  length-items_of : (ms : List Measured) → length (items_of ms) ≡ length ms
  length-items_of [] = refl
  length-items_of (m ∷ ms) = omega (arith, length-items_of ms)

  extract_procs_roundtrip :
      (ms : List Measured)
      → All IsMeasured ms
      → All Loads ms
      → extract_procs ext heap (items_of ms) ≡ some (map procinfo_of ms)
  unfolding extract_procs unpack_sercbor
  extract_procs_roundtrip [] ok loads = refl
  extract_procs_roundtrip (m ∷ ms) ok loads =
      let load = loads.0 in
      let this = extract_proc_roundtrip heap m ok.0 in
      let rest = extract_procs_roundtrip ms ok.1 loads.1 in ground arith

  -- What the daemon sends of a chain of processes is what the client extracts: the number of the
  -- processes, and each of them with its libraries, in the order of the chain.
  pub pica_extract_pinfo_roundtrip :
      (m : Measured) (ms : List Measured) (body : List ℕ)
      → All IsMeasured (m ∷ ms)
      → All Loads (m ∷ ms)
      → ext.cbor_load body ≡ some (cbor_array (items_of (m ∷ ms)))
      → pica_extract_pinfo ext heap body ≡ some (some (suc (length ms), map procinfo_of (m ∷ ms)))
  unfolding pica_extract_pinfo extract_procinfo
  pica_extract_pinfo_roundtrip m ms body ok loads whole =
      let items = extract_procs_roundtrip (m ∷ ms) ok loads in
      let count = length-items_of ms in ground arith
