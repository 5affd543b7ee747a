-- ===== src/Pica/Procinfo/Encode.antt =====
-- `mycbor_sha256_binaries` of tpm2/libcbor.c: the CBOR map in which the daemon sends what it has
-- measured of a process, with `mycbor_add_map_uint64`, `mycbor_add_map_string` and `mycbor_add_map_bstring`.
use portable_tls_ra.Base.{ℕ, ◌+◌, ◌-◌, ◌^◌, List, [], ◌∷◌, Str, take, map, ltb, if◌then◌else◌}
use portable_tls_ra.Pica.Evidence.Types.{CborItem, cbor_uint, cbor_bytestring, cbor_string}

-- What was measured of a shared library.
pub record MeasuredLib : Type 0 where
  pub path : Str
  pub digest : List ℕ

-- What `sha256_pid`, `cred_pid` and `sha256_libs` found of a process.
pub record Measured : Type 0 where
  pub pid : ℕ
  pub ppid : ℕ
  pub ruid : ℕ
  pub rgid : ℕ
  pub euid : ℕ
  pub egid : ℕ
  pub suid : ℕ
  pub sgid : ℕ
  pub cmdpath : Str
  pub digest : List ℕ
  pub paths : List MeasuredLib

-- "pid"
abbrev pub key_pid : Str
key_pid = 112 ∷ 105 ∷ 100 ∷ []

-- "ppid"
abbrev pub key_ppid : Str
key_ppid = 112 ∷ 112 ∷ 105 ∷ 100 ∷ []

-- "ruid"
abbrev pub key_ruid : Str
key_ruid = 114 ∷ 117 ∷ 105 ∷ 100 ∷ []

-- "rgid"
abbrev pub key_rgid : Str
key_rgid = 114 ∷ 103 ∷ 105 ∷ 100 ∷ []

-- "euid"
abbrev pub key_euid : Str
key_euid = 101 ∷ 117 ∷ 105 ∷ 100 ∷ []

-- "egid"
abbrev pub key_egid : Str
key_egid = 101 ∷ 103 ∷ 105 ∷ 100 ∷ []

-- "suid"
abbrev pub key_suid : Str
key_suid = 115 ∷ 117 ∷ 105 ∷ 100 ∷ []

-- "sgid"
abbrev pub key_sgid : Str
key_sgid = 115 ∷ 103 ∷ 105 ∷ 100 ∷ []

-- "path"
abbrev pub key_path : Str
key_path = 112 ∷ 97 ∷ 116 ∷ 104 ∷ []

-- "sha256"
abbrev pub key_sha256 : Str
key_sha256 = 115 ∷ 104 ∷ 97 ∷ 50 ∷ 53 ∷ 54 ∷ []

-- `mycbor_add_map_uint64`, `mycbor_add_map_string` and `mycbor_add_map_bstring` build these pairs.
abbrev pub uint_pair : Str → ℕ → CborItem × CborItem
uint_pair key val = (cbor_string key, cbor_uint val)

-- A process identifier is an `int`, which is extended with its sign to 64 bits.
abbrev pub sign_extended : ℕ → ℕ
sign_extended n = if ltb n (2 ^ 31) then n else n + (2 ^ 64 - 2 ^ 32)

abbrev pub string_pair : Str → Str → CborItem × CborItem
string_pair key val = (cbor_string key, cbor_string val)

abbrev pub bstring_pair : Str → List ℕ → CborItem × CborItem
bstring_pair key val = (cbor_string key, cbor_bytestring (take 32 val))

abbrev pub lib_pair : MeasuredLib → CborItem × CborItem
lib_pair lib = bstring_pair lib.path lib.digest

unfoldable pub mycbor_sha256_binaries : Measured → List (CborItem × CborItem)
mycbor_sha256_binaries m =
    uint_pair key_pid (sign_extended m.pid)
    ∷ uint_pair key_ppid (sign_extended m.ppid)
    ∷ uint_pair key_ruid m.ruid
    ∷ uint_pair key_rgid m.rgid
    ∷ uint_pair key_euid m.euid
    ∷ uint_pair key_egid m.egid
    ∷ uint_pair key_suid m.suid
    ∷ uint_pair key_sgid m.sgid
    ∷ string_pair key_path m.cmdpath
    ∷ bstring_pair key_sha256 m.digest
    ∷ map lib_pair m.paths
