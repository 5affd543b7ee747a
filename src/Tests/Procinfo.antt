-- ===== src/Tests/Procinfo.antt =====
-- A chain of two processes on its way from the daemon to the client.
use portable_tls_ra.Base.{
  zero, ◌<◌, ◌≢◌, length, get_elem?, ◌==◌, suc, ◌≡◌, refl, true, some, none, List, [], ◌∷◌, arith,
  ℕ, Option, replicate, if◌then◌else◌, bytes_eq, Str,
}
use portable_tls_ra.Pica.Evidence.Types.{CborDoc, cbor_array, cbor_map, cbor_bytestring, External}
use portable_tls_ra.Pica.Procinfo.Encode.{Measured, MeasuredLib, mycbor_sha256_binaries}
use portable_tls_ra.Pica.Procinfo.Defs.{pica_extract_pinfo}
use portable_tls_ra.Pica.Procinfo.Roundtrip.{IsMeasured, procinfo_of, pica_extract_pinfo_roundtrip}
use portable_tls_ra.Tests.Evidence.{signature, attest}
use portable_tls_ra.Pica.Procinfo.Chain.{
  ancestor, lineage, mycbor_pack_procchain, mycbor_pack_procchain-lineage,
}

abbrev pub measured : ℕ → Str → List MeasuredLib → Measured
measured pid path libs = record {
  pid = pid;
  ppid = 1;
  ruid = 1000;
  rgid = 1000;
  euid = 1000;
  egid = 1000;
  suid = 1000;
  sgid = 1000;
  cmdpath = path;
  digest = replicate 32 pid;
  paths = libs;
}

abbrev pub shell : Measured
shell = measured 70 (4 ∷ 4 ∷ []) (record { path = 1 ∷ 2 ∷ []; digest = replicate 32 5 } ∷ [])

abbrev pub editor : Measured
editor = measured 71 (4 ∷ 5 ∷ []) []

-- The serialised map of a process is named by its identifier.
abbrev pub ser : Measured → List ℕ
ser m = m.pid ∷ []

abbrev pub load : List ℕ → Option CborDoc
load bytes =
    if bytes_eq bytes (70 ∷ [])
    then some (cbor_map (mycbor_sha256_binaries shell))
    else if bytes_eq bytes (71 ∷ [])
    then some (cbor_map (mycbor_sha256_binaries editor))
    else if bytes_eq bytes (7 ∷ [])
    then some (cbor_array (cbor_bytestring (70 ∷ []) ∷ cbor_bytestring (71 ∷ []) ∷ []))
    else none

abbrev pub external : External ℕ
external = record {
  cbor_load = load;
  signature_unmarshal = λ b s. signature b;
  attest_unmarshal = λ b a. (0, attest b);
  ecdsa_der = λ r s. none;
  pem_pubkey = λ b. some 5;
  verify_init = λ h p k. true;
  verify_final = λ h p k m s. bytes_eq s (8 ∷ []);
  digest = λ b. b;
}

pub shell-IsMeasured : IsMeasured shell
shell-IsMeasured = record {
  pid = omega arith;
  ppid = omega arith;
  ruid = omega arith;
  rgid = omega arith;
  euid = omega arith;
  egid = omega arith;
  suid = omega arith;
  sgid = omega arith;
  cmdpath = ((λ e. ground arith), ((λ e. ground arith), tt));
  digest = refl;
  paths = ((((λ e. ground arith), ((λ e. ground arith), tt)), refl), tt);
}

pub editor-IsMeasured : IsMeasured editor
editor-IsMeasured = record {
  pid = omega arith;
  ppid = omega arith;
  ruid = omega arith;
  rgid = omega arith;
  euid = omega arith;
  egid = omega arith;
  suid = omega arith;
  sgid = omega arith;
  cmdpath = ((λ e. ground arith), ((λ e. ground arith), tt));
  digest = refl;
  paths = tt;
}

pica_extract_pinfo_roundtrip_example :
    pica_extract_pinfo external [] (7 ∷ [])
    ≡ some (some (2, procinfo_of shell ∷ procinfo_of editor ∷ []))
unfolding bytes_eq
pica_extract_pinfo_roundtrip_example =
    pica_extract_pinfo_roundtrip external [] ser shell (editor ∷ []) (7 ∷ [])
      (shell-IsMeasured, (editor-IsMeasured, tt)) (refl, (refl, tt)) refl

-- The editor, process 71, was started by the shell, process 70, a child of process 1.
abbrev proc : ℕ → Measured
proc pid = if pid == 71 then record editor { ppid = 70 } else shell

first_parent : (j : ℕ) → j < 1 → (proc (ancestor proc j 71)).ppid ≢ 1
first_parent zero less = λ e. ground arith
first_parent (suc j) less = absurd (omega arith)

-- A process of which the status shows parent 0.
abbrev editor_of_none : Measured
editor_of_none = record editor { ppid = 0 }

mycbor_pack_procchain_example :
    (mycbor_pack_procchain proc 9 71 ≡ some (lineage proc 1 71))
    × (length (lineage proc 1 71) ≡ 2)
    × (get_elem? (lineage proc 1 71) 1 ≡ some (record editor { ppid = 70 }))
mycbor_pack_procchain_example =
    mycbor_pack_procchain-lineage proc 1 9 71 first_parent refl (omega arith)
