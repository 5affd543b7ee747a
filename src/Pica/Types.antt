-- ===== src/Pica/Types.antt =====
-- The structures of src/libpica_common.h, src/libpica_clnt.h and src/libpica_clnt_internal.h, and
-- the flags in which the verification returns what it has checked. A `char *` that may be NULL is
-- an `Option`; a pointer to an array is the list of the items that can be read through it, and the
-- count that the structure holds beside it is a field of its own.
use portable_tls_ra.Base.{ℕ, Str, List, Option, Bool, ◌==◌, bit_and}

pub record Fdigest : Type 0 where
  pub path : Option Str
  pub digest : List ℕ

-- The identifiers are 32-bit words.
pub record Procinfo : Type 0 where
  pub pid : ℕ
  pub ppid : ℕ
  pub ruid : ℕ
  pub rgid : ℕ
  pub euid : ℕ
  pub egid : ℕ
  pub suid : ℕ
  pub sgid : ℕ
  pub path : Option Str
  pub digest : List ℕ
  pub count : ℕ
  pub libs : List Fdigest

pub record InvArray : Type 0 where
  pub ichn_cnt : ℕ
  pub ichain : List (Option Str)

pub record PicaStmt : Type 0 where
  pub sid : Option Str
  pub effect : ℕ
  pub exec_path : Option Str
  pub uid_cnt : ℕ
  pub uid : List ℕ
  pub act_cnt : ℕ
  pub action : List (Option Str)
  pub ary_cnt : ℕ
  pub iarray : List InvArray

pub record PicaPolicy : Type 0 where
  pub version : Option Str
  pub entries : ℕ
  pub stmt : List PicaStmt

abbrev pub verify_tpm2_quote : ℕ
verify_tpm2_quote = 1

abbrev pub verify_tpm2_fresh : ℕ
verify_tpm2_fresh = 2

abbrev pub verify_pica_binaries : ℕ
verify_pica_binaries = 4

abbrev pub verify_pica_chain : ℕ
verify_pica_chain = 8

abbrev pub verify_pica_uids : ℕ
verify_pica_uids = 16

-- `VERIFIED_ALL(v)`; the mask is 0x01 | 0x04 | 0x08 | 0x10.
unfoldable pub verified_all : ℕ → Bool
verified_all v = bit_and v 29 == 29

abbrev pub pica_ent_conf_procinfo : ℕ
pica_ent_conf_procinfo = 1

abbrev pub pica_ent_conf_policy : ℕ
pica_ent_conf_policy = 3
