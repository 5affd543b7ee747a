-- ===== src/Pica/Poc/Defs.antt =====
-- `main` of pica_poc/Enclave/main.c after its options are read, with the registration loop of
-- `pica_read_config` of src/libpica_clnt.c.
use portable_tls_ra.Base.{
  ℕ, ◌-◌, Bool, Option, none, some, List, Str, get_elem?, ◌==◌, if◌then◌else◌, ◌>>=◌, bit_or,
}
use portable_tls_ra.Pica.Types.{Procinfo, PicaStmt, PicaPolicy}
use portable_tls_ra.Pica.Hashtable.Defs.{Slot, empty_htable, reg_procs}
use portable_tls_ra.Pica.Digest.Defs.{pica_verify_binaries}
use portable_tls_ra.Pica.Check.Defs.{pica_check_ichain, pica_check_uids, pica_find_policy}
use portable_tls_ra.Pica.Evidence.Types.{External, Surroundings}
use portable_tls_ra.Pica.Evidence.Verify.{body_bytes, pica_verify_tpm2all}
use portable_tls_ra.Pica.Procinfo.Defs.{pica_extract_pinfo}

-- What the program reads: the option `-r`, the processes that `build_conf` made of the configuration file with
-- their number, the policy unless its file cannot be read, the random nonce and the measure unless
-- the calls fail, and what the memory from `malloc` holds.
pub record Inputs : Type 0 where
  pub rflag : Bool
  pub procinfo : List Procinfo
  pub entries : ℕ
  pub ppol : Option PicaPolicy
  pub nonce : Option (List ℕ)
  pub measure : List ℕ → Option (List ℕ)
  pub heap : List ℕ

-- How the program ends: with -1, after writing a configuration from the process information, or with
-- the flags of what it has verified and the statement it has verified it for.
pub data Outcome : Type 0 where
  aborted : Outcome
  reg_config_of : Option (List ℕ) → Outcome
  verified : ℕ → PicaStmt → Outcome

module _ {Key : Type 0} (ext : External Key) (env : Surroundings) (murmur : Str → ℕ → ℕ) where
  -- The block after `pica_verify_tpm2all`, with its flags.
  unfoldable pub check_measured :
      Inputs → List (Slot Procinfo) → PicaPolicy → ℕ → ℕ × List Procinfo → Option Outcome
  check_measured inp table ppol flags fresh = get_elem? fresh.1 (fresh.0 - 1) >>= λ mybinary.
      pica_find_policy ppol mybinary >>= λ found. elim found [
        | none ↦ some aborted
        | some pstmt ↦ pica_verify_binaries murmur table (some fresh.1) fresh.0 >>= λ binaries.
            pica_check_ichain pstmt fresh.1 fresh.0 >>= λ chain.
            pica_check_uids pstmt fresh.1 fresh.0 >>= λ uids.
            some (verified (bit_or (bit_or (bit_or flags binaries) chain) uids) pstmt)
      ]

  -- From the verification of the evidence on. An `o_picabody` that was not stored is uninitialised; a
  -- NULL one has size 0. After a failed extraction `fresh_pinfo[-2]` is read off the NULL pointer.
  unfoldable pub verify_measure :
      Inputs → List (Slot Procinfo) → PicaPolicy → List ℕ → List ℕ → Option Outcome
  unfolding check_measured
  verify_measure inp table ppol nonce measure = pica_verify_tpm2all ext env measure nonce >>= λ r.
      r.1 >>= λ body.
      if inp.rflag
      then some (reg_config_of body)
      else pica_extract_pinfo ext inp.heap (body_bytes body) >>= λ fresh.
          fresh >>= λ f. check_measured inp table ppol r.0 f

  -- After the configuration file.
  unfoldable pub attest_measure : Inputs → List (Slot Procinfo) → Option Outcome
  unfolding verify_measure
  attest_measure inp table = elim inp.ppol [
    | none ↦ some aborted
    | some ppol ↦ elim inp.nonce [
      | none ↦ some aborted
      | some nonce ↦ elim (inp.measure nonce) [
        | none ↦ some aborted
        | some measure ↦ verify_measure inp table ppol nonce measure
      ]
    ]
  ]

  unfoldable pub pica_poc_main : Inputs → Option Outcome
  unfolding attest_measure empty_htable
  pica_poc_main inp =
      if inp.rflag
      then attest_measure inp empty_htable
      else if inp.entries == 0
      then some aborted
      else (reg_procs murmur inp.entries inp.procinfo empty_htable >>= λ table.
          attest_measure inp table)
