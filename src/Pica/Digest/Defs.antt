-- ===== src/Pica/Digest/Defs.antt =====
-- `pica_verify_digest` and `pica_verify_binaries` of src/libpica_clnt.c. Both return `none` where the
-- code reads through NULL or past an array. `pica_verify_digest` returns true for 0 and false for -1.
use portable_tls_ra.Base.{
  ℕ, zero, suc, Bool, true, false, Option, none, some, List, [], ◌∷◌, Str, bytes_eq, memcmp_eq,
  ◌==◌, if◌then◌else◌, ◌>>=◌,
}
use portable_tls_ra.Pica.Types.{Fdigest, Procinfo, pica_ent_conf_procinfo, verify_pica_binaries}
use portable_tls_ra.Pica.Hashtable.Defs.{Slot, find_hashtable}

-- The inner loop: the registered libraries from `reg_dig[j]` on, with `n` rounds left. False if a
-- library of the same name has another digest.
unfoldable pub lib_matches : Fdigest → ℕ → List Fdigest → Option Bool
lib_matches f zero regs = some true
lib_matches f (suc n) [] = none
lib_matches f (suc n) (r ∷ regs) = f.path >>= λ fresh. r.path >>= λ reg.
    if bytes_eq fresh reg then some (memcmp_eq 32 f.digest r.digest) else lib_matches f n regs

-- The outer loop: the fresh libraries from `fresh_dig[i]` on, with `n` rounds left.
unfoldable pub libs_match : ℕ → List Fdigest → ℕ → List Fdigest → Option Bool
libs_match zero fresh cnt regs = some true
libs_match (suc n) [] cnt regs = none
libs_match (suc n) (f ∷ fresh) cnt regs =
    lib_matches f cnt regs >>= λ same. if same then libs_match n fresh cnt regs else some false

unfoldable pub pica_verify_digest : Procinfo → Procinfo → Option Bool
pica_verify_digest reg fresh =
    if reg.count == fresh.count
    then (if memcmp_eq 32 reg.digest fresh.digest
        then libs_match fresh.count fresh.libs fresh.count reg.libs
        else some false)
    else some false

module _ (murmur : Str → ℕ → ℕ) (table : List (Slot Procinfo)) where
  -- One round of the loop of `pica_verify_binaries`: is the process configured, with its digests?
  unfoldable pub binary_verified : Procinfo → Option Bool
  binary_verified p = p.path >>= λ path.
      elim (find_hashtable murmur path pica_ent_conf_procinfo table) [
        | some conf ↦ pica_verify_digest conf p
        | none ↦ some false
      ]

  -- The loop, with `n` rounds left: a failure clears `rc`, and the loop goes on.
  unfoldable pub binaries_from : ℕ → ℕ → List Procinfo → Option ℕ
  binaries_from rc zero ps = some rc
  binaries_from rc (suc n) [] = none
  binaries_from rc (suc n) (p ∷ ps) =
      binary_verified p >>= λ verified. binaries_from (if verified then rc else 0) n ps

  -- `pinfo` may be NULL.
  unfoldable pub pica_verify_binaries : Option (List Procinfo) → ℕ → Option ℕ
  pica_verify_binaries none ent = some 0
  pica_verify_binaries (some pinfo) ent = binaries_from verify_pica_binaries ent pinfo
