-- ===== src/Pica/Policy/Read.antt =====
-- `pica_read_policy` of src/libpica_clnt.c: the policy in the caller's structure, and its statements in the hash table.
use portable_tls_ra.Base.{
  ℕ, zero, suc, Bool, true, false, not, Option, none, some, List, [], ◌∷◌, Str, length, ◌==◌,
  if◌then◌else◌, ◌>>=◌,
}
use portable_tls_ra.Pica.Types.{PicaStmt, PicaPolicy, pica_ent_conf_policy}
use portable_tls_ra.Pica.Hashtable.Defs.{Slot, reg_hashtable}
use portable_tls_ra.Pica.Policy.Json.{Json}
use portable_tls_ra.Pica.Policy.Parse.{JsonCalls, PolicyHeap, pica_json_parse}

-- The file, if it can be opened: its size, and the bytes that are read of it.
pub record PolicyFile : Type 0 where
  pub size : ℕ
  pub bytes : List ℕ

module _ (murmur : Str → ℕ → ℕ) {A : Type 0} (address_of : PicaStmt → A) where
  -- The loop over the statements: `none` if one has no path, or if there are fewer than `entries`.
  unfoldable pub reg_stmts : ℕ → List PicaStmt → List (Slot A) → Option (List (Slot A))
  reg_stmts zero stmts table = some table
  reg_stmts (suc n) [] table = none
  reg_stmts (suc n) (s ∷ stmts) table = s.exec_path >>= λ path.
      reg_stmts n stmts (reg_hashtable murmur pica_ent_conf_policy (address_of s) path table)

  -- Whether the result is 0 (it is -1 else), the policy, and the table. `ppol` is given, `parse` is
  -- `json_tokener_parse_ex`, and `none` inside it is NULL.
  unfoldable pub pica_read_policy :
      JsonCalls
      → PolicyHeap
      → (List ℕ → Option Json)
      → Option PolicyFile
      → PicaPolicy
      → List (Slot A)
      → Option (Bool × PicaPolicy × List (Slot A))
  pica_read_policy calls heap parse none pp table = some (false, pp, table)
  pica_read_policy calls heap parse (some file) pp table =
      if not (length file.bytes == file.size)
      then some (false, pp, table)
      else elim (parse file.bytes) [
        | none ↦ some (false, pp, table)
        | some jobj ↦ pica_json_parse calls heap jobj pp >>= λ pp'.
            reg_stmts pp'.entries pp'.stmt table >>= λ table'. some (true, pp', table')
      ]
