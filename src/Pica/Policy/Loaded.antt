-- ===== src/Pica/Policy/Loaded.antt =====
-- What `pica_read_policy` makes of the file.
use portable_tls_ra.Base.{
  ℕ, ◌<◌, ◌^◌, ◌≡◌, refl, true, Option, some, List, [], ◌∷◌, Str, IsText, All, length, map, arith,
  ◌==◌,
}
use portable_tls_ra.Pica.Types.{PicaStmt, PicaPolicy, pica_ent_conf_policy}
use portable_tls_ra.Pica.Hashtable.Defs.{Slot, reg_hashtable}
use portable_tls_ra.Pica.Policy.Json.{Json, json_int, json_object, Members}
use portable_tls_ra.Pica.Policy.Parse.{JsonCalls, PolicyHeap}
use portable_tls_ra.Pica.Policy.Described.{Statement, IsStatement, stmt_of}
use portable_tls_ra.Pica.Policy.Read.{PolicyFile, reg_stmts, pica_read_policy}
use portable_tls_ra.Pica.Policy.Whole.{DescribesPolicy, policy_of, pica_json_parse-DescribesPolicy}

module _ (murmur : Str → ℕ → ℕ) {A : Type 0} (address_of : PicaStmt → A) where
  reg_stmts_total :
      (sts : List Statement) (table : List (Slot A))
      → (table' : List (Slot A)) × (reg_stmts murmur address_of (length sts) (map stmt_of sts) table
          ≡ some table')
  unfolding reg_stmts
  reg_stmts_total [] table = (table, refl)
  reg_stmts_total (st ∷ sts) table =
      reg_stmts_total sts
        (reg_hashtable murmur pica_ent_conf_policy (address_of (stmt_of st)) st.binary table)

  -- If the file is read to its size and json-c parses an object from it, of which the member "Version"
  -- stands before "Statement", with unused members anywhere, then pica_read_policy returns 0 with
  -- the policy that the object describes, and with nothing left of what the structure and the memory of the
  -- statements held before: the version, and each statement with its identifier, effect, path,
  -- users, actions and chains, one chain in version V0 and any number in V1, in whatever order the
  -- attributes of the statement stand. The strings hold no NUL, the users of the
  -- file are below 2^31, and json-c gives the numbers below 2^31 as the file has them.
  pub pica_read_policy-DescribesPolicy :
      (calls : JsonCalls) (heap : PolicyHeap) (parse : List ℕ → Option Json) (file : PolicyFile)
      (ms : Members) (version : Str) (sts : List Statement) (pp : PicaPolicy)
      (table : List (Slot A))
      → ((n : ℕ) → n < 2 ^ 31 → calls.get_int (json_int n) ≡ n)
      → length file.bytes ≡ file.size
      → parse file.bytes ≡ some (json_object ms)
      → IsText version
      → DescribesPolicy version ms sts
      → All IsStatement sts
      → (table' : List (Slot A)) × (pica_read_policy murmur address_of calls heap parse
            (some file)
            pp
            table
          ≡ some (true, policy_of version sts, table'))
  unfolding pica_read_policy
  pica_read_policy-DescribesPolicy calls heap parse file ms version sts pp table ints whole parsed
        text d ok =
      let read : (length file.bytes == file.size) ≡ true = ground (arith, whole) in
      let policy = pica_json_parse-DescribesPolicy calls heap ms version sts pp ints text d ok in
      let registered = reg_stmts_total sts table in
      (registered.0, rw (read, parsed, policy, registered.1) refl)
