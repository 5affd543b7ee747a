-- ===== src/Pica/Policy/Whole.antt =====
-- A policy that a JSON value describes is read as it is meant, if its version stands before its
-- statements.
use portable_tls_ra.Base.{
  ℕ, ◌<◌, ◌^◌, suc, ◌≡◌, refl, ap, sym, append-nil, ◌∙◌, false, some, List, [], ◌∷◌, ◌++◌, Str,
  IsText, All, length, map, bytes_eq,
}
use portable_tls_ra.Pica.Types.{PicaPolicy}
use portable_tls_ra.Pica.Policy.Json.{
  Json, json_string, json_int, json_array, json_object, Jsons, Members, elements, members,
  key_version, key_statement,
}
use portable_tls_ra.Pica.Policy.Parse.{
  JsonCalls, PolicyHeap, stmts_from, json_statement, json_version, parse_member, parse_members,
  pica_json_parse,
}
use portable_tls_ra.Pica.Policy.Described.{Statement, IsStatement, stmt_of, Describes}
use portable_tls_ra.Pica.Policy.Statement.{string_of_text, parse_stmt-Describes}

-- One object for each statement.
abbrev pub AreDescribed : Str → List Json → List Statement → Type 0
AreDescribed version [] [] = Unit {0}
AreDescribed version [] (st ∷ sts) = ⊥
AreDescribed version (j ∷ js) [] = ⊥
AreDescribed version (j ∷ js) (st ∷ sts) =
    ((ms : Members) × (j ≡ json_object ms) × Describes version ms st) × AreDescribed version js sts

-- Members that the policy does not use.
abbrev pub IsUnused : Str × Json → Type 0
IsUnused m = (bytes_eq m.0 key_version ≡ false) × (bytes_eq m.0 key_statement ≡ false)

-- The version of the policy, the statements, and unused members before, between and behind them.
pub record DescribesPolicy (version : Str) (ms : Members) (sts : List Statement) : Type 0 where
  pub before : List (Str × Json)
  pub between : List (Str × Json)
  pub behind : List (Str × Json)
  pub items : Jsons
  pub order :
      members ms
      ≡ before
        ++ (key_version, json_string version)
          ∷ (between ++ (key_statement, json_array items) ∷ behind)
  pub before_unused : All IsUnused before
  pub between_unused : All IsUnused between
  pub behind_unused : All IsUnused behind
  pub statements : AreDescribed version (elements items) sts

abbrev pub policy_of : Str → List Statement → PicaPolicy
policy_of version sts = record {
  version = some version;
  entries = length sts;
  stmt = map stmt_of sts;
}

length-AreDescribed :
    (version : Str) (js : List Json) (sts : List Statement)
    → AreDescribed version js sts
    → length js ≡ length sts
length-AreDescribed version [] [] are = refl
length-AreDescribed version [] (st ∷ sts) are = absurd are
length-AreDescribed version (j ∷ js) [] are = absurd are
length-AreDescribed version (j ∷ js) (st ∷ sts) are =
    ap suc (length-AreDescribed version js sts are.1)

module _ (calls : JsonCalls) (heap : PolicyHeap) where
  pub parse_members_unused :
      (unused rest : List (Str × Json)) (pp : PicaPolicy)
      → All IsUnused unused
      → parse_members calls heap (unused ++ rest) pp ≡ parse_members calls heap rest pp
  unfolding parse_members parse_member
  parse_members_unused [] rest pp ok = refl
  parse_members_unused (m ∷ ms) rest pp ok =
      rw (ok.0.0, ok.0.1) (parse_members_unused ms rest pp ok.1)

  parse_members_rest :
      (unused : List (Str × Json)) (pp : PicaPolicy)
      → All IsUnused unused
      → parse_members calls heap unused pp ≡ some pp
  unfolding parse_members
  parse_members_rest unused pp ok =
      ap (λ m. parse_members calls heap m pp) (sym (append-nil unused))
      ∙ parse_members_unused unused [] pp ok

  stmts_from-AreDescribed :
      (js : List Json) (sts : List Statement) (version : Str) (i : ℕ) (pp : PicaPolicy)
      → ((n : ℕ) → n < 2 ^ 31 → calls.get_int (json_int n) ≡ n)
      → pp.version ≡ some version
      → AreDescribed version js sts
      → All IsStatement sts
      → stmts_from calls heap js i pp ≡ some (map stmt_of sts)
  unfolding stmts_from
  stmts_from-AreDescribed [] [] version i pp ints e are ok = refl
  stmts_from-AreDescribed [] (st ∷ sts) version i pp ints e are ok = absurd are
  stmts_from-AreDescribed (j ∷ js) [] version i pp ints e are ok = absurd are
  stmts_from-AreDescribed (j ∷ js) (st ∷ sts) version i pp ints e are ok =
      let this =
        parse_stmt-Describes calls heap are.0.0 version st (heap.stmt i) pp ints e are.0.2 ok.0 in
      let rest = stmts_from-AreDescribed js sts version (suc i) pp ints e are.1 ok.1 in
      rw (are.0.1, this, rest) refl

  parse_version :
      (version : Str) (rest : List (Str × Json)) (pp : PicaPolicy)
      → IsText version
      → parse_members calls heap ((key_version, json_string version) ∷ rest) pp
        ≡ parse_members calls heap rest (record pp { version = some version })
  unfolding parse_members parse_member json_version bytes_eq
  parse_version version rest pp text = rw (string_of_text version text) refl

  parse_statements :
      (items : Jsons) (sts : List Statement) (version : Str) (rest : List (Str × Json))
      (pp : PicaPolicy)
      → ((n : ℕ) → n < 2 ^ 31 → calls.get_int (json_int n) ≡ n)
      → pp.version ≡ some version
      → AreDescribed version (elements items) sts
      → All IsStatement sts
      → parse_members calls heap ((key_statement, json_array items) ∷ rest) pp
        ≡ parse_members calls heap rest (record pp { entries = length sts; stmt = map stmt_of sts })
  unfolding parse_members parse_member json_statement bytes_eq
  parse_statements items sts version rest pp ints e are ok =
      let stmts = stmts_from-AreDescribed (elements items) sts version 0 pp ints e are ok in
      let count = length-AreDescribed version (elements items) sts are in rw (stmts, count) refl

  -- A JSON object whose member "Version" stands before "Statement", with unused members anywhere, is
  -- parsed as the policy that it describes, with nothing left of what the structure and the memory
  -- of the statements held before: the version, and each statement with its identifier, effect, path,
  -- users, actions and chains, one chain in version V0 and any number in V1, in whatever order the
  -- attributes stand. The strings hold no NUL, the users are below 2^31, and json-c gives
  -- the numbers below 2^31 that stand in the file.
  pub pica_json_parse-DescribesPolicy :
      (ms : Members) (version : Str) (sts : List Statement) (pp : PicaPolicy)
      → ((n : ℕ) → n < 2 ^ 31 → calls.get_int (json_int n) ≡ n)
      → IsText version
      → DescribesPolicy version ms sts
      → All IsStatement sts
      → pica_json_parse calls heap (json_object ms) pp ≡ some (policy_of version sts)
  unfolding pica_json_parse
  pica_json_parse-DescribesPolicy ms version sts pp ints text d ok =
      let p1 : PicaPolicy = record pp { version = some version } in
      let last = (key_statement, json_array d.items) ∷ d.behind in
      let r1 = (key_version, json_string version) ∷ (d.between ++ last) in
      ap (λ m. parse_members calls heap m pp) d.order
      ∙ parse_members_unused d.before r1 pp d.before_unused
      ∙ parse_version version (d.between ++ last) pp text
      ∙ parse_members_unused d.between last p1 d.between_unused
      ∙ parse_statements d.items sts version d.behind p1 ints refl d.statements ok
      ∙ parse_members_rest d.behind (policy_of version sts) d.behind_unused
