-- ===== src/Pica/Policy/Unversioned.antt =====
-- A policy of which the statements are parsed before its version is known.
use portable_tls_ra.Base.{◌≡◌, refl, ap, ◌∙◌, none, List, ◌∷◌, ◌++◌, Str, All, bytes_eq, inl, inr}
use portable_tls_ra.Pica.Types.{PicaStmt, PicaPolicy}
use portable_tls_ra.Pica.Policy.Json.{
  Json, json_array, json_object, Jsons, Members, elements, members, key_statement,
}
use portable_tls_ra.Pica.Policy.Parse.{
  JsonCalls, PolicyHeap, parse_invchain, parse_stmt, stmts_from, json_statement, parse_member,
  parse_members, pica_json_parse,
}
use portable_tls_ra.Pica.Policy.Described.{Statement, Describes, HasChains}
use portable_tls_ra.Pica.Policy.Statement.{check_resource_string}
use portable_tls_ra.Pica.Policy.Whole.{IsUnused, parse_members_unused}

module _ (calls : JsonCalls) (heap : PolicyHeap) where
  parse_invchain_unversioned :
      (j : Json) (stmt : PicaStmt) (pp : PicaPolicy) (version : Str) (chains : List (List Str))
      → pp.version ≡ none
      → HasChains version j chains
      → parse_invchain calls heap j stmt pp ≡ none
  unfolding parse_invchain
  parse_invchain_unversioned j stmt pp version chains e (inl v0) = rw (v0.1.2.1, e) refl
  parse_invchain_unversioned j stmt pp version chains e (inr v1) = rw (v1.1.1, e) refl

  parse_stmt_unversioned :
      (ms : Members) (version : Str) (st : Statement) (stmt : PicaStmt) (pp : PicaPolicy)
      → pp.version ≡ none
      → Describes version ms st
      → parse_stmt calls heap (json_object ms) stmt pp ≡ none
  unfolding parse_stmt
  parse_stmt_unversioned ms version st stmt pp e d =
      rw (check_resource_string calls heap ms st.resource d.resource, d.chains.1)
        (parse_invchain_unversioned d.chains.0 _ pp version st.chains e d.chains.2)

  parse_statements_unversioned :
      (ms : Members) (version : Str) (st : Statement) (items : Jsons) (js : List Json)
      (rest : List (Str × Json)) (pp : PicaPolicy)
      → pp.version ≡ none
      → elements items ≡ json_object ms ∷ js
      → Describes version ms st
      → parse_members calls heap ((key_statement, json_array items) ∷ rest) pp ≡ none
  unfolding parse_members parse_member json_statement stmts_from bytes_eq
  parse_statements_unversioned ms version st items js rest pp e first d =
      rw (first, parse_stmt_unversioned ms version st (heap.stmt 0) pp e d) refl

  -- In a structure without a version, a policy of which the statements stand before the version is not read: at
  -- the invocation chains of its first statement, parse_invchain compares a NULL version.
  pub pica_json_parse_unversioned :
      (ms ms1 : Members) (version : Str) (st : Statement) (items : Jsons) (js : List Json)
      (before rest : List (Str × Json)) (pp : PicaPolicy)
      → pp.version ≡ none
      → All IsUnused before
      → members ms ≡ before ++ (key_statement, json_array items) ∷ rest
      → elements items ≡ json_object ms1 ∷ js
      → Describes version ms1 st
      → pica_json_parse calls heap (json_object ms) pp ≡ none
  unfolding pica_json_parse
  pica_json_parse_unversioned ms ms1 version st items js before rest pp e ok order first d =
      ap (λ m. parse_members calls heap m pp) order
      ∙ parse_members_unused calls heap before ((key_statement, json_array items) ∷ rest) pp ok
      ∙ parse_statements_unversioned ms1 version st items js rest pp e first d
