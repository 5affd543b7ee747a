-- ===== src/Pica/Policy/Statement.antt =====
-- A statement that a JSON object describes is parsed as it is meant.
use portable_tls_ra.Base.{
  ℕ, ◌<◌, ◌^◌, ◌≡◌, refl, ap, ◌∙◌, Bool, true, false, some, List, Str, IsText, All, length, map,
  bytes_eq, if◌then◌else◌,
}
use portable_tls_ra.Pica.Types.{PicaStmt, PicaPolicy}
use portable_tls_ra.Pica.Procinfo.Defs.{c_string}
use portable_tls_ra.Pica.Procinfo.Roundtrip.{c_string-IsText}
use portable_tls_ra.Pica.Policy.Json.{
  Json, json_string, json_int, json_array, json_object, Members, get_ex, string_of, key_allow,
  key_deny, key_binary, key_uid, key_sid, key_effect, key_resource, key_principal, key_action,
  pica_allow, pica_deny,
}
use portable_tls_ra.Pica.Policy.Parse.{
  JsonCalls, PolicyHeap, parse_sid, parse_sid_to, parse_effect, parse_effect_to, parse_resource,
  parse_binary, parse_binary_to, parse_action, parse_uid, with_attr, parse_principal,
  check_resource, parse_stmt,
}
use portable_tls_ra.Pica.Policy.Described.{
  Statement, IsStatement, stmt_of, AreStrings, HasPrincipal, Describes, map-string_of, length-map,
  parse_invchain-chains, parse_uid-ints,
}

pub string_of_text : (s : Str) → IsText s → string_of (json_string s) ≡ some s
unfolding string_of
string_of_text s ok = ap some (c_string-IsText s ok)

parse_effect_lem :
    (a : Bool)
    → parse_effect (json_string (if a then key_allow else key_deny))
      ≡ (if a then pica_allow else pica_deny)
unfolding parse_effect string_of c_string bytes_eq
parse_effect_lem true = refl
parse_effect_lem false = refl

parse_action-strings :
    (j : Json) (ss : List Str) (stmt : PicaStmt)
    → AreStrings j ss
    → All IsText ss
    → parse_action j stmt ≡ record stmt { act_cnt = length ss; action = map some ss }
unfolding parse_action
parse_action-strings j ss stmt are ok =
    rw (are.1, are.2, map-string_of ss ok, length-map json_string ss) refl

module _ (calls : JsonCalls) (heap : PolicyHeap) where
  with_attr_present :
      (ms : Members) (key : Str) (parse : Json → PicaStmt → PicaStmt) (stmt : PicaStmt) (j : Json)
      → get_ex ms key ≡ some j
      → with_attr calls heap ms key parse stmt ≡ parse j stmt
  with_attr_present ms key parse stmt j e = rw (with_attr, e) refl

  parse_principal-HasPrincipal :
      (ps : Members) (st : Statement) (stmt : PicaStmt)
      → ((n : ℕ) → n < 2 ^ 31 → calls.get_int (json_int n) ≡ n)
      → HasPrincipal ps st
      → IsStatement st
      → parse_principal calls heap (json_object ps) stmt
        ≡ record stmt { exec_path = some st.binary; uid_cnt = length st.uids; uid = st.uids }
  unfolding parse_principal parse_binary
  parse_principal-HasPrincipal ps st stmt ints has ok =
      let path = string_of_text st.binary ok.binary in
      let items = has.1.0 in
      let s1 : PicaStmt = record stmt { exec_path = some st.binary } in
      let uid = parse_uid-ints calls heap items st.uids s1 ints ok.uids has.1.2 in
      let binary =
        with_attr_present ps key_binary (parse_binary_to calls heap) stmt (json_string st.binary)
          has.0 in
      ap (with_attr calls heap ps key_uid (parse_uid calls heap))
        (binary ∙ ap (λ x. record stmt { exec_path = x }) path)
      ∙ with_attr_present ps key_uid (parse_uid calls heap) s1 (json_array items) has.1.1
      ∙ uid

  pub check_resource_string :
      (ms : Members) (r : Str)
      → get_ex ms key_resource ≡ some (json_string r)
      → check_resource calls heap ms ≡ some tt
  unfolding check_resource parse_resource string_of
  check_resource_string ms r e = rw (check_resource, e) refl

  -- Any object that has
  pub parse_stmt-Describes :
      (ms : Members) (version : Str) (st : Statement) (stmt : PicaStmt) (pp : PicaPolicy)
      → ((n : ℕ) → n < 2 ^ 31 → calls.get_int (json_int n) ≡ n)
      → pp.version ≡ some version
      → Describes version ms st
      → IsStatement st
      → parse_stmt calls heap (json_object ms) stmt pp ≡ some (stmt_of st)
  unfolding parse_stmt parse_sid
  parse_stmt-Describes ms version st stmt pp ints e d ok =
      let s1 : PicaStmt = record stmt { sid = some st.sid } in
      let s2 : PicaStmt = record s1 { effect = if st.is_allow then pica_allow else pica_deny } in
      let s3 : PicaStmt = record s2 {
        exec_path = some st.binary;
        uid_cnt = length st.uids;
        uid = st.uids;
      } in
      let s4 : PicaStmt = record s3 { act_cnt = length st.actions; action = map some st.actions } in
      let e1 : with_attr calls heap ms key_sid (parse_sid_to calls heap) stmt ≡ s1 =
        with_attr_present ms key_sid (parse_sid_to calls heap) stmt (json_string st.sid) d.sid
        ∙ ap (λ x. record stmt { sid = x }) (string_of_text st.sid ok.sid) in
      let e2 : with_attr calls heap ms key_effect (parse_effect_to calls heap) s1 ≡ s2 =
        with_attr_present ms key_effect (parse_effect_to calls heap) s1
          (json_string (if st.is_allow then key_allow else key_deny)) d.effect
        ∙ ap (λ x. record s1 { effect = x }) (parse_effect_lem st.is_allow) in
      let e3 : with_attr calls heap ms key_principal (parse_principal calls heap) s2 ≡ s3 =
        with_attr_present ms key_principal (parse_principal calls heap) s2
          (json_object d.principal.0) d.principal.1
        ∙ parse_principal-HasPrincipal d.principal.0 st s2 ints d.principal.2 ok in
      let e4 : with_attr calls heap ms key_action parse_action s3 ≡ s4 =
        with_attr_present ms key_action parse_action s3 d.action.0 d.action.1
        ∙ parse_action-strings d.action.0 st.actions s3 d.action.2 ok.actions in
      let chains =
        parse_invchain-chains calls heap d.chains.0 s4 pp version st.chains e d.chains.2
          ok.chains in
      rw (check_resource_string ms st.resource d.resource, d.chains.1, e1, e2, e3, e4) chains
