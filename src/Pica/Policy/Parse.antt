-- ===== src/Pica/Policy/Parse.antt =====
-- The functions of src/libpica_clnt.c that make a policy of a JSON value: parse_sid to parse_invchain,
-- json_statement, json_version and pica_json_parse. `none` stands for a `strcmp` of NULL, or a stop
-- within json-c.
use portable_tls_ra.Base.{
  ℕ, suc, Option, none, some, List, [], ◌∷◌, Str, length, map, replicate, bytes_eq, if◌then◌else◌,
  ◌>>=◌,
}
use portable_tls_ra.Pica.Types.{InvArray, PicaStmt, PicaPolicy}
use portable_tls_ra.Pica.Policy.Json.{
  Json, json_string, json_int, json_array, json_object, json_other, Jsons, Members, elements,
  members, get_ex, string_of, key_allow, key_deny, key_binary, key_uid, key_sid, key_effect,
  key_resource, key_principal, key_action, key_invocation_chain, key_version, key_statement,
  pica_policy_v0_string, pica_policy_v1_string, pica_none, pica_allow, pica_deny,
}

-- `json_object_get_int`, and what `json_object_array_length` gives for a value that is no array: `none`
-- if it stops the program.
pub record JsonCalls : Type 0 where
  pub get_int : Json → ℕ
  pub other_length : Json → Option ℕ

-- What the memory from `malloc` holds: the statements by their places, and the items of `iarray`.
pub record PolicyHeap : Type 0 where
  pub stmt : ℕ → PicaStmt
  pub inv_array : InvArray

unfoldable pub parse_sid : Json → Option Str
parse_sid obj = string_of obj

unfoldable pub parse_effect : Json → ℕ
parse_effect obj = elim (string_of obj) [
  | none ↦ pica_none
  | some cp ↦
      if bytes_eq key_allow cp
      then pica_allow
      else if bytes_eq key_deny cp
      then pica_deny
      else pica_none
]

unfoldable pub parse_resource : Json → Option Str
parse_resource obj = string_of obj

unfoldable pub parse_binary : Json → Option Str
parse_binary obj = string_of obj

-- An array of strings, with NULL for the items that are none.
unfoldable pub inv_array_of : Jsons → InvArray
inv_array_of items = record {
  ichn_cnt = length (elements items);
  ichain = map string_of (elements items);
}

unfoldable pub parse_action : Json → PicaStmt → PicaStmt
parse_action (json_array items) stmt = record stmt {
  act_cnt = length (elements items);
  action = map string_of (elements items);
}
parse_action (json_string s) stmt = stmt
parse_action (json_int n) stmt = stmt
parse_action (json_object ms) stmt = stmt
parse_action json_other stmt = stmt

module _ (calls : JsonCalls) (heap : PolicyHeap) where
  unfoldable pub parse_uid : Json → PicaStmt → PicaStmt
  parse_uid (json_array items) stmt = record stmt {
    uid_cnt = length (elements items);
    uid = map calls.get_int (elements items);
  }
  parse_uid (json_string s) stmt = stmt
  parse_uid (json_int n) stmt = stmt
  parse_uid (json_object ms) stmt = stmt
  parse_uid json_other stmt = stmt

  -- `stmt` after the attribute `key`, if the object has it.
  abbrev pub with_attr : Members → Str → (Json → PicaStmt → PicaStmt) → PicaStmt → PicaStmt
  with_attr ms key parse stmt = elim (get_ex ms key) [ none ↦ stmt | some attr ↦ parse attr stmt ]

  abbrev pub parse_binary_to : Json → PicaStmt → PicaStmt
  parse_binary_to attr stmt = record stmt { exec_path = parse_binary attr }

  unfoldable pub parse_principal : Json → PicaStmt → PicaStmt
  parse_principal (json_object ms) stmt =
      with_attr ms key_uid parse_uid (with_attr ms key_binary parse_binary_to stmt)
  parse_principal (json_string s) stmt = stmt
  parse_principal (json_int n) stmt = stmt
  parse_principal (json_array js) stmt = stmt
  parse_principal json_other stmt = stmt

  -- The loop of version V1, which ends at an item that is no array.
  unfoldable pub inv_arrays : List Json → Option (List InvArray)
  inv_arrays [] = some []
  inv_arrays (array ∷ arrays) =
      let rest = inv_arrays arrays in
      elim array [
        | json_array items ↦ rest >>= λ cs. some (inv_array_of items ∷ cs)
        | other ↦ calls.other_length other >>= λ n. some (
            record { ichn_cnt = n; ichain = replicate n none }
            ∷ replicate (length arrays) heap.inv_array)
      ]

  unfoldable pub parse_invchain : Json → PicaStmt → PicaPolicy → Option PicaStmt
  parse_invchain (json_array items) stmt pp = pp.version >>= λ version.
      if bytes_eq version pica_policy_v0_string
      then some (record stmt { ary_cnt = 1; iarray = inv_array_of items ∷ [] })
      else if bytes_eq version pica_policy_v1_string
      then (inv_arrays (elements items) >>= λ arrays.
          some (record stmt { ary_cnt = length (elements items); iarray = arrays }))
      else some stmt
  parse_invchain (json_string s) stmt pp = some stmt
  parse_invchain (json_int n) stmt pp = some stmt
  parse_invchain (json_object ms) stmt pp = some stmt
  parse_invchain json_other stmt pp = some stmt

  abbrev pub parse_sid_to : Json → PicaStmt → PicaStmt
  parse_sid_to attr stmt = record stmt { sid = parse_sid attr }

  abbrev pub parse_effect_to : Json → PicaStmt → PicaStmt
  parse_effect_to attr stmt = record stmt { effect = parse_effect attr }

  -- The attribute "Resource", whose text is only compared with "enclave" for a message.
  unfoldable pub check_resource : Members → Option (Unit {0})
  check_resource ms = elim (get_ex ms key_resource) [
    | none ↦ some tt
    | some attr ↦ parse_resource attr >>= λ cp. some tt
  ]

  -- The body of the loop of `json_statement`.
  unfoldable pub parse_stmt : Json → PicaStmt → PicaPolicy → Option PicaStmt
  parse_stmt (json_object ms) stmt pp =
      let s1 = with_attr ms key_effect parse_effect_to (with_attr ms key_sid parse_sid_to stmt) in
      check_resource ms >>= λ u.
      let s2 =
        with_attr ms key_action parse_action (with_attr ms key_principal parse_principal s1) in
      elim (get_ex ms key_invocation_chain) [
        | none ↦ some s2
        | some attr ↦ parse_invchain attr s2 pp
      ]
  parse_stmt (json_string s) stmt pp = some stmt
  parse_stmt (json_int n) stmt pp = some stmt
  parse_stmt (json_array js) stmt pp = some stmt
  parse_stmt json_other stmt pp = some stmt

  -- The loop, from the item at place `i` on.
  unfoldable pub stmts_from : List Json → ℕ → PicaPolicy → Option (List PicaStmt)
  stmts_from [] i pp = some []
  stmts_from (item ∷ items) i pp =
      let rest = stmts_from items (suc i) pp in
      parse_stmt item (heap.stmt i) pp >>= λ stmt. rest >>= λ stmts. some (stmt ∷ stmts)

  unfoldable pub json_statement : Json → PicaPolicy → Option PicaPolicy
  json_statement (json_array items) pp = stmts_from (elements items) 0 pp >>= λ stmts.
      some (record pp { entries = length (elements items); stmt = stmts })
  json_statement (json_string s) pp = some pp
  json_statement (json_int n) pp = some pp
  json_statement (json_object ms) pp = some pp
  json_statement json_other pp = some pp

  -- An unknown version is not reported either: no string equals both versions.
  unfoldable pub json_version : Json → Option Str
  json_version obj = string_of obj

  unfoldable pub parse_member : Str → Json → PicaPolicy → Option PicaPolicy
  parse_member key val pp =
      if bytes_eq key key_version
      then some (record pp { version = json_version val })
      else if bytes_eq key key_statement
      then json_statement val pp
      else some pp

  unfoldable pub parse_members : List (Str × Json) → PicaPolicy → Option PicaPolicy
  parse_members [] pp = some pp
  parse_members (m ∷ ms) pp = parse_member m.0 m.1 pp >>= λ pp'. parse_members ms pp'

  -- The macro that runs over the members reads through NULL if there is no object.
  unfoldable pub pica_json_parse : Json → PicaPolicy → Option PicaPolicy
  pica_json_parse (json_object ms) pp = parse_members (members ms) pp
  pica_json_parse (json_string s) pp = none
  pica_json_parse (json_int n) pp = none
  pica_json_parse (json_array js) pp = none
  pica_json_parse json_other pp = none
