-- ===== src/Tests/Policy.antt =====
-- A policy of one statement, read, and the same policy with its version at the end.
use portable_tls_ra.Base.{
  ℕ, ◌≡◌, ◌<◌, ◌^◌, ◌-◌, refl, true, none, some, List, [], ◌∷◌, is_text-IsText, bytes_eq, inr, ltb,
  if◌then◌else◌, arith,
}
use portable_tls_ra.Pica.Types.{PicaStmt, PicaPolicy}
use portable_tls_ra.Pica.Hashtable.Defs.{Slot, empty_htable}
use portable_tls_ra.Pica.Policy.Json.{
  Json, json_string, json_int, json_array, json_object, json_other, Jsons, no_items, next_item,
  Members, no_members, next_member, elements, members, get_ex, key_allow, key_binary, key_uid,
  key_sid, key_effect, key_resource, key_principal, key_action, key_invocation_chain, key_version,
  key_statement, pica_policy_v1_string,
}
use portable_tls_ra.Pica.Policy.Parse.{JsonCalls, PolicyHeap, pica_json_parse}
use portable_tls_ra.Pica.Policy.Unversioned.{pica_json_parse_unversioned}
use portable_tls_ra.Pica.Policy.Described.{Statement, IsStatement, Describes}
use portable_tls_ra.Pica.Policy.Whole.{DescribesPolicy, policy_of}
use portable_tls_ra.Pica.Policy.Read.{PolicyFile, pica_read_policy}
use portable_tls_ra.Pica.Policy.Loaded.{pica_read_policy-DescribesPolicy}

abbrev statement : Statement
statement = record {
  sid = 83 ∷ [];
  is_allow = true;
  resource = 101 ∷ [];
  binary = 47 ∷ 97 ∷ [];
  uids = 1000 ∷ [];
  actions = (102 ∷ []) ∷ [];
  chains = ((47 ∷ 115 ∷ []) ∷ (47 ∷ 97 ∷ []) ∷ []) ∷ [];
}

abbrev chain : Jsons
chain = next_item (json_string (47 ∷ 115 ∷ [])) (next_item (json_string (47 ∷ 97 ∷ [])) no_items)

abbrev principal : Members
principal =
    next_member key_uid (json_array (next_item (json_int 1000) no_items))
      (next_member key_binary (json_string (47 ∷ 97 ∷ [])) no_members)

abbrev attributes : Members
attributes = next_member key_principal (json_object principal) (
    next_member key_sid (json_string (83 ∷ [])) (
      next_member key_effect (json_string key_allow) (
        next_member key_resource (json_string (101 ∷ [])) (
          next_member key_action (json_array (next_item (json_string (102 ∷ [])) no_items)) (
            next_member key_invocation_chain (json_array (next_item (json_array chain) no_items))
              no_members)))))

abbrev statements : Jsons
statements = next_item (json_object attributes) no_items

abbrev policy : Members
policy =
    next_member key_version (json_string pica_policy_v1_string)
      (next_member key_statement (json_array statements) no_members)

-- The statements before the version.
abbrev policy' : Members
policy' =
    next_member key_statement (json_array statements)
      (next_member key_version (json_string pica_policy_v1_string) no_members)

-- A number that is too large for an `int` becomes the largest one.
abbrev int_of : Json → ℕ
int_of (json_int n) = if ltb n (2 ^ 31) then n else 2 ^ 31 - 1
int_of (json_string s) = 0
int_of (json_array js) = 0
int_of (json_object ms) = 0
int_of json_other = 0

abbrev calls : JsonCalls
calls = record { get_int = int_of; other_length = λ j. none }

int_of_small : (n : ℕ) → n < 2 ^ 31 → int_of (json_int n) ≡ n
int_of_small n small = let fits : ltb n (2 ^ 31) ≡ true = ground (arith, small) in rw fits refl

abbrev garbage : PicaStmt
garbage = record {
  sid = none;
  effect = 9;
  exec_path = none;
  uid_cnt = 9;
  uid = [];
  act_cnt = 9;
  action = [];
  ary_cnt = 9;
  iarray = [];
}

abbrev heap : PolicyHeap
heap = record { stmt = λ i. garbage; inv_array = record { ichn_cnt = 9; ichain = [] } }

abbrev unset : PicaPolicy
unset = record { version = none; entries = 9; stmt = [] }

statement-IsStatement : IsStatement statement
statement-IsStatement = record {
  sid = is_text-IsText (83 ∷ []) refl;
  binary = is_text-IsText (47 ∷ 97 ∷ []) refl;
  uids = (omega arith, tt);
  actions = (is_text-IsText (102 ∷ []) refl, tt);
  chains = ((is_text-IsText (47 ∷ 115 ∷ []) refl, (is_text-IsText (47 ∷ 97 ∷ []) refl, tt)), tt);
}

attributes-Describes : Describes pica_policy_v1_string attributes statement
unfolding get_ex bytes_eq elements
attributes-Describes = record {
  sid = refl;
  effect = refl;
  resource = refl;
  principal = (principal, refl, (refl, (next_item (json_int 1000) no_items, refl, refl)));
  action = (
    json_array (next_item (json_string (102 ∷ [])) no_items),
    refl,
    (next_item (json_string (102 ∷ [])) no_items, refl, refl),
  );
  chains = (
    json_array (next_item (json_array chain) no_items),
    refl,
    inr (refl, (next_item (json_array chain) no_items, refl, ((chain, refl, refl), tt))),
  );
}

policy-DescribesPolicy : DescribesPolicy pica_policy_v1_string policy (statement ∷ [])
unfolding elements members
policy-DescribesPolicy = record {
  before = [];
  between = [];
  behind = [];
  items = statements;
  order = refl;
  before_unused = tt;
  between_unused = tt;
  behind_unused = tt;
  statements = ((attributes, refl, attributes-Describes), tt);
}

abbrev file : PolicyFile
file = record { size = 3; bytes = 7 ∷ 7 ∷ 7 ∷ [] }

pica_read_policy_example :
    (table : List (Slot PicaStmt)) × (pica_read_policy
        (λ s seed. 5)
        (λ s. s)
        calls
        heap
        (λ b. some (json_object policy))
        (some file)
        unset
        empty_htable
      ≡ some (true, policy_of pica_policy_v1_string (statement ∷ []), table))
pica_read_policy_example =
    pica_read_policy-DescribesPolicy (λ s seed. 5) (λ s. s) calls heap
      (λ b. some (json_object policy)) file policy pica_policy_v1_string (statement ∷ []) unset
      empty_htable int_of_small refl refl (is_text-IsText pica_policy_v1_string refl)
      policy-DescribesPolicy (statement-IsStatement, tt)

pica_json_parse_unversioned_example : pica_json_parse calls heap (json_object policy') unset ≡ none
unfolding elements members
pica_json_parse_unversioned_example =
    pica_json_parse_unversioned calls heap policy' attributes pica_policy_v1_string statement
      statements [] [] ((key_version, json_string pica_policy_v1_string) ∷ []) unset refl tt refl
      refl attributes-Describes
