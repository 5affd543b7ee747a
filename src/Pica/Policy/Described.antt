-- ===== src/Pica/Policy/Described.antt =====
-- What a JSON value says of a policy, in whatever order its attributes stand.
use portable_tls_ra.Base.{
  ℕ, ◌<◌, ◌^◌, suc, ◌≡◌, refl, ap, subst, Bool, some, List, [], ◌∷◌, Str, IsText, All, length, map,
  bytes_eq, if◌then◌else◌, ◌⊎◌, inl, inr,
}
use portable_tls_ra.Pica.Types.{InvArray, PicaStmt, PicaPolicy}
use portable_tls_ra.Pica.Procinfo.Roundtrip.{c_string-IsText}
use portable_tls_ra.Pica.Policy.Json.{
  Json, json_string, json_int, json_array, json_object, Jsons, Members, elements, get_ex, string_of,
  key_allow, key_deny, key_binary, key_uid, key_sid, key_effect, key_resource, key_principal,
  key_action, key_invocation_chain, pica_policy_v0_string, pica_policy_v1_string, pica_allow,
  pica_deny,
}
use portable_tls_ra.Pica.Policy.Parse.{
  JsonCalls, PolicyHeap, inv_array_of, parse_uid, inv_arrays, parse_invchain,
}

-- A statement as it is meant.
pub record Statement : Type 0 where
  pub sid : Str
  pub is_allow : Bool
  pub resource : Str
  pub binary : Str
  pub uids : List ℕ
  pub actions : List Str
  pub chains : List (List Str)

-- The paths and names are texts, and the users are numbers that an `int` holds.
pub record IsStatement (st : Statement) : Type 0 where
  pub sid : IsText st.sid
  pub binary : IsText st.binary
  pub uids : All (λ n. n < 2 ^ 31) st.uids
  pub actions : All IsText st.actions
  pub chains : All (λ chain. All IsText chain) st.chains

abbrev pub array_of : List Str → InvArray
array_of chain = record { ichn_cnt = length chain; ichain = map some chain }

-- The structure of the statement, with every member set.
abbrev pub stmt_of : Statement → PicaStmt
stmt_of st = record {
  sid = some st.sid;
  effect = if st.is_allow then pica_allow else pica_deny;
  exec_path = some st.binary;
  uid_cnt = length st.uids;
  uid = st.uids;
  act_cnt = length st.actions;
  action = map some st.actions;
  ary_cnt = length st.chains;
  iarray = map array_of st.chains;
}

abbrev pub AreStrings : Json → List Str → Type 0
AreStrings j ss = (items : Jsons) × (j ≡ json_array items) × (elements items ≡ map json_string ss)

-- One array of strings for each chain.
abbrev pub AreChains : List Json → List (List Str) → Type 0
AreChains [] [] = Unit {0}
AreChains [] (chain ∷ chains) = ⊥
AreChains (j ∷ js) [] = ⊥
AreChains (j ∷ js) (chain ∷ chains) = AreStrings j chain × AreChains js chains

-- Version V0 has one chain, and V1 an array of them.
abbrev pub HasChains : Str → Json → List (List Str) → Type 0
HasChains version j chains =
    ((version ≡ pica_policy_v0_string)
      × ((chain : List Str) × (chains ≡ chain ∷ []) × AreStrings j chain))
    ⊎ ((version ≡ pica_policy_v1_string)
        × ((items : Jsons) × (j ≡ json_array items) × AreChains (elements items) chains))

abbrev pub HasPrincipal : Members → Statement → Type 0
HasPrincipal ps st =
    (get_ex ps key_binary ≡ some (json_string st.binary))
    × ((items : Jsons) × (get_ex ps key_uid ≡ some (json_array items))
        × (elements items ≡ map json_int st.uids))

-- The members of the object describe the statement.
pub record Describes (version : Str) (ms : Members) (st : Statement) : Type 0 where
  pub sid : get_ex ms key_sid ≡ some (json_string st.sid)
  pub effect :
      get_ex ms key_effect ≡ some (json_string (if st.is_allow then key_allow else key_deny))
  pub resource : get_ex ms key_resource ≡ some (json_string st.resource)
  pub principal :
      (ps : Members) × (get_ex ms key_principal ≡ some (json_object ps)) × HasPrincipal ps st
  pub action : (j : Json) × (get_ex ms key_action ≡ some j) × AreStrings j st.actions
  pub chains :
      (j : Json) × (get_ex ms key_invocation_chain ≡ some j) × HasChains version j st.chains

pub map-string_of :
    (ss : List Str) → All IsText ss → map string_of (map json_string ss) ≡ map some ss
unfolding string_of
map-string_of [] ok = refl
map-string_of (s ∷ ss) ok = rw (c_string-IsText s ok.0, map-string_of ss ok.1) refl

pub length-map : {A B : Type 0} (f : A → B) (xs : List A) → length (map f xs) ≡ length xs
length-map f [] = refl
length-map f (x ∷ xs) = ap suc (length-map f xs)

inv_array_of-strings :
    (items : Jsons) (ss : List Str)
    → elements items ≡ map json_string ss
    → All IsText ss
    → inv_array_of items ≡ array_of ss
unfolding inv_array_of
inv_array_of-strings items ss e ok = rw (e, map-string_of ss ok, length-map json_string ss) refl

module _ (calls : JsonCalls) (heap : PolicyHeap) where
  inv_arrays-chains :
      (js : List Json) (chains : List (List Str))
      → AreChains js chains
      → All (λ chain. All IsText chain) chains
      → inv_arrays calls heap js ≡ some (map array_of chains)
  unfolding inv_arrays
  inv_arrays-chains [] [] are ok = refl
  inv_arrays-chains [] (chain ∷ chains) are ok = absurd are
  inv_arrays-chains (j ∷ js) [] are ok = absurd are
  inv_arrays-chains (j ∷ js) (chain ∷ chains) are ok =
      let first = inv_array_of-strings are.0.0 chain are.0.2 ok.0 in
      let rest = inv_arrays-chains js chains are.1 ok.1 in rw (are.0.1, rest, first) refl

  length-AreChains :
      (js : List Json) (chains : List (List Str)) → AreChains js chains → length js ≡ length chains
  length-AreChains [] [] are = refl
  length-AreChains [] (chain ∷ chains) are = absurd are
  length-AreChains (j ∷ js) [] are = absurd are
  length-AreChains (j ∷ js) (chain ∷ chains) are = ap suc (length-AreChains js chains are.1)

  pub parse_invchain-chains :
      (j : Json) (stmt : PicaStmt) (pp : PicaPolicy) (version : Str) (chains : List (List Str))
      → pp.version ≡ some version
      → HasChains version j chains
      → All (λ chain. All IsText chain) chains
      → parse_invchain calls heap j stmt pp
        ≡ some (record stmt { ary_cnt = length chains; iarray = map array_of chains })
  unfolding parse_invchain bytes_eq
  parse_invchain-chains j stmt pp version chains e (inl v0) ok =
      let chain = v0.1.0 in
      let texts : All (λ c. All IsText c) (chain ∷ []) =
        subst (λ cs. All (λ c. All IsText c) cs) v0.1.1 ok in
      let strings = v0.1.2 in
      let array = inv_array_of-strings strings.0 chain strings.2 texts.0 in
      rw (strings.1, e, v0.0, v0.1.1, array) refl
  parse_invchain-chains j stmt pp version chains e (inr v1) ok =
      let items = v1.1.0 in
      let arrays = inv_arrays-chains (elements items) chains v1.1.2 ok in
      let count = length-AreChains (elements items) chains v1.1.2 in
      rw (v1.1.1, e, v1.0, arrays, count) refl

  pub parse_uid-ints :
      (items : Jsons) (ns : List ℕ) (stmt : PicaStmt)
      → ((n : ℕ) → n < 2 ^ 31 → calls.get_int (json_int n) ≡ n)
      → All (λ n. n < 2 ^ 31) ns
      → elements items ≡ map json_int ns
      → parse_uid calls heap (json_array items) stmt ≡ record stmt { uid_cnt = length ns; uid = ns }
  unfolding parse_uid
  parse_uid-ints items ns stmt ints small e =
      rw (e, length-map json_int ns, map-get_int ns small) refl
    where
      map-get_int :
          (ns : List ℕ) → All (λ n. n < 2 ^ 31) ns → map calls.get_int (map json_int ns) ≡ ns
      map-get_int [] all = refl
      map-get_int (n ∷ ns) all = rw (ints n all.0, map-get_int ns all.1) refl
