-- ===== src/Pica/Policy/Json.antt =====
-- JSON values as json-c hands them out, and the attributes that the policy uses.
use portable_tls_ra.Base.{ℕ, Option, none, some, List, [], ◌∷◌, Str, bytes_eq, if◌then◌else◌}
use portable_tls_ra.Pica.Procinfo.Defs.{c_string}

-- `json_type_string`, `json_type_int`, `json_type_array` and `json_type_object`; the other types have no
-- functions here.
mutual
  pub data Json : Type 0 where
    json_string : Str → Json
    json_int : ℕ → Json
    json_array : Jsons → Json
    json_object : Members → Json
    json_other : Json

  pub data Jsons : Type 0 where
    no_items : Jsons
    next_item : Json → Jsons → Jsons

  pub data Members : Type 0 where
    no_members : Members
    next_member : Str → Json → Members → Members

-- The items that `json_object_array_get_idx` gives, in their order.
unfoldable pub elements : Jsons → List Json
elements no_items = []
elements (next_item j js) = j ∷ elements js

-- What `json_object_object_foreach` runs over.
unfoldable pub members : Members → List (Str × Json)
members no_members = []
members (next_member key j ms) = (key, j) ∷ members ms

-- `json_object_object_get_ex` of an object.
unfoldable pub get_ex : Members → Str → Option Json
get_ex no_members key = none
get_ex (next_member k j ms) key =
    let rest = get_ex ms key in if bytes_eq k key then some j else rest

-- `strdup(json_object_get_string(obj))` of a string, and NULL for other values.
unfoldable pub string_of : Json → Option Str
string_of (json_string s) = some (c_string s)
string_of (json_int n) = none
string_of (json_array js) = none
string_of (json_object ms) = none
string_of json_other = none

-- "Allow"
abbrev pub key_allow : Str
key_allow = 65 ∷ 108 ∷ 108 ∷ 111 ∷ 119 ∷ []

-- "Deny"
abbrev pub key_deny : Str
key_deny = 68 ∷ 101 ∷ 110 ∷ 121 ∷ []

-- "Binary"
abbrev pub key_binary : Str
key_binary = 66 ∷ 105 ∷ 110 ∷ 97 ∷ 114 ∷ 121 ∷ []

-- "Uid"
abbrev pub key_uid : Str
key_uid = 85 ∷ 105 ∷ 100 ∷ []

-- "Sid"
abbrev pub key_sid : Str
key_sid = 83 ∷ 105 ∷ 100 ∷ []

-- "Effect"
abbrev pub key_effect : Str
key_effect = 69 ∷ 102 ∷ 102 ∷ 101 ∷ 99 ∷ 116 ∷ []

-- "Resource"
abbrev pub key_resource : Str
key_resource = 82 ∷ 101 ∷ 115 ∷ 111 ∷ 117 ∷ 114 ∷ 99 ∷ 101 ∷ []

-- "Principal"
abbrev pub key_principal : Str
key_principal = 80 ∷ 114 ∷ 105 ∷ 110 ∷ 99 ∷ 105 ∷ 112 ∷ 97 ∷ 108 ∷ []

-- "Action"
abbrev pub key_action : Str
key_action = 65 ∷ 99 ∷ 116 ∷ 105 ∷ 111 ∷ 110 ∷ []

-- "InvocationChain"
abbrev pub key_invocation_chain : Str
key_invocation_chain =
    73 ∷ 110 ∷ 118 ∷ 111 ∷ 99 ∷ 97 ∷ 116 ∷ 105 ∷ 111 ∷ 110 ∷ 67 ∷ 104 ∷ 97 ∷ 105 ∷ 110 ∷ []

-- "Version"
abbrev pub key_version : Str
key_version = 86 ∷ 101 ∷ 114 ∷ 115 ∷ 105 ∷ 111 ∷ 110 ∷ []

-- "Statement"
abbrev pub key_statement : Str
key_statement = 83 ∷ 116 ∷ 97 ∷ 116 ∷ 101 ∷ 109 ∷ 101 ∷ 110 ∷ 116 ∷ []

-- "PICA-2026-09-15"
abbrev pub pica_policy_v0_string : Str
pica_policy_v0_string =
    80 ∷ 73 ∷ 67 ∷ 65 ∷ 45 ∷ 50 ∷ 48 ∷ 50 ∷ 54 ∷ 45 ∷ 48 ∷ 57 ∷ 45 ∷ 49 ∷ 53 ∷ []

-- "PICA-2026-09-25"
abbrev pub pica_policy_v1_string : Str
pica_policy_v1_string =
    80 ∷ 73 ∷ 67 ∷ 65 ∷ 45 ∷ 50 ∷ 48 ∷ 50 ∷ 54 ∷ 45 ∷ 48 ∷ 57 ∷ 45 ∷ 50 ∷ 53 ∷ []

abbrev pub pica_none : ℕ
pica_none = 0

abbrev pub pica_allow : ℕ
pica_allow = 1

abbrev pub pica_deny : ℕ
pica_deny = 2
