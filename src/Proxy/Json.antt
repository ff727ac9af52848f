-- ===== src/Proxy/Json.antt =====
-- `serde_json::Value` with the accessors that the handlers use: `get` and `get_mut` by a key,
-- `as_str`, `as_array`.
use pda_proxy.Base.{Bool, Option, none, some, String, List, [], ◌∷◌, str_eq, if◌then◌else◌}

mutual
  pub data Value : Type 0 where
    null : Value
    boolean : Bool → Value
    number : String → Value
    string : String → Value
    array : Values → Value
    object : Members → Value

  pub data Values : Type 0 where
    nil : Values
    cons : Value → Values → Values

  pub data Members : Type 0 where
    end : Members
    member : String → Value → Members → Members

abbrev pub get_member : String → Members → Option Value
get_member key end = none
get_member key (member k v ms) = if str_eq k key then some v else get_member key ms

abbrev pub set_member : String → Value → Members → Members
set_member key value end = end
set_member key value (member k v ms) =
    if str_eq k key then member k value ms else member k v (set_member key value ms)

-- `value.get(key)`
abbrev pub get_field : String → Value → Option Value
get_field key (object ms) = get_member key ms
get_field key _ = none

-- `*value.get_mut(key)? = new`
abbrev pub set_field : String → Value → Value → Value
set_field key new (object ms) = object (set_member key new ms)
set_field key new v = v

abbrev pub as_str : Value → Option String
as_str (string s) = some s
as_str _ = none

-- `value.get("method").and_then(|m| m.as_str())`
abbrev pub str_or_none : Option Value → Option String
str_or_none none = none
str_or_none (some v) = as_str v

abbrev pub method_of : Value → Option String
method_of v = str_or_none (get_field "method" v)

abbrev pub values_list : Values → List Value
values_list nil = []
values_list (cons v vs) = v ∷ values_list vs

abbrev pub list_values : List Value → Values
list_values [] = nil
list_values (v ∷ vs) = cons v (list_values vs)
