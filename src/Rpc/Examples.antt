-- ===== src/Rpc/Examples.antt =====
-- The transaction options at concrete values.
use pda_proxy.Base.{List, ℕ, ◌≡◌, refl, true, String, [], ◌∷◌, ◌++◌, ok}
use pda_proxy.Rpc.TxConfig.{
  FieldValue, TxConfig, price, flag, number, text, Serializer, default, with_gas, with_gas_price,
  with_key_name, serialize,
}

-- Addresses are texts, prices are numbers.
abbrev config : TxConfig String ℕ
config = with_key_name (with_gas (with_gas_price default 2) 9) "alice"

-- A serializer that collects what it is given.
abbrev collector : Serializer String ℕ
collector = record {
  State = List (String × FieldValue String ℕ);
  Ok = List (String × FieldValue String ℕ);
  Error = String;
  serialize_struct = λ name len. ok [];
  serialize_field = λ state name v. ok (state ++ ((name, v) ∷ []));
  end = λ state. ok state;
}

-- The price comes with its flag.
serialized :
    serialize collector config
    ≡ ok (
        ("key_name", text "alice")
        ∷ ("gas_price", price 2)
        ∷ ("is_gas_price_set", flag true)
        ∷ ("gas", number 9)
        ∷ [])
unfolding serialize with_gas_price with_gas with_key_name
serialized = refl
