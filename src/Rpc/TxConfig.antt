-- ===== src/Rpc/TxConfig.antt =====
-- `TxConfig` of service/src/rpc/tx_config.rs: the options of a transaction, their setters and their
-- `Serialize`, over any serializer.
use pda_proxy.Base.{ℕ, Bool, true, Option, none, some, String, Result, ok, ◌>>=◌}

-- The addresses of celestia_types, and `f64`.
module _ (Address Price : Type 0) where
  pub record TxConfig : Type 0 where
    pub signer_address : Option Address
    pub key_name : Option String
    pub gas_price : Option Price
    pub gas : Option ℕ  -- u64
    pub fee_granter_address : Option Address

  -- What the fields are serialized from.
  pub data FieldValue : Type 0 where
    address : Address → FieldValue
    text : String → FieldValue
    price : Price → FieldValue
    flag : Bool → FieldValue
    number : ℕ → FieldValue

  -- The trait `Serializer` with its `SerializeStruct`.
  pub record Serializer : Type 1 where
    pub State : Type 0
    pub Ok : Type 0
    pub Error : Type 0
    pub serialize_struct : String → ℕ → Result Error State
    pub serialize_field : State → String → FieldValue → Result Error State
    pub end : State → Result Error Ok

module _ {Address Price : Type 0} where
  -- The derived `Default`.
  abbrev pub default : TxConfig Address Price
  default = record {
    signer_address = none;
    key_name = none;
    gas_price = none;
    gas = none;
    fee_granter_address = none;
  }

  unfoldable pub with_gas_price : TxConfig Address Price → Price → TxConfig Address Price
  with_gas_price c gas_price = record c { gas_price = some gas_price }

  unfoldable pub with_gas : TxConfig Address Price → ℕ → TxConfig Address Price
  with_gas c gas = record c { gas = some gas }

  unfoldable pub with_fee_granter_address :
      TxConfig Address Price → Address → TxConfig Address Price
  with_fee_granter_address c fee_granter_address = record c {
    fee_granter_address = some fee_granter_address;
  }

  unfoldable pub with_signer_address : TxConfig Address Price → Address → TxConfig Address Price
  with_signer_address c signer_address = record c { signer_address = some signer_address }

  unfoldable pub with_key_name : TxConfig Address Price → String → TxConfig Address Price
  with_key_name c key_name = record c { key_name = some key_name }

  module _ (s : Serializer Address Price) where
    -- `if let Some(v) = &self.field { … }`, where the braces change the state.
    abbrev pub if_some :
        {A : Type 0}
        → Option A
        → (A → s.State → Result s.Error s.State)
        → s.State
        → Result s.Error s.State
    if_some none f state = ok state
    if_some (some v) f state = f v state

    -- The two fields of a price.
    abbrev pub price_fields : Price → s.State → Result s.Error s.State
    price_fields gas_price state = do
      state ← s.serialize_field state "gas_price" (price gas_price)
      s.serialize_field state "is_gas_price_set" (flag true)

    unfoldable pub serialize : TxConfig Address Price → Result s.Error s.Ok
    serialize c = do
      state ← s.serialize_struct "TxConfig" 6
      state ←
          if_some c.signer_address (λ v state. s.serialize_field state "signer_address" (address v))
            state
      state ← if_some c.key_name (λ v state. s.serialize_field state "key_name" (text v)) state
      state ← if_some c.gas_price price_fields state
      state ← if_some c.gas (λ v state. s.serialize_field state "gas" (number v)) state
      state ←
          if_some c.fee_granter_address
            (λ v state. s.serialize_field state "fee_granter_address" (address v)) state
      s.end state
