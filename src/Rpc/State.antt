-- ===== src/Rpc/State.antt =====
-- The traits `State` and its `StateServerImpl` of service/src/rpc/state.rs: the calls with their
-- arguments, their names on the wire, the types of their results, and the stand-in server.
use pda_proxy.Base.{◌≡◌, refl, Bool, true, false, String, List, starts_with}
use mathlib.Core.Bool.{not}
use pda_proxy.Service.Action.{Outcome, panic}
use pda_proxy.Rpc.TxConfig.{TxConfig}

-- The types of celestia_types and jsonrpsee that the interface is written with, and `f64`.
pub record Types : Type 1 where
  pub Address : Type 0
  pub AccAddress : Type 0
  pub ValAddress : Type 0
  pub Uint : Type 0
  pub Price : Type 0
  pub Balance : Type 0
  pub RawBlob : Type 0
  pub RawTxResponse : Type 0
  pub QueryDelegationResponse : Type 0
  pub QueryRedelegationsResponse : Type 0
  pub QueryUnbondingDelegationResponse : Type 0
  pub ErrorObject : Type 0

module _ (T : Types) where
  abbrev pub Config : Type 0
  Config = TxConfig T.AccAddress T.Price

  pub data StateCall : Type 0 where
    account_address : StateCall
    balance : StateCall
    balance_for_address : T.Address → StateCall
    begin_redelegate : T.ValAddress → T.ValAddress → T.Uint → Config → StateCall
    cancel_unbonding_delegation : T.ValAddress → T.Uint → T.Uint → Config → StateCall
    delegate : T.ValAddress → T.Uint → Config → StateCall
    is_stopped : StateCall
    query_delegation : T.ValAddress → StateCall
    query_redelegations : T.ValAddress → T.ValAddress → StateCall
    query_unbonding : T.ValAddress → StateCall
    submit_pay_for_blob : List T.RawBlob → Config → StateCall
    transfer : T.AccAddress → T.Uint → Config → StateCall
    undelegate : T.ValAddress → T.Uint → Config → StateCall

  -- The names of the `method` attributes.
  unfoldable pub state_method : StateCall → String
  state_method account_address = "state.AccountAddress"
  state_method balance = "state.Balance"
  state_method (balance_for_address addr) = "state.BalanceForAddress"
  state_method (begin_redelegate src dest amount config) = "state.BeginRedelegate"
  state_method (cancel_unbonding_delegation addr amount height config) =
      "state.CancelUnbondingDelegation"
  state_method (delegate addr amount config) = "state.Delegate"
  state_method is_stopped = "state.IsStopped"
  state_method (query_delegation addr) = "state.QueryDelegation"
  state_method (query_redelegations src dest) = "state.QueryRedelegations"
  state_method (query_unbonding addr) = "state.QueryUnbonding"
  state_method (submit_pay_for_blob blobs config) = "state.SubmitPayForBlob"
  state_method (transfer to amount config) = "state.Transfer"
  state_method (undelegate addr amount config) = "Undelegate"

  abbrev pub StateReply : StateCall → Type 0
  StateReply account_address = T.Address
  StateReply balance = T.Balance
  StateReply (balance_for_address addr) = T.Balance
  StateReply is_stopped = Bool
  StateReply (query_delegation addr) = T.QueryDelegationResponse
  StateReply (query_redelegations src dest) = T.QueryRedelegationsResponse
  StateReply (query_unbonding addr) = T.QueryUnbondingDelegationResponse
  StateReply (begin_redelegate src dest amount config) = T.RawTxResponse
  StateReply (cancel_unbonding_delegation addr amount height config) = T.RawTxResponse
  StateReply (delegate addr amount config) = T.RawTxResponse
  StateReply (submit_pay_for_blob blobs config) = T.RawTxResponse
  StateReply (transfer to amount config) = T.RawTxResponse
  StateReply (undelegate addr amount config) = T.RawTxResponse

  -- `todo!()` and `unimplemented!()` panic with these texts.
  unfoldable pub state_server : (c : StateCall) → Outcome T.ErrorObject (StateReply c)
  state_server (submit_pay_for_blob blobs config) = panic "not yet implemented"
  state_server account_address = panic "not implemented"
  state_server balance = panic "not implemented"
  state_server (balance_for_address addr) = panic "not implemented"
  state_server (begin_redelegate src dest amount config) = panic "not implemented"
  state_server (cancel_unbonding_delegation addr amount height config) = panic "not implemented"
  state_server (delegate addr amount config) = panic "not implemented"
  state_server is_stopped = panic "not implemented"
  state_server (query_delegation addr) = panic "not implemented"
  state_server (query_redelegations src dest) = panic "not implemented"
  state_server (query_unbonding addr) = panic "not implemented"
  state_server (transfer to amount config) = panic "not implemented"
  state_server (undelegate addr amount config) = panic "not implemented"

  abbrev pub is_undelegate : StateCall → Bool
  is_undelegate account_address = false
  is_undelegate balance = false
  is_undelegate (balance_for_address addr) = false
  is_undelegate (begin_redelegate src dest amount config) = false
  is_undelegate (cancel_unbonding_delegation addr amount height config) = false
  is_undelegate (delegate addr amount config) = false
  is_undelegate is_stopped = false
  is_undelegate (query_delegation addr) = false
  is_undelegate (query_redelegations src dest) = false
  is_undelegate (query_unbonding addr) = false
  is_undelegate (submit_pay_for_blob blobs config) = false
  is_undelegate (transfer to amount config) = false
  is_undelegate (undelegate addr amount config) = true

  -- Every call of this interface but one is in the namespace `state` on the wire: `undelegate` alone
  -- has a name without it.
  pub state_method-prefix :
      (c : StateCall) → starts_with (state_method c) "state." ≡ not (is_undelegate c)
  unfolding state_method
  state_method-prefix account_address = refl
  state_method-prefix balance = refl
  state_method-prefix (balance_for_address addr) = refl
  state_method-prefix (begin_redelegate src dest amount config) = refl
  state_method-prefix (cancel_unbonding_delegation addr amount height config) = refl
  state_method-prefix (delegate addr amount config) = refl
  state_method-prefix is_stopped = refl
  state_method-prefix (query_delegation addr) = refl
  state_method-prefix (query_redelegations src dest) = refl
  state_method-prefix (query_unbonding addr) = refl
  state_method-prefix (submit_pay_for_blob blobs config) = refl
  state_method-prefix (transfer to amount config) = refl
  state_method-prefix (undelegate addr amount config) = refl
