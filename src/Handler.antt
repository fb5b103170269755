-- ===== src/Handler.antt =====
-- pkg/txhandler/simple: the state of the simple transaction handler, and what it exchanges with
-- its toolkit. A pointer to a structure is an `Option`; a time is a number of nanoseconds that
-- starts below every time of the program, so that 0 is Go's zero time.
pub mod Exec
pub mod Relations
pub mod Submit
pub mod Snapshot
pub mod Policy
pub mod Loop
mod Examples
use firefly_transaction_mana.Prelude.{ℕ, String, Bool, Option, List, ℤ}
use firefly_transaction_mana.Tx.{ManagedTx, TxUpdates, TxUpdatesExternal, TxSubStatus, TxAction}
use firefly_transaction_mana.Tx.External.{FieldUpdateRecord}

-- policyEngineAPIRequestType
pub data ActionType : Type 0 where
  action_none action_delete action_suspend action_resume action_update : ActionType

pub data UpdateType : Type 0 where
  no_update update delete : UpdateType

-- ffcapi.ErrorReason; `no_reason` is the empty string.
pub data ErrorReason : Type 0 where
  no_reason invalid_inputs transaction_reverted nonce_too_low : ErrorReason
  transaction_underpriced insufficient_funds not_found known_transaction downstream_down :
      ErrorReason
  other_reason : String → ErrorReason

-- An error that a callee returned, and the errors that the handler makes.
pub data Error : Type 0 where
  callee_error : String → Error
  transaction_not_found : String → Error
  unsupported_field_for_update : String → Error
  request_invalid : ActionType → Error
  duplicate_id : String → Error

-- ffcapi.TransactionReceiptResponse, as far as the handler and the confirmations read it.
pub record Receipt : Type 0 where
  pub block_number : ℕ
  pub block_hash : String
  pub success : Bool
  pub protocol_id : String

-- apitypes.Confirmation
pub record Confirmation : Type 0 where
  pub block_number : ℕ
  pub block_hash : String
  pub parent_hash : String

-- apitypes.ConfirmationsNotification
pub record ConfirmationsNotification : Type 0 where
  pub confirmed : Bool
  pub new_fork : Bool
  pub confirmations : List Confirmation
  pub current_confirmation_count : ℕ
  pub target_confirmation_count : ℕ

-- simplePolicyInfo
pub record PolicyInfo : Type 0 where
  pub last_warn_time : Option ℕ

-- pendingState, without its mutex.
pub record PendingState : Type 0 where
  pub mtx : ManagedTx
  pub tracking_transaction_hash : String
  pub last_policy_cycle : ℕ
  pub receipt : Option Receipt
  pub info : Option PolicyInfo
  pub confirmed : Bool
  pub confirmations : Option ConfirmationsNotification
  pub receipt_notify : Option ℕ
  pub confirm_notify : Option ℕ
  pub remove : Bool
  pub sub_status : TxSubStatus

-- The JSON text that a history action carries, by what it is made of.
pub data ActionInfo : Type 0 where
  no_info : ActionInfo
  protocol_id : String → ActionInfo
  gas_price : String → ActionInfo
  reason : ErrorReason → ActionInfo
  error : Error → ActionInfo
  nonce : Option ℤ → ActionInfo
  changed_fields : List (String × FieldUpdateRecord) → ActionInfo

-- A call of `AddSubStatusAction`, and the closure of `RunContext` that makes it.
pub record HistoryUpdate : Type 0 where
  pub tx_id : String
  pub sub_status : TxSubStatus
  pub action : TxAction
  pub info : ActionInfo
  pub err : ActionInfo
  pub action_occurred : ℕ

-- RunContext. `TX` and `Info` are pointers into the pending state, and stand there.
pub record RunContext : Type 0 where
  pub receipt : Option Receipt
  pub confirmations : Option ConfirmationsNotification
  pub confirmed : Bool
  pub sync_action : ActionType
  pub process_tx : Bool
  pub sub_status : TxSubStatus
  pub update_type : UpdateType
  pub updated_info : Bool
  pub tx_updates : TxUpdates
  pub history_updates : List HistoryUpdate

-- apitypes.ManagedTransactionEventType
pub data EventType : Type 0 where
  process_succeeded process_failed deleted : EventType
  transaction_hash_added transaction_hash_removed : EventType

-- policyEngineAPIRequest; `has_response_channel` says whether its response channel is made when the
-- policy loop answers it, which happens only after the request was queued.
pub record Request : Type 0 where
  pub has_response_channel : Bool
  pub request_type : ActionType
  pub tx_updates : TxUpdatesExternal
  pub tx_id : String
