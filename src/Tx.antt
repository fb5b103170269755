-- ===== src/Tx.antt =====
-- pkg/apitypes/managed_tx.go: the managed transaction and the sets of updates to it.
-- Times are numbers (nanoseconds since the epoch), a pointer is an `Option`, and a `*JSONAny`,
-- which is a string type, is an `Option String`.
pub mod Updates
pub mod External
pub mod Laws
mod Examples
use firefly_transaction_mana.Prelude.{ℕ, String, Option, none, ℤ}

-- `unset` is the empty string, which the persistence refuses.
pub data TxStatus : Type 0 where
  unset pending succeeded failed suspended : TxStatus

pub data TxSubStatus : Type 0 where
  sub_unset received stale tracking confirmed sub_failed : TxSubStatus

pub data TxAction : Type 0 where
  state_transition external_update assign_nonce retrieve_gas_price : TxAction
  timeout submit_transaction receive_receipt confirm_transaction : TxAction

-- The embedded `ffcapi.TransactionHeaders` (`from` to `value`) are fields of the transaction.
-- `DeprecatedTransactionHeaders`, a copy of them made for API queries, is left out.
pub record ManagedTx : Type 0 where
  pub id : String
  pub created : Option ℕ
  pub updated : Option ℕ
  pub status : TxStatus
  pub delete_requested : Option ℕ
  pub sequence_id : String
  pub from : String
  pub to : String
  pub nonce : Option ℤ
  pub gas : Option ℤ
  pub value : Option ℤ
  pub gas_price : Option String
  pub transaction_data : String
  pub transaction_hash : String
  pub policy_info : Option String
  pub first_submit : Option ℕ
  pub last_submit : Option ℕ
  pub error_message : String

pub record TxUpdates : Type 0 where
  pub status : Option TxStatus
  pub delete_requested : Option ℕ
  pub from : Option String
  pub to : Option String
  pub nonce : Option ℤ
  pub gas : Option ℤ
  pub value : Option ℤ
  pub gas_price : Option String
  pub transaction_data : Option String
  pub transaction_hash : Option String
  pub policy_info : Option String
  pub first_submit : Option ℕ
  pub last_submit : Option ℕ
  pub error_message : Option String

pub record TxUpdatesExternal : Type 0 where
  pub to : Option String
  pub nonce : Option ℤ
  pub gas : Option ℤ
  pub value : Option ℤ
  pub gas_price : Option String
  pub transaction_data : Option String

-- `TXUpdates{}`
abbrev pub no_updates : TxUpdates
no_updates = record {
  status = none;
  delete_requested = none;
  from = none;
  to = none;
  nonce = none;
  gas = none;
  value = none;
  gas_price = none;
  transaction_data = none;
  transaction_hash = none;
  policy_info = none;
  first_submit = none;
  last_submit = none;
  error_message = none;
}
