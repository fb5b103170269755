-- ===== src/Tx/Updates.antt =====
-- `TXUpdates.Merge` of pkg/apitypes/managed_tx.go, and the assignments of `UpdateTransaction` in
-- internal/persistence/leveldb/leveldb_persistence.go.
use firefly_transaction_mana.Prelude.{ℕ, some, or_else, get_or}
use firefly_transaction_mana.Tx.{ManagedTx, TxUpdates}

-- The receiver comes first, as in the source: a field of the second one wins where it is set.
unfoldable pub merge : TxUpdates → TxUpdates → TxUpdates
merge txu txu2 = record {
  status = or_else txu2.status txu.status;
  delete_requested = or_else txu2.delete_requested txu.delete_requested;
  from = or_else txu2.from txu.from;
  to = or_else txu2.to txu.to;
  nonce = or_else txu2.nonce txu.nonce;
  gas = or_else txu2.gas txu.gas;
  value = or_else txu2.value txu.value;
  gas_price = or_else txu2.gas_price txu.gas_price;
  transaction_data = or_else txu2.transaction_data txu.transaction_data;
  transaction_hash = or_else txu2.transaction_hash txu.transaction_hash;
  policy_info = or_else txu2.policy_info txu.policy_info;
  first_submit = or_else txu2.first_submit txu.first_submit;
  last_submit = or_else txu2.last_submit txu.last_submit;
  error_message = or_else txu2.error_message txu.error_message;
}

-- What `UpdateTransaction` makes of the record that it read; `now` is `fftypes.Now()`.
unfoldable pub apply_updates : ManagedTx → TxUpdates → ℕ → ManagedTx
apply_updates tx updates now = record tx {
  status = get_or updates.status tx.status;
  delete_requested = or_else updates.delete_requested tx.delete_requested;
  from = get_or updates.from tx.from;
  to = get_or updates.to tx.to;
  nonce = or_else updates.nonce tx.nonce;
  gas = or_else updates.gas tx.gas;
  value = or_else updates.value tx.value;
  transaction_data = get_or updates.transaction_data tx.transaction_data;
  transaction_hash = get_or updates.transaction_hash tx.transaction_hash;
  gas_price = or_else updates.gas_price tx.gas_price;
  policy_info = or_else updates.policy_info tx.policy_info;
  first_submit = or_else updates.first_submit tx.first_submit;
  last_submit = or_else updates.last_submit tx.last_submit;
  error_message = get_or updates.error_message tx.error_message;
  updated = some now;
}
