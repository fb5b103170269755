-- ===== src/Writer.antt =====
-- internal/persistence/postgres/transaction_writer.go: a worker of the transaction writer, which
-- writes its operations in batches. This file is mergeTxUpdates.
pub mod Merged
pub mod Nonces
mod Examples
use firefly_transaction_mana.Prelude.{
  ℕ, String, Option, none, some, List, [], ◌∷◌, str_eq, if◌then◌else◌,
}
use firefly_transaction_mana.Tx.{ManagedTx, TxStatus, succeeded, failed, TxUpdates}
use firefly_transaction_mana.Tx.Updates.{merge}

-- An update of a transaction, by its ID.
pub record UpdateOp : Type 0 where
  pub tx_id : String
  pub tx_update : TxUpdates

-- apitypes.TXCompletion, without its time.
pub record TxCompletion : Type 0 where
  pub id : String
  pub status : TxStatus

-- The updates by the IDs of their transactions, each ID once.
abbrev pub Merges : Type 0
Merges = List (String × TxUpdates)

unfoldable pub merge_one : String → TxUpdates → Merges → Merges
unfolding merge
merge_one id u [] = (id, u) ∷ []
merge_one id u ((k, v) ∷ ms) =
    if str_eq k id then (k, merge v u) ∷ ms else (k, v) ∷ merge_one id u ms

abbrev pub completion_of : String → Option TxStatus → List TxCompletion → List TxCompletion
completion_of id (some succeeded) cs = record { id = id; status = succeeded } ∷ cs
completion_of id (some failed) cs = record { id = id; status = failed } ∷ cs
completion_of id _ cs = cs

unfoldable pub merge_from : Merges → List UpdateOp → Merges
unfolding merge_one
merge_from ms [] = ms
merge_from ms (x ∷ xs) = merge_from (merge_one x.tx_id x.tx_update ms) xs

unfoldable pub completions : List UpdateOp → List TxCompletion
completions [] = []
completions (x ∷ xs) = completion_of x.tx_id x.tx_update.status (completions xs)

unfoldable pub merge_tx_updates : List UpdateOp → List TxCompletion × Merges
unfolding merge_from completions
merge_tx_updates xs = (completions xs, merge_from [] xs)
