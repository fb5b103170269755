-- ===== src/Tx/Laws.antt =====
-- What the updates of a transaction do, in memory and in the store.
use firefly_transaction_mana.Prelude.{
  ℕ, String, ◌≡◌, refl, false, some, ℤ, get_or-or_else, or_else_assoc,
}
use firefly_transaction_mana.Tx.{ManagedTx, TxUpdates, TxUpdatesExternal}
use firefly_transaction_mana.Tx.Updates.{merge, apply_updates}
use firefly_transaction_mana.Tx.External.{apply_external_tx_updates}
use firefly_transaction_mana.Tx.External.Effect.{with_request, start, external-Steps}

-- Storing two sets of updates one after the other leaves the record that storing their merge
-- leaves, whatever the two sets hold.
pub apply_updates-merge :
    (tx : ManagedTx) (a b : TxUpdates) (t now : ℕ)
    → apply_updates tx (merge a b) now ≡ apply_updates (apply_updates tx a t) b now
unfolding merge apply_updates
apply_updates-merge tx a b t now = simp (get_or-or_else, or_else_assoc)

module _ (big_string : ℤ → String) (json_string : String → String) (m : ManagedTx)
    (u : TxUpdatesExternal) where
  pub mtx-apply_external :
      (apply_external_tx_updates big_string json_string m u).mtx
      ≡ with_request big_string json_string m u
  mtx-apply_external = (external-Steps big_string json_string m 0 u).0

  -- Persisting the returned updates on the transaction as it was stored gives the transaction as
  -- it is in memory, apart from the time of the update.
  pub stored_external :
      (now : ℕ)
      → apply_updates m (apply_external_tx_updates big_string json_string m u).tx_updates now
        ≡ record ((apply_external_tx_updates big_string json_string m u).mtx) { updated = some now }
  unfolding apply_updates
  stored_external now = (external-Steps big_string json_string m now u).1 refl

  -- An external update that is reported as none has changed nothing and recorded nothing.
  pub external_not_updated :
      (apply_external_tx_updates big_string json_string m u).updated ≡ false
      → apply_external_tx_updates big_string json_string m u ≡ start m
  external_not_updated = (external-Steps big_string json_string m 0 u).2
