-- ===== src/Tx/Examples.antt =====
-- Runs of the updates at concrete transactions.
use firefly_transaction_mana.Prelude.{String, ◌≡◌, refl, none, some, ℤ, pos}
use firefly_transaction_mana.Tx.{ManagedTx, TxUpdatesExternal, no_updates, pending, suspended}
use firefly_transaction_mana.Tx.Updates.{merge, apply_updates}
use firefly_transaction_mana.Tx.External.{apply_external_tx_updates}
use firefly_transaction_mana.Tx.External.Effect.{start}
use firefly_transaction_mana.Tx.Laws.{apply_updates-merge, stored_external, external_not_updated}

abbrev sample : ManagedTx
sample = record {
  id = "ns1:a";
  created = some 5;
  updated = some 5;
  status = pending;
  delete_requested = none;
  sequence_id = "s1";
  from = "0xaa";
  to = "0xbb";
  nonce = some (pos 7);
  gas = none;
  value = none;
  gas_price = some "10";
  transaction_data = "data";
  transaction_hash = "";
  policy_info = none;
  first_submit = none;
  last_submit = none;
  error_message = "";
}

abbrev request : TxUpdatesExternal
request = record {
  to = some "";
  nonce = some (pos 7);
  gas = some (pos 100);
  value = none;
  gas_price = some "10";
  transaction_data = none;
}

abbrev no_change : TxUpdatesExternal
no_change = record request { to = none; gas = none }

abbrev show : ℤ → String
show _ = "n"

abbrev same : String → String
same s = s

-- Only the fields that differ are updated.
request_updates :
    (apply_external_tx_updates show same sample request).tx_updates
    ≡ record no_updates { to = some ""; gas = some (pos 100) }
unfolding apply_external_tx_updates
request_updates = refl

apply_updates-merge_example :
    apply_updates sample
      (merge (record no_updates { to = some "x" }) (record no_updates { status = some suspended }))
      9
    ≡ apply_updates
        (apply_updates sample (record no_updates { to = some "x" }) 8)
        (record no_updates { status = some suspended })
        9
apply_updates-merge_example =
    apply_updates-merge sample (record no_updates { to = some "x" })
      (record no_updates { status = some suspended }) 8 9

stored_external_example :
    apply_updates sample (apply_external_tx_updates show same sample request).tx_updates 9
    ≡ record ((apply_external_tx_updates show same sample request).mtx) { updated = some 9 }
stored_external_example = stored_external show same sample request 9

external_not_updated_example : apply_external_tx_updates show same sample no_change ≡ start sample
unfolding apply_external_tx_updates
external_not_updated_example = external_not_updated show same sample no_change refl
