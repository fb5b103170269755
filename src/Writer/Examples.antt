-- ===== src/Writer/Examples.antt =====
-- Batches of the transaction writer.
use firefly_transaction_mana.Prelude.{
  ℕ, ◌+◌, ◌<◌, ◌≡◌, refl, true, false, Option, none, some, List, [], ◌∷◌, pos, arith,
}
use firefly_transaction_mana.Tx.{ManagedTx, no_updates, pending, succeeded}
use firefly_transaction_mana.Nonces.Sequence.Unique.{below_nil}
use firefly_transaction_mana.Writer.{UpdateOp, merge_tx_updates}
use firefly_transaction_mana.Writer.Merged.{
  find_update, updates_of, apply_each, apply_found, merge_tx_updates-apply_each,
}
use firefly_transaction_mana.Writer.Nonces.{InsertOp, InsertBatch, Signer, run_batches}
use firefly_transaction_mana.Writer.Nonces.Unique.{OrderedIf, ops_in, run_batches-Ordered}

abbrev stored_tx : ManagedTx
stored_tx = record {
  id = "ns1:a";
  created = some 5;
  updated = some 5;
  status = pending;
  delete_requested = none;
  sequence_id = "s1";
  from = "0xaa";
  to = "0xbb";
  nonce = some (pos 7);
  gas = none;
  value = none;
  gas_price = some "10";
  transaction_data = "data";
  transaction_hash = "";
  policy_info = none;
  first_submit = none;
  last_submit = none;
  error_message = "";
}

abbrev updates : List UpdateOp
updates =
    record { tx_id = "tx1"; tx_update = record no_updates { transaction_hash = some "0x01" } }
    ∷ record { tx_id = "tx2"; tx_update = record no_updates { status = some succeeded } }
    ∷ record { tx_id = "tx1"; tx_update = record no_updates { first_submit = some 8 } }
    ∷ []

merge_tx_updates-apply_each_example :
    apply_found stored_tx 9 (find_update "tx1" (merge_tx_updates updates).1)
    ≡ apply_each stored_tx 5 9 (updates_of "tx1" updates)
merge_tx_updates-apply_each_example = merge_tx_updates-apply_each "tx1" stored_tx 5 9 updates

abbrev insert_at : ℕ → Option ℕ → InsertOp
insert_at now node = record {
  pre_assigned = none;
  sent_conflict = false;
  now = now;
  node_nonce = node;
  is_read = true;
}

-- The second batch finds the entry in the cache, but fails; the third one asks again.
abbrev batches : List InsertBatch
batches =
    record {
      at = 1;
      ops = insert_at 1 (some 4) ∷ insert_at 1 none ∷ [];
      evicted = false;
      committed = true;
    }
    ∷ record { at = 2; ops = insert_at 2 none ∷ []; evicted = false; committed = false }
    ∷ record { at = 3; ops = insert_at 3 (some 5) ∷ []; evicted = false; committed = true }
    ∷ []

abbrev new_signer : Signer
new_signer = record { cached = none; stored = [] }

run_batches-Ordered_example : OrderedIf (10 + ops_in batches) (run_batches 60 batches new_signer)
run_batches-Ordered_example =
    run_batches-Ordered 60 10 batches new_signer (omega arith)
      (
        (known 4 (omega arith), refl, (no_answer, refl, tt)),
        ((no_answer, refl, tt), ((known 5 (omega arith), refl, tt), tt)),
      )
      (record { below = below_nil; ahead = tt })
  where
    no_answer : (n : ℕ) → none ≡ some n → n < 10
    no_answer n e = absurd cc

    some_inj : (m n : ℕ) → some m ≡ some n → m ≡ n
    some_inj m n e = cc

    known : (m : ℕ) → m < 10 → (n : ℕ) → some m ≡ some n → n < 10
    known m l n e = omega (arith, l, some_inj m n e)
