-- ===== src/Handler/Loop/Outside.antt =====
-- A request for a transaction that is not in the in-flight set.
use firefly_transaction_mana.Prelude.{ℕ, ◌≡◌, ap, true, none, some, arith}
use firefly_transaction_mana.Tx.{ManagedTx}
use firefly_transaction_mana.Tx.External.{apply_external_tx_updates}
use firefly_transaction_mana.Tx.Laws.{mtx-apply_external}
use firefly_transaction_mana.Handler.{Request, action_update}
use firefly_transaction_mana.Handler.Exec.{Toolkit, Config, GasOracle, panic, add_sub_status_action}
use firefly_transaction_mana.Handler.Snapshot.{
  new_run, record_external_update, update_fields, take_request, note_delete, take_receipt,
  take_confirmations, pending_to_run_context,
}
use firefly_transaction_mana.Handler.Submit.{process_transaction, drive, resubmit}
use firefly_transaction_mana.Handler.Policy.{
  decide_policy, by_action, run_policy, drive_policy, exec_policy,
}
use firefly_transaction_mana.Handler.Loop.{LoopToolkit, stored, Cycle}
use firefly_transaction_mana.Handler.Loop.Requests.{
  panicked, find_pending, outside_pending, outside_request, run_one, run_request, process_request,
}

module _ (tk : Toolkit) (cfg : Config) (q : Request) (mtx : ManagedTx) (o : GasOracle)
    (first : ℕ) where
  exec_policy_outside :
      q.request_type ≡ action_update
      → q.tx_updates.gas_price ≡ none
      → (apply_external_tx_updates tk.big_string tk.json_string mtx q.tx_updates).updated ≡ true
      → mtx.first_submit ≡ some first
      → mtx.delete_requested ≡ none
      → (exec_policy tk cfg (some q) (new_run (outside_pending mtx) o)).0 ≡ panic
  unfolding exec_policy pending_to_run_context take_request update_fields record_external_update
      add_sub_status_action note_delete take_receipt take_confirmations decide_policy by_action
      run_policy drive_policy process_transaction drive resubmit outside_pending
  exec_policy_outside a g u f d =
      let m = mtx-apply_external tk.big_string tk.json_string mtx q.tx_updates in
      ground (
        arith,
        ap (λ (x : ManagedTx). x.first_submit) m,
        ap (λ (x : ManagedTx). x.delete_requested) m,
      )

module _ (tk : LoopToolkit) (n : ℕ) (q : Request) (c : Cycle) (mtx : ManagedTx) (first : ℕ) where
  -- An update request ends the process with a panic if its transaction is stored but outside the
  -- in-flight set, was submitted before and is not being deleted, and if the request changes some
  -- field and leaves the gas price alone: the policy info of such a pending state is a nil pointer.
  pub update_outside_panics :
      find_pending q.tx_id c.handler.inflight ≡ none
      → tk.get_transaction_by_id n q.tx_id ≡ stored (some mtx)
      → q.request_type ≡ action_update
      → q.tx_updates.gas_price ≡ none
      → (apply_external_tx_updates
          (tk.run c.runs).big_string
          (tk.run c.runs).json_string
          mtx
          q.tx_updates).updated
        ≡ true
      → mtx.first_submit ≡ some first
      → mtx.delete_requested ≡ none
      → process_request tk n q c ≡ panicked
  unfolding process_request outside_request run_request run_one
  update_outside_panics missing found a g u f d = ground (
    arith,
    exec_policy_outside (tk.run c.runs) c.handler.config q mtx c.handler.oracle first a g u f d,
  )
