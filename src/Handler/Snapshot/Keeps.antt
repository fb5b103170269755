-- ===== src/Handler/Snapshot/Keeps.antt =====
-- What `pendingToRunContext` leaves alone.
use firefly_transaction_mana.Prelude.{String, ◌≡◌, ap, Bool, false, Option, none, some, List, arith}
use firefly_transaction_mana.Tx.{ManagedTx, TxUpdatesExternal}
use firefly_transaction_mana.Tx.External.{apply_external_tx_updates}
use firefly_transaction_mana.Tx.Laws.{mtx-apply_external}
use firefly_transaction_mana.Handler.{Confirmation, Receipt, ConfirmationsNotification, Request}
use firefly_transaction_mana.Handler.Exec.{
  Toolkit, Effect, set_receipt, add_confirmations, Run, add_sub_status_action,
}
use firefly_transaction_mana.Handler.Relations.{
  Keeps, Keeps-refl, Keeps-trans, bind-rel, select-skip,
}
use firefly_transaction_mana.Handler.Snapshot.{
  record_external_update, update_fields, take_request, note_delete, note_receipt, take_receipt,
  note_confirmed, store_confirmations, take_confirmations, pending_to_run_context,
}

-- The status is none of the fields that an external update can set.
pub status-apply_external :
    (tk : Toolkit) (m : ManagedTx) (u : TxUpdatesExternal)
    → (apply_external_tx_updates tk.big_string tk.json_string m u).mtx.status ≡ m.status
status-apply_external tk m u =
    ap (λ (x : ManagedTx). x.status) (mtx-apply_external tk.big_string tk.json_string m u)

module _ (t : Effect → Bool)
    (t-set_receipt : (id : String) (r : Option Receipt) → t (set_receipt id r) ≡ false)
    (t-add_confirmations : (id : String) (f : Bool) (cs : List Confirmation)
      → t (add_confirmations id f cs) ≡ false)
    (tk : Toolkit) where
  update_fields-Keeps : (u : TxUpdatesExternal) (r : Run) → Keeps t r (update_fields tk u r).1
  unfolding update_fields record_external_update add_sub_status_action
  update_fields-Keeps u r = ground (arith, status-apply_external tk r.pending.mtx u)

  take_request-Keeps : (q : Option Request) (r : Run) → Keeps t r (take_request tk q r).1
  unfolding take_request record_external_update add_sub_status_action
  take_request-Keeps none r = Keeps-refl t r
  take_request-Keeps (some q) r =
      ground (arith, status-apply_external tk r.pending.mtx q.tx_updates)

  note_delete-Keeps : (r : Run) → Keeps t r (note_delete tk r).1
  unfolding note_delete
  note_delete-Keeps r = ground arith

  take_receipt-Keeps : (r : Run) → Keeps t r (take_receipt tk r).1
  unfolding take_receipt note_receipt add_sub_status_action
  take_receipt-Keeps r = ground (
    arith,
    select-skip t r.effects (set_receipt r.pending.mtx.id r.ctx.receipt) (t-set_receipt _ _),
  )

  store_confirmations-Keeps :
      (o : Option ConfirmationsNotification) (r : Run) → Keeps t r (store_confirmations tk o r).1
  unfolding store_confirmations note_confirmed add_sub_status_action
  store_confirmations-Keeps none r = Keeps-refl t r
  store_confirmations-Keeps (some n) r = ground (
    arith,
    select-skip t r.effects (add_confirmations r.pending.mtx.id n.new_fork n.confirmations)
        (t-add_confirmations _ _ _),
  )

  take_confirmations-Keeps : (r : Run) → Keeps t r (take_confirmations tk r).1
  unfolding take_confirmations
  take_confirmations-Keeps r = ground (arith, store_confirmations-Keeps r.ctx.confirmations r)

  -- Preparing a run keeps the status, and makes none of the calls that `t` tells.
  pub pending_to_run_context-Keeps :
      (q : Option Request) (r : Run) → Keeps t r (pending_to_run_context tk q r).1
  unfolding pending_to_run_context
  pending_to_run_context-Keeps q =
      bind-rel (Keeps t) (Keeps-trans t) (take_request tk q) _ (take_request-Keeps q) λ _.
        bind-rel (Keeps t) (Keeps-trans t) (note_delete tk) _ note_delete-Keeps λ _.
          bind-rel (Keeps t) (Keeps-trans t) (take_receipt tk) _ take_receipt-Keeps
            λ _. take_confirmations-Keeps
