-- ===== src/Handler/Snapshot.antt =====
-- pkg/txhandler/simple/policyloop.go: pendingToRunContext.
pub mod Keeps
pub mod Action
use firefly_transaction_mana.Prelude.{
  Bool, true, false, Option, none, some, [], if◌then◌else◌, is_some,
}
use firefly_transaction_mana.Tx.{
  no_updates, TxUpdatesExternal, sub_unset, external_update, receive_receipt, confirm_transaction,
  confirmed,
}
use firefly_transaction_mana.Tx.External.{Applied, apply_external_tx_updates}
use firefly_transaction_mana.Handler.{
  ActionType, action_none, action_delete, action_update, no_update, update,
  unsupported_field_for_update, PendingState, no_info, protocol_id, changed_fields, RunContext,
  Request, Receipt, ConfirmationsNotification,
}
use firefly_transaction_mana.Handler.Exec.{
  Toolkit, GasOracle, Run, set_receipt, add_confirmations, Exec, ◌>>=◌, ◌>>◌, skip, raise, crash,
  check, emit, modify_ctx, modify_pending, modify_mtx, get, set_sub_status, add_sub_status_action,
}

-- The context as it is first made. Its sub-status is not set from the pending state.
abbrev pub new_context : PendingState → RunContext
new_context p = record {
  receipt = p.receipt;
  confirmations = p.confirmations;
  confirmed = p.confirmed;
  sync_action = action_none;
  process_tx = false;
  sub_status = sub_unset;
  update_type = no_update;
  updated_info = false;
  tx_updates = no_updates;
  history_updates = [];
}

-- A run over `p`, as it begins.
abbrev pub new_run : PendingState → GasOracle → Run
new_run p o = record { pending = p; ctx = new_context p; oracle = o; effects = [] }

-- `if updated { … }` of an external update, after the transaction has been changed in place.
unfoldable pub record_external_update : Toolkit → Applied → Exec (Unit {0})
unfolding add_sub_status_action
record_external_update tk a =
    if a.updated
    then (do
      modify_ctx (λ c. record c { tx_updates = a.tx_updates; update_type = update })
      add_sub_status_action external_update (changed_fields a.tx_update_record) no_info tk.now
      modify_ctx (λ c. record c { process_tx = true }))
    else skip

unfoldable pub update_fields : Toolkit → TxUpdatesExternal → Exec (Unit {0})
unfolding apply_external_tx_updates record_external_update
update_fields tk u =
    if is_some u.gas_price then raise (unsupported_field_for_update "gasPrice") else (do
      r ← get
      let a = apply_external_tx_updates tk.big_string tk.json_string r.pending.mtx u
      modify_mtx (λ _. a.mtx)
      record_external_update tk a)

-- The request that is carried out in this run, if there is one.
unfoldable pub take_request : Toolkit → Option Request → Exec (Unit {0})
unfolding update_fields
take_request tk none = skip
take_request tk (some q) = do
  modify_ctx (λ c. record c { sync_action = q.request_type })
  elim q.request_type [ action_update ↦ update_fields tk q.tx_updates | _ ↦ skip ]

abbrev pub is_delete : ActionType → Bool
is_delete action_delete = true
is_delete _ = false

-- A deletion is noted on the transaction when it is first asked for.
unfoldable pub note_delete : Toolkit → Exec (Unit {0})
note_delete tk = do
  r ← get
  if is_delete r.ctx.sync_action
      then (if is_some r.pending.mtx.delete_requested then skip else (do
        modify_mtx (λ m. record m { delete_requested = some tk.now })
        modify_ctx (λ c. record c {
          update_type = update;
          tx_updates = record c.tx_updates { delete_requested = some tk.now };
          process_tx = true;
        })))
      else skip

-- The history entry names the protocol ID of the receipt, which must not be a nil pointer.
unfoldable pub note_receipt : Toolkit → Option Receipt → Exec (Unit {0})
unfolding add_sub_status_action
note_receipt tk none = crash
note_receipt tk (some receipt) =
    add_sub_status_action receive_receipt (protocol_id receipt.protocol_id) no_info tk.now

-- A receipt that came in since the last run. The lock of the pending state is held, so that no
-- other notification can have come between.
unfoldable pub take_receipt : Toolkit → Exec (Unit {0})
unfolding note_receipt
take_receipt tk = do
  r ← get
  if is_some r.pending.receipt_notify
      then (do
        emit (set_receipt r.pending.mtx.id r.ctx.receipt)
        check (tk.set_transaction_receipt r.pending.mtx.id r.ctx.receipt)
        note_receipt tk r.ctx.receipt
        modify_pending (λ p. record p { receipt_notify = none }))
      else skip

unfoldable pub note_confirmed : Toolkit → Bool → Exec (Unit {0})
unfolding add_sub_status_action
note_confirmed tk false = skip
note_confirmed tk true = do
  add_sub_status_action confirm_transaction no_info no_info tk.now
  set_sub_status confirmed

unfoldable pub store_confirmations : Toolkit → Option ConfirmationsNotification → Exec (Unit {0})
unfolding note_confirmed
store_confirmations tk none = skip
store_confirmations tk (some n) = do
  r ← get
  emit (add_confirmations r.pending.mtx.id n.new_fork n.confirmations)
  check (tk.add_transaction_confirmations r.pending.mtx.id n.new_fork n.confirmations)
  note_confirmed tk r.ctx.confirmed
  modify_pending (λ p. record p { confirm_notify = none })

-- Confirmations that came in since the last run.
unfoldable pub take_confirmations : Toolkit → Exec (Unit {0})
unfolding store_confirmations
take_confirmations tk = do
  r ← get
  if is_some r.pending.confirm_notify then store_confirmations tk r.ctx.confirmations else skip

unfoldable pub pending_to_run_context : Toolkit → Option Request → Exec (Unit {0})
pending_to_run_context tk request = do
  take_request tk request
  note_delete tk
  take_receipt tk
  take_confirmations tk
