-- ===== src/Handler/Policy.antt =====
-- pkg/txhandler/simple/policyloop.go: execPolicy and flushChanges.
pub mod Keeps
pub mod Commits
pub mod Flush
pub mod Status
pub mod Laws
use firefly_transaction_mana.Prelude.{
  Bool, ◌-◌, true, false, not, Option, none, some, List, [], ◌∷◌, if◌then◌else◌, is_some, str_eq,
  ltb, ◌&&◌, ◌||◌,
}
use firefly_transaction_mana.Tx.{TxStatus, pending, succeeded, failed, suspended}
use firefly_transaction_mana.Handler.{
  ActionType, action_delete, action_suspend, action_resume, UpdateType, no_update, update, delete,
  Error, Receipt, Request, HistoryUpdate, process_succeeded, process_failed, deleted,
  transaction_hash_added, transaction_hash_removed,
}
use firefly_transaction_mana.Handler.Exec.{
  Toolkit, Config, add_history, send_event, update_stored, delete_stored, marked_stale, Exec, next,
  ◌>>=◌, ◌>>◌, pure, skip, check, emit, attempt, modify_ctx, modify_pending, modify_mtx, get,
}
use firefly_transaction_mana.Handler.Submit.{process_transaction}
use firefly_transaction_mana.Handler.Snapshot.{pending_to_run_context}

unfoldable pub set_status : TxStatus → Exec (Unit {0})
set_status s = do
  modify_mtx (λ m. record m { status = s })
  modify_ctx
      (λ c. record c { update_type = update; tx_updates = record c.tx_updates { status = some s } })

-- The status of a transaction that is confirmed with this receipt.
abbrev pub receipt_status : Option Receipt → TxStatus
receipt_status none = failed
receipt_status (some receipt) = if receipt.success then succeeded else failed

unfoldable pub complete_confirmed : Exec Bool
unfolding set_status
complete_confirmed = do r ← get; set_status (receipt_status r.ctx.receipt); pure true

unfoldable pub suspend_from : TxStatus → Exec Bool
unfolding set_status
suspend_from pending = do set_status suspended; pure true
suspend_from _ = pure false

unfoldable pub resume_from : TxStatus → Exec Bool
unfolding set_status
resume_from suspended = do set_status pending; pure false
resume_from _ = pure false

-- The confirmation manager is told of the hash that the transaction has now, and before that to
-- forget the previous one. An error of either call is only logged.
unfoldable pub tracked : Toolkit → Option Error → Exec (Unit {0})
tracked tk none =
    modify_pending (λ p. record p { tracking_transaction_hash = p.mtx.transaction_hash })
tracked tk (some e) = skip

unfoldable pub forget_hash : Exec (Unit {0})
forget_hash = do
  r ← get
  if str_eq r.pending.tracking_transaction_hash ""
      then skip
      else emit (
          send_event transaction_hash_removed
            (record (r.pending.mtx) { transaction_hash = r.pending.tracking_transaction_hash })
            none)

unfoldable pub add_hash : Toolkit → Exec (Unit {0})
add_hash tk = do
  r ← get
  emit (send_event transaction_hash_added r.pending.mtx none)
  tracked tk (tk.handle_event transaction_hash_added r.pending.mtx)

unfoldable pub track_hash : Toolkit → Exec (Unit {0})
track_hash tk = do
  r ← get
  if is_some r.pending.mtx.first_submit
        && not (str_eq r.pending.tracking_transaction_hash r.pending.mtx.transaction_hash)
      then (do forget_hash; add_hash tk)
      else skip

unfoldable pub note_cycle : Toolkit → Exec (Unit {0})
note_cycle tk = modify_pending (λ p. record p { last_policy_cycle = tk.now })

unfoldable pub after_policy : Toolkit → Option Error → Exec (Unit {0})
after_policy tk (some e) = do
  modify_mtx (λ m. record m { error_message = tk.error_message e })
  modify_ctx (λ c. record c {
    update_type = update;
    tx_updates = record c.tx_updates { error_message = some (tk.error_message e) };
  })
after_policy tk none = do track_hash tk; note_cycle tk

unfoldable pub drive_policy : Toolkit → Config → Exec Bool
drive_policy tk cfg = do e ← attempt (process_transaction tk cfg); after_policy tk e; pure false

unfoldable pub run_policy : Toolkit → Config → Exec Bool
run_policy tk cfg = do
  r ← get
  if r.ctx.process_tx || ltb cfg.policy_loop_interval (tk.now - r.pending.last_policy_cycle)
      then drive_policy tk cfg
      else pure false

unfoldable pub by_action : Toolkit → Config → ActionType → Exec Bool
unfolding suspend_from resume_from
by_action tk cfg action_suspend = do r ← get; suspend_from r.pending.mtx.status
by_action tk cfg action_resume = do r ← get; resume_from r.pending.mtx.status
by_action tk cfg _ = run_policy tk cfg

abbrev pub is_delete : ActionType → Bool
is_delete action_delete = true
is_delete _ = false

-- The `switch` of `execPolicy`; the result is `completed`.
unfoldable pub decide_policy : Toolkit → Config → Exec Bool
decide_policy tk cfg = do
  r ← get
  if r.ctx.confirmed && not (is_delete r.ctx.sync_action)
      then complete_confirmed
      else by_action tk cfg r.ctx.sync_action

-- Up to the first entry that is refused.
unfoldable pub write_history : Toolkit → List HistoryUpdate → Exec (Unit {0})
write_history tk [] r = skip r
write_history tk (u ∷ us) r =
    next (emit (add_history u) r)
      (λ _ r1. next (check (tk.add_sub_status_action u) r1) (λ _ r2. write_history tk us r2))

-- Nothing is sent for a transaction that is suspended.
unfoldable pub completion_event : TxStatus → Exec (Unit {0})
completion_event succeeded = do
  r ← get
  emit (send_event process_succeeded r.pending.mtx r.ctx.receipt)
completion_event failed = do r ← get; emit (send_event process_failed r.pending.mtx r.ctx.receipt)
completion_event _ = skip

-- The transaction has ended, or is suspended: it leaves the in-flight set.
unfoldable pub finish : Exec (Unit {0})
finish = do
  modify_pending (λ p. record p { remove = true })
  emit marked_stale
  r ← get
  completion_event r.pending.mtx.status

unfoldable pub after_update : ActionType → Bool → Exec (Unit {0})
after_update action_resume completed = emit marked_stale
after_update _ true = finish
after_update _ false = skip

unfoldable pub fill_policy_info : Toolkit → Bool → Exec (Unit {0})
fill_policy_info tk false r = skip r
fill_policy_info tk true r =
    modify_ctx
      (λ c. record c {
        tx_updates = record c.tx_updates {
          policy_info = some (tk.policy_info_json r.pending.info);
        };
      })
      r

unfoldable pub commit_update : Toolkit → Bool → Exec (Unit {0})
commit_update tk completed = do
  r ← get
  emit (update_stored r.pending.mtx.id r.ctx.tx_updates)
  check (tk.update_transaction r.pending.mtx.id r.ctx.tx_updates)
  after_update r.ctx.sync_action completed

unfoldable pub commit_delete : Toolkit → Exec (Unit {0})
commit_delete tk = do
  r ← get
  emit (delete_stored r.pending.mtx.id)
  check (tk.delete_transaction r.pending.mtx.id)
  modify_pending (λ p. record p { remove = true })
  emit marked_stale
  emit (send_event deleted r.pending.mtx none)

unfoldable pub flush_update : Toolkit → Bool → UpdateType → Exec (Unit {0})
flush_update tk completed no_update = skip
flush_update tk completed update = do
  r ← get
  fill_policy_info tk r.ctx.updated_info
  commit_update tk completed
flush_update tk completed delete = commit_delete tk

unfoldable pub flush_changes : Toolkit → Bool → Exec (Unit {0})
flush_changes tk completed = do
  r ← get
  modify_pending (λ p. record p { sub_status = r.ctx.sub_status })
  write_history tk r.ctx.history_updates
  flush_update tk completed r.ctx.update_type

unfoldable pub exec_policy : Toolkit → Config → Option Request → Exec (Unit {0})
exec_policy tk cfg request = do
  pending_to_run_context tk request
  completed ← decide_policy tk cfg
  flush_changes tk completed
