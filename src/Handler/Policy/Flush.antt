-- ===== src/Handler/Policy/Flush.antt =====
-- Flushing the changes of a run leaves the status of the transaction alone.
use firefly_transaction_mana.Prelude.{◌≡◌, ◌∙◌, refl, ap, Bool, true, false, inl, inr, Option-cases}
use firefly_transaction_mana.Tx.{TxStatus, succeeded, failed}
use firefly_transaction_mana.Handler.{
  ActionType, action_resume, UpdateType, no_update, update, delete,
}
use firefly_transaction_mana.Handler.Exec.{Toolkit, Run, Outcome, next, ok, err, panic}
use firefly_transaction_mana.Handler.Policy.{
  completion_event, finish, after_update, commit_update, commit_delete, fill_policy_info,
  flush_update, flush_changes, write_history,
}
use firefly_transaction_mana.Handler.Policy.Commits.{write_history-run}

status-completion_event :
    (st : TxStatus) (r : Run) → (completion_event st r).1.pending.mtx.status ≡ r.pending.mtx.status
unfolding completion_event
status-completion_event succeeded r = refl
status-completion_event failed r = refl
status-completion_event _ r = refl

status-after_update :
    (a : ActionType) (c : Bool) (r : Run)
    → (after_update a c r).1.pending.mtx.status ≡ r.pending.mtx.status
unfolding after_update finish
status-after_update action_resume c r = refl
status-after_update _ true r = status-completion_event r.pending.mtx.status _
status-after_update _ false r = refl

module _ (tk : Toolkit) where
  status-commit_update :
      (c : Bool) (r : Run) → (commit_update tk c r).1.pending.mtx.status ≡ r.pending.mtx.status
  unfolding commit_update
  status-commit_update c r =
      elim (Option-cases (tk.update_transaction r.pending.mtx.id r.ctx.tx_updates)) [
        | inl e ↦ rw e (status-after_update r.ctx.sync_action c _)
        | inr (x, e) ↦ rw e refl
      ]

  status-commit_delete :
      (r : Run) → (commit_delete tk r).1.pending.mtx.status ≡ r.pending.mtx.status
  unfolding commit_delete
  status-commit_delete r = elim (Option-cases (tk.delete_transaction r.pending.mtx.id)) [
    | inl e ↦ rw e refl
    | inr (x, e) ↦ rw e refl
  ]

  status-filled :
      (c b : Bool) (r : Run)
      → (next (fill_policy_info tk b r) (λ _. commit_update tk c)).1.pending.mtx.status
        ≡ r.pending.mtx.status
  unfolding fill_policy_info
  status-filled c false r = status-commit_update c r
  status-filled c true r = status-commit_update c _

  status-flush_update :
      (c : Bool) (ut : UpdateType) (r : Run)
      → (flush_update tk c ut r).1.pending.mtx.status ≡ r.pending.mtx.status
  unfolding flush_update
  status-flush_update c no_update r = refl
  status-flush_update c update r = status-filled c r.ctx.updated_info r
  status-flush_update c delete r = status-commit_delete r

  after_history_status :
      (c : Bool) (ut : UpdateType) (x : Outcome (Unit {0}) × Run)
      → (next x (λ _. flush_update tk c ut)).1.pending.mtx.status ≡ x.1.pending.mtx.status
  after_history_status c ut (ok _, s) = status-flush_update c ut s
  after_history_status c ut (err e, s) = refl
  after_history_status c ut (panic, s) = refl

  pub status-flush_changes :
      (c : Bool) (r : Run) → (flush_changes tk c r).1.pending.mtx.status ≡ r.pending.mtx.status
  unfolding flush_changes
  status-flush_changes c r =
      let s : Run = record r { pending = record (r.pending) { sub_status = r.ctx.sub_status } } in
      let (es, e, k) = write_history-run tk r.ctx.history_updates s in
      after_history_status c r.ctx.update_type (write_history tk r.ctx.history_updates s)
      ∙ ap (λ (z : Run). z.pending.mtx.status) e
