-- ===== src/Handler/Snapshot/Action.antt =====
-- Which action a run carries out.
use firefly_transaction_mana.Prelude.{◌≡◌, ◌∙◌, Option, none, some, arith}
use firefly_transaction_mana.Handler.{Request, ActionType, action_none}
use firefly_transaction_mana.Handler.Exec.{
  Toolkit, Run, Exec, Outcome, ok, err, panic, next, add_sub_status_action,
}
use firefly_transaction_mana.Handler.Snapshot.{
  record_external_update, update_fields, take_request, note_delete, note_receipt, take_receipt,
  note_confirmed, store_confirmations, take_confirmations, pending_to_run_context,
}

-- The action of a run: none where no request is carried out.
abbrev pub action_of : Option Request → ActionType
action_of none = action_none
action_of (some q) = q.request_type

next-action :
    {A B : Type 0} {a : ActionType} (x : Outcome A × Run) (f : A → Exec B)
    → x.1.ctx.sync_action ≡ a
    → ((v : A) (s : Run) → (f v s).1.ctx.sync_action ≡ s.ctx.sync_action)
    → (next x f).1.ctx.sync_action ≡ a
next-action (ok v, s) f h k = k v s ∙ h
next-action (err e, s) f h k = h
next-action (panic, s) f h k = h

module _ (tk : Toolkit) where
  take_request-action :
      (q : Option Request) (r : Run)
      → r.ctx.sync_action ≡ action_none
      → (take_request tk q r).1.ctx.sync_action ≡ action_of q
  unfolding take_request update_fields record_external_update add_sub_status_action
  take_request-action none r h = h
  take_request-action (some q) r h = ground arith

  note_delete-action : (r : Run) → (note_delete tk r).1.ctx.sync_action ≡ r.ctx.sync_action
  unfolding note_delete
  note_delete-action r = ground arith

  take_receipt-action : (r : Run) → (take_receipt tk r).1.ctx.sync_action ≡ r.ctx.sync_action
  unfolding take_receipt note_receipt add_sub_status_action
  take_receipt-action r = ground arith

  take_confirmations-action :
      (r : Run) → (take_confirmations tk r).1.ctx.sync_action ≡ r.ctx.sync_action
  unfolding take_confirmations store_confirmations note_confirmed add_sub_status_action
  take_confirmations-action r = ground arith

  pub pending_to_run_context-action :
      (q : Option Request) (r : Run)
      → r.ctx.sync_action ≡ action_none
      → (pending_to_run_context tk q r).1.ctx.sync_action ≡ action_of q
  unfolding pending_to_run_context
  pending_to_run_context-action q r h =
      next-action (take_request tk q r) _ (take_request-action q r h) λ _ s.
        next-action (note_delete tk s) _ (note_delete-action s) λ _ z.
          next-action (take_receipt tk z) _ (take_receipt-action z) λ _. take_confirmations-action
