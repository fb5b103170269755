-- ===== src/Handler/Policy/Status.antt =====
-- How a run of the policy moves the status of a transaction.
use mathlib.Core.Path.{subst}
use firefly_transaction_mana.Prelude.{
  ◌≡◌, ◌≢◌, refl, sym, Bool, true, false, Option, some, arith, if◌then◌else◌, none, ap, ◌∙◌,
  if_both,
}
use firefly_transaction_mana.Tx.{TxStatus, pending, succeeded, failed, suspended}
use firefly_transaction_mana.Handler.{
  Receipt, ActionType, action_delete, action_suspend, action_resume,
}
use firefly_transaction_mana.Handler.Exec.{
  Toolkit, Config, Run, Outcome, ok, err, panic, next, attempt, pure,
}
use firefly_transaction_mana.Handler.Relations.{is_commit, select}
use firefly_transaction_mana.Handler.Submit.{process_transaction}
use firefly_transaction_mana.Handler.Policy.{
  receipt_status, complete_confirmed, suspend_from, resume_from, set_status, after_policy,
  drive_policy, run_policy, by_action, decide_policy,
}
use firefly_transaction_mana.Handler.Policy.Keeps.{run_policy-Keeps}

success_of : Receipt → Option Receipt → Bool
success_of t none = t.success
success_of t (some r) = r.success

-- The moves of a run with action `a`, for a transaction that is confirmed or not and has the
-- receipt `o`.
pub data Move (confirmed : Bool) (a : ActionType) (o : Option Receipt)
    : TxStatus → TxStatus → Type 0 where
  stays : {s : TxStatus} → Move confirmed a o s s
  succeeds :
      {s : TxStatus}
      → confirmed ≡ true
      → a ≢ action_delete
      → (receipt : Receipt) → o ≡ some receipt
      → receipt.success ≡ true
      → Move confirmed a o s succeeded
  fails :
      {s : TxStatus}
      → confirmed ≡ true
      → a ≢ action_delete
      → ((receipt : Receipt) → o ≡ some receipt → receipt.success ≡ false)
      → Move confirmed a o s failed
  suspends : a ≡ action_suspend → Move confirmed a o pending suspended
  resumes : a ≡ action_resume → Move confirmed a o suspended pending

module _ (tk : Toolkit) (cfg : Config) where
  -- What is known when the policy has been decided from `r`.
  pub record Decided (r : Run) (x : Outcome Bool × Run) : Type 0 where
    pub move :
        Move r.ctx.confirmed r.ctx.sync_action r.ctx.receipt r.pending.mtx.status
          x.1.pending.mtx.status
    pub remove : x.1.pending.remove ≡ r.pending.remove
    pub commits : select is_commit x.1.effects ≡ select is_commit r.effects
    pub completed : x.0 ≡ ok true → x.1.ctx.tx_updates.status ≡ some x.1.pending.mtx.status

  next_not_true :
      {A : Type 0} (x : Outcome A × Run) (f : A → Run → Outcome Bool × Run)
      → ((a : A) (s : Run) → (f a s).0 ≢ ok true)
      → (next x f).0 ≢ ok true
  next_not_true (ok a, s) f h = h a s
  next_not_true (err e, s) f h = λ q. cc
  next_not_true (panic, s) f h = λ q. cc

  drive_policy_not_true : (r : Run) → (drive_policy tk cfg r).0 ≢ ok true
  unfolding drive_policy
  drive_policy_not_true r =
      next_not_true (attempt (process_transaction tk cfg) r)
        (λ e s. next (after_policy tk e s) (λ _. pure false))
        (λ e s. next_not_true (after_policy tk e s) (λ _. pure false) (λ _ _ q. cc))

  run_policy_not_true : (r : Run) → (run_policy tk cfg r).0 ≢ ok true
  unfolding run_policy
  run_policy_not_true r q = ground (arith, drive_policy_not_true r)

  by_policy : (r : Run) → Decided r (run_policy tk cfg r)
  by_policy r =
      let k = run_policy-Keeps is_commit (λ _. refl) (λ _ _. refl) (λ _ _. refl) tk cfg r in
      record {
        move =
            subst (Move r.ctx.confirmed r.ctx.sync_action r.ctx.receipt r.pending.mtx.status)
              (sym k.0) stays;
        remove = k.1;
        commits = k.4;
        completed = λ q. absurd (run_policy_not_true r q);
      }

  by_suspend :
      (s : TxStatus) (r : Run)
      → r.pending.mtx.status ≡ s
      → r.ctx.sync_action ≡ action_suspend
      → Decided r (suspend_from s r)
  unfolding suspend_from set_status
  by_suspend pending r e a = record {
    move =
        subst (λ (x : TxStatus). Move r.ctx.confirmed r.ctx.sync_action r.ctx.receipt x suspended)
          (sym e) (suspends a);
    remove = refl;
    commits = refl;
    completed = λ _. refl;
  }
  by_suspend _ r e a = record { move = stays; remove = refl; commits = refl; completed = λ q. cc }

  by_resume :
      (s : TxStatus) (r : Run)
      → r.pending.mtx.status ≡ s
      → r.ctx.sync_action ≡ action_resume
      → Decided r (resume_from s r)
  unfolding resume_from set_status
  by_resume suspended r e a = record {
    move =
        subst (λ (x : TxStatus). Move r.ctx.confirmed r.ctx.sync_action r.ctx.receipt x pending)
          (sym e) (resumes a);
    remove = refl;
    commits = refl;
    completed = λ q. cc;
  }
  by_resume _ r e a = record { move = stays; remove = refl; commits = refl; completed = λ q. cc }

  by_action-Decided :
      (a : ActionType) (r : Run) → r.ctx.sync_action ≡ a → Decided r (by_action tk cfg a r)
  unfolding by_action
  by_action-Decided action_suspend r e = by_suspend r.pending.mtx.status r refl e
  by_action-Decided action_resume r e = by_resume r.pending.mtx.status r refl e
  by_action-Decided _ r e = by_policy r

  by_receipt :
      {confirmed : Bool} {a : ActionType} {s : TxStatus} (o : Option Receipt)
      → confirmed ≡ true
      → a ≢ action_delete
      → Move confirmed a o s (receipt_status o)
  unfolding success_of
  by_receipt none h k = fails h k (λ r e. absurd cc)
  by_receipt (some receipt) h k =
      if_both (Move _ _ (some receipt) _) receipt.success succeeded failed
        (λ e. succeeds h k receipt refl e) (λ e. fails h k (λ r f. same_success r receipt f ∙ e))
    where
      same_success : (r t : Receipt) → some t ≡ some r → r.success ≡ t.success
      same_success r t f = ap (λ (x : Option Receipt). success_of t x) (sym f)

  by_confirmation :
      (b : Bool) (r : Run)
      → (b ≡ true → (r.ctx.confirmed ≡ true) × (r.ctx.sync_action ≢ action_delete))
      → Decided r ((if b then complete_confirmed else by_action tk cfg r.ctx.sync_action) r)
  unfolding complete_confirmed set_status
  by_confirmation true r h = record {
    move = by_receipt r.ctx.receipt (h refl).0 (h refl).1;
    remove = refl;
    commits = refl;
    completed = λ _. refl;
  }
  by_confirmation false r h = by_action-Decided r.ctx.sync_action r refl

  pub decide_policy-Decided : (r : Run) → Decided r (decide_policy tk cfg r)
  unfolding decide_policy
  decide_policy-Decided r = by_confirmation _ r (λ e. (ground arith, λ d. ground arith))
