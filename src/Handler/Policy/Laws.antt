-- ===== src/Handler/Policy/Laws.antt =====
-- What a whole run of the policy does to a transaction.
use mathlib.Core.Path.{subst, transport}
use mathlib.Core.List.{append-nil}
use firefly_transaction_mana.Prelude.{◌≡◌, ◌∙◌, refl, sym, ap, Bool, Option, List, [], ◌++◌}
use firefly_transaction_mana.Handler.{Request, PendingState}
use firefly_transaction_mana.Handler.Exec.{
  Toolkit, Config, Effect, GasOracle, Run, Outcome, ok, err, panic, next,
}
use firefly_transaction_mana.Handler.Relations.{is_commit, select}
use firefly_transaction_mana.Handler.Snapshot.{new_run, pending_to_run_context}
use firefly_transaction_mana.Handler.Snapshot.Keeps.{pending_to_run_context-Keeps}
use firefly_transaction_mana.Handler.Policy.{flush_changes, decide_policy, exec_policy}
use firefly_transaction_mana.Handler.Policy.Commits.{
  Commits, CommitsTo, untouched, flush_changes-CommitsTo,
}
use firefly_transaction_mana.Handler.Policy.Flush.{status-flush_changes}
use firefly_transaction_mana.Handler.Policy.Status.{Move, stays, Decided, decide_policy-Decided}
use firefly_transaction_mana.Handler.Snapshot.Action.{action_of, pending_to_run_context-action}

module _ (tk : Toolkit) (cfg : Config) (q : Option Request) (p : PendingState) (o : GasOracle) where
  -- What holds at the end of a run of `p`.
  record Ended (s : Run) : Type 0 where
    move : Move p.confirmed (action_of q) p.receipt p.mtx.status s.pending.mtx.status
    commits : (es : List Effect) × (select is_commit s.effects ≡ es) × Commits tk p.remove s es

  -- Where the run has only come as far as the decision.
  record Undecided (s : Run) : Type 0 where
    status : s.pending.mtx.status ≡ p.mtx.status
    remove : s.pending.remove ≡ p.remove
    confirmed : s.ctx.confirmed ≡ p.confirmed
    receipt : s.ctx.receipt ≡ p.receipt
    action : s.ctx.sync_action ≡ action_of q
    commits : select is_commit s.effects ≡ []

  prepared : Undecided (pending_to_run_context tk q (new_run p o)).1
  unfolding select
  prepared =
      let k =
        pending_to_run_context-Keeps is_commit (λ _ _. refl) (λ _ _ _. refl) tk q (new_run p o) in
      record {
        status = k.0;
        remove = k.1;
        confirmed = k.2;
        receipt = k.3;
        action = pending_to_run_context-action tk q (new_run p o) refl;
        commits = k.4;
      }

  stopped : (s : Run) → Undecided s → Ended s
  stopped s u = record {
    move = subst (Move p.confirmed (action_of q) p.receipt p.mtx.status) (sym u.status) stays;
    commits = ([], u.commits, untouched u.remove);
  }

  -- The end of a run whose policy was decided from `s` to `z`.
  flushed :
      (s z f : Run) (x : Outcome Bool)
      → Undecided s
      → Decided tk cfg s (x, z)
      → f.pending.mtx.status ≡ z.pending.mtx.status
      → CommitsTo tk z f
      → Ended f
  flushed s z f x u d e (tail, c, w) = record {
    move =
        transport (λ i. Move (u.confirmed i) (u.action i) (u.receipt i) (u.status i) (sym e i))
          d.move;
    commits = (
      tail,
      c ∙ ap (λ (l : List Effect). l ++ tail) (d.commits ∙ u.commits),
      subst (λ (b : Bool). Commits tk b f tail) (d.remove ∙ u.remove) w,
    );
  }

  after_decision :
      (s : Run) (y : Outcome Bool × Run)
      → Undecided s
      → Decided tk cfg s y
      → Ended (next y (flush_changes tk)).1
  after_decision s (ok c, z) u d =
      flushed s z _ (ok c) u d (status-flush_changes tk c z)
        (flush_changes-CommitsTo tk c z (λ e. d.completed (ap ok e)))
  after_decision s (err e, z) u d =
      flushed s z z (err e) u d refl ([], sym (append-nil _), untouched refl)
  after_decision s (panic, z) u d =
      flushed s z z panic u d refl ([], sym (append-nil _), untouched refl)

  after_preparation :
      (x : Outcome (Unit {0}) × Run)
      → Undecided x.1
      → Ended (next x (λ _ s. next (decide_policy tk cfg s) (flush_changes tk))).1
  after_preparation (ok _, s) u =
      after_decision s (decide_policy tk cfg s) u (decide_policy-Decided tk cfg s)
  after_preparation (err e, s) u = stopped s u
  after_preparation (panic, s) u = stopped s u

  exec_policy-Ended : Ended (exec_policy tk cfg q (new_run p o)).1
  unfolding exec_policy
  exec_policy-Ended = after_preparation (pending_to_run_context tk q (new_run p o)) prepared

  -- A run moves the status of its transaction only by one of the four moves: it stays, or a
  -- confirmed transaction resolves to the status that its receipt says unless it is being deleted,
  -- or a suspend request suspends it from pending, or a resume request makes it pending from
  -- suspended.
  pub exec_policy-Move :
      Move p.confirmed
        (action_of q)
        p.receipt
        p.mtx.status
        (exec_policy tk cfg q (new_run p o)).1.pending.mtx.status
  exec_policy-Move = exec_policy-Ended.move

  -- The writes of the transaction and the events that a run ends with, in their order, are one of
  -- seven sequences: an event of the end, the mark that the in-flight set is stale and the mark for
  -- removal come only after the write or the deletion has succeeded, and the event is that of the
  -- status which was written.
  pub exec_policy-Commits :
      (es : List Effect) × (select is_commit (exec_policy tk cfg q (new_run p o)).1.effects ≡ es)
      × Commits tk p.remove (exec_policy tk cfg q (new_run p o)).1 es
  exec_policy-Commits = exec_policy-Ended.commits
