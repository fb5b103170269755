-- ===== src/Handler/Policy/Commits.antt =====
-- How a run of the policy is committed: the writes of the transaction, and the events that follow.
use mathlib.Core.Path.{subst}
use mathlib.Core.List.{append_assoc, append-nil}
use firefly_transaction_mana.Prelude.{
  ◌≡◌, ◌∙◌, refl, sym, ap, Bool, true, false, Option, none, some, List, [], ◌∷◌, ◌++◌, inl, inr,
  Option-cases,
}
use firefly_transaction_mana.Tx.{
  ManagedTx, TxUpdates, TxStatus, unset, pending, succeeded, failed, suspended,
}
use firefly_transaction_mana.Handler.{
  Error, Receipt, HistoryUpdate, ActionType, action_resume, UpdateType, no_update, update, delete,
  process_succeeded, process_failed, deleted,
}
use firefly_transaction_mana.Handler.Exec.{
  Toolkit, Effect, update_stored, delete_stored, marked_stale, send_event, add_history, Run,
  Outcome, next, ok, err, panic,
}
use firefly_transaction_mana.Handler.Relations.{is_commit, select, select-append, select-skip}
use firefly_transaction_mana.Handler.Policy.{
  completion_event, finish, after_update, commit_update, commit_delete, fill_policy_info,
  flush_update, flush_changes, write_history,
}

-- The event of a transaction that has ended with this status.
abbrev pub completion_events : TxStatus → ManagedTx → Option Receipt → List Effect
completion_events succeeded m o = send_event process_succeeded m o ∷ []
completion_events failed m o = send_event process_failed m o ∷ []
completion_events _ m o = []

-- The commits of a run that ends in `r`, where `old` is the mark for removal that it began with.
pub data Commits (tk : Toolkit) (old : Bool) (r : Run) : List Effect → Type 0 where
  untouched : r.pending.remove ≡ old → Commits tk old r []
  update_refused :
      (u : TxUpdates) (e : Error)
      → tk.update_transaction r.pending.mtx.id u ≡ some e
      → r.pending.remove ≡ old
      → Commits tk old r (update_stored r.pending.mtx.id u ∷ [])
  updated :
      (u : TxUpdates)
      → tk.update_transaction r.pending.mtx.id u ≡ none
      → r.pending.remove ≡ old
      → Commits tk old r (update_stored r.pending.mtx.id u ∷ [])
  resumed :
      (u : TxUpdates)
      → tk.update_transaction r.pending.mtx.id u ≡ none
      → r.pending.remove ≡ old
      → r.ctx.sync_action ≡ action_resume
      → Commits tk old r (update_stored r.pending.mtx.id u ∷ marked_stale ∷ [])
  completed :
      (u : TxUpdates) (st : TxStatus)
      → tk.update_transaction r.pending.mtx.id u ≡ none
      → r.pending.remove ≡ true
      → r.pending.mtx.status ≡ st
      → u.status ≡ some st
      → Commits tk old r (
          update_stored r.pending.mtx.id u
          ∷ marked_stale
          ∷ completion_events st r.pending.mtx r.ctx.receipt)
  delete_refused :
      (e : Error)
      → tk.delete_transaction r.pending.mtx.id ≡ some e
      → r.pending.remove ≡ old
      → Commits tk old r (delete_stored r.pending.mtx.id ∷ [])
  removed :
      tk.delete_transaction r.pending.mtx.id ≡ none
      → r.pending.remove ≡ true
      → Commits tk old r (
          delete_stored r.pending.mtx.id
          ∷ marked_stale
          ∷ send_event deleted r.pending.mtx none
          ∷ [])

-- `s` is reached from `r` with such commits.
abbrev pub CommitsTo : Toolkit → Run → Run → Type 0
CommitsTo tk r s =
    (tail : List Effect) × (select is_commit s.effects ≡ select is_commit r.effects ++ tail)
    × Commits tk r.pending.remove s tail

-- One more call that is a commit, after those of `tail`.
select-commit :
    (es before tail : List Effect) (e : Effect)
    → select is_commit es ≡ before ++ tail
    → is_commit e ≡ true
    → select is_commit (es ++ e ∷ []) ≡ before ++ (tail ++ e ∷ [])
unfolding select
select-commit es before tail e h c =
    select-append is_commit es (e ∷ []) ∙ rw (c, h) (append_assoc before tail (e ∷ []))

first-commit :
    (es : List Effect) (e : Effect)
    → is_commit e ≡ true
    → select is_commit (es ++ e ∷ []) ≡ select is_commit es ++ e ∷ []
first-commit es e c = select-commit es (select is_commit es) [] e (sym (append-nil _)) c

module _ (tk : Toolkit) (before : List Effect) (old : Bool) where
  -- The commits after `before`, up to the end of `r`.
  abbrev pub Ends : Run → Type 0
  Ends r =
      (tail : List Effect) × (select is_commit r.effects ≡ before ++ tail) × Commits tk old r tail

  completion_event-Ends :
      (st : TxStatus) (u : TxUpdates) (r : Run)
      → select is_commit r.effects
        ≡ before ++ (update_stored r.pending.mtx.id u ∷ marked_stale ∷ [])
      → tk.update_transaction r.pending.mtx.id u ≡ none
      → r.pending.remove ≡ true
      → r.pending.mtx.status ≡ st
      → u.status ≡ some st
      → Ends (completion_event st r).1
  unfolding completion_event
  completion_event-Ends succeeded u r h done gone e f =
      (_, select-commit _ before _ _ h refl, completed u succeeded done gone e f)
  completion_event-Ends failed u r h done gone e f =
      (_, select-commit _ before _ _ h refl, completed u failed done gone e f)
  completion_event-Ends unset u r h done gone e f = (_, h, completed u unset done gone e f)
  completion_event-Ends pending u r h done gone e f = (_, h, completed u pending done gone e f)
  completion_event-Ends suspended u r h done gone e f = (_, h, completed u suspended done gone e f)

  finish-Ends :
      (u : TxUpdates) (r : Run)
      → select is_commit r.effects ≡ before ++ (update_stored r.pending.mtx.id u ∷ [])
      → tk.update_transaction r.pending.mtx.id u ≡ none
      → u.status ≡ some r.pending.mtx.status
      → Ends (finish r).1
  unfolding finish
  finish-Ends u r h done f =
      completion_event-Ends r.pending.mtx.status u
        (record r {
          pending = record (r.pending) { remove = true };
          effects = r.effects ++ marked_stale ∷ [];
        })
        (select-commit _ before _ marked_stale h refl) done refl refl f

  after_update-Ends :
      (a : ActionType) (c : Bool) (u : TxUpdates) (r : Run)
      → select is_commit r.effects ≡ before ++ (update_stored r.pending.mtx.id u ∷ [])
      → tk.update_transaction r.pending.mtx.id u ≡ none
      → r.pending.remove ≡ old
      → r.ctx.sync_action ≡ a
      → (c ≡ true → u.status ≡ some r.pending.mtx.status)
      → Ends (after_update a c r).1
  unfolding after_update
  after_update-Ends action_resume c u r h done keep e f =
      (_, select-commit _ before _ marked_stale h refl, resumed u done keep e)
  after_update-Ends _ true u r h done keep e f = finish-Ends u r h done (f refl)
  after_update-Ends _ false u r h done keep e f = (_, h, updated u done keep)

module _ (tk : Toolkit) where
  commit_update-CommitsTo :
      (c : Bool) (r : Run)
      → (c ≡ true → r.ctx.tx_updates.status ≡ some r.pending.mtx.status)
      → CommitsTo tk r (commit_update tk c r).1
  unfolding commit_update
  commit_update-CommitsTo c r f =
      elim (Option-cases (tk.update_transaction r.pending.mtx.id r.ctx.tx_updates)) [
        | inl e ↦ rw e (
            after_update-Ends tk (select is_commit r.effects) r.pending.remove r.ctx.sync_action c
              r.ctx.tx_updates
              (record r {
                effects = r.effects ++ update_stored r.pending.mtx.id r.ctx.tx_updates ∷ [];
              })
              (first-commit _ _ refl) e refl refl f)
        | inr (x, e) ↦ rw e (_, first-commit _ _ refl, update_refused r.ctx.tx_updates x e refl)
      ]

  commit_delete-CommitsTo : (r : Run) → CommitsTo tk r (commit_delete tk r).1
  unfolding commit_delete
  commit_delete-CommitsTo r = elim (Option-cases (tk.delete_transaction r.pending.mtx.id)) [
    | inl e ↦ rw e (
      _,
      select-commit _ (select is_commit r.effects) _ _
          (select-commit _ (select is_commit r.effects) _ _ (first-commit _ _ refl) refl) refl,
      removed e refl,
    )
    | inr (x, e) ↦ rw e (_, first-commit _ _ refl, delete_refused x e refl)
  ]

  filled-CommitsTo :
      (c b : Bool) (r : Run)
      → (c ≡ true → r.ctx.tx_updates.status ≡ some r.pending.mtx.status)
      → CommitsTo tk r (next (fill_policy_info tk b r) (λ _. commit_update tk c)).1
  unfolding fill_policy_info
  filled-CommitsTo c false r f = commit_update-CommitsTo c r f
  filled-CommitsTo c true r f = commit_update-CommitsTo c (fill_policy_info tk true r).1 f

  flush_update-CommitsTo :
      (c : Bool) (ut : UpdateType) (r : Run)
      → (c ≡ true → r.ctx.tx_updates.status ≡ some r.pending.mtx.status)
      → CommitsTo tk r (flush_update tk c ut r).1
  unfolding flush_update
  flush_update-CommitsTo c no_update r f = ([], sym (append-nil _), untouched refl)
  flush_update-CommitsTo c delete r f = commit_delete-CommitsTo r
  flush_update-CommitsTo c update r f = filled-CommitsTo c r.ctx.updated_info r f

  -- Writing the history adds calls that are no commits, and changes nothing else.
  pub write_history-run :
      (us : List HistoryUpdate) (r : Run)
      → (es : List Effect) × ((write_history tk us r).1 ≡ record r { effects = es })
        × (select is_commit es ≡ select is_commit r.effects)
  unfolding write_history
  write_history-run [] r = (r.effects, refl, refl)
  write_history-run (u ∷ us) r =
      let s : Run = record r { effects = r.effects ++ add_history u ∷ [] } in
      let (es, e, c) = write_history-run us s in
      let skip_u = select-skip is_commit r.effects (add_history u) refl in
      elim (Option-cases (tk.add_sub_status_action u)) [
        | inl a ↦ rw a (es, e, c ∙ skip_u)
        | inr (x, a) ↦ rw a (s.effects, refl, skip_u)
      ]

  after_history :
      (c : Bool) (ut : UpdateType) (r : Run) (x : Outcome (Unit {0}) × Run) (es : List Effect)
      → x.1 ≡ record r { effects = es }
      → select is_commit es ≡ select is_commit r.effects
      → (c ≡ true → r.ctx.tx_updates.status ≡ some r.pending.mtx.status)
      → CommitsTo tk r (next x (λ _. flush_update tk c ut)).1
  after_history c ut r (ok _, s) es e k f =
      let (tail, q, w) = flush_update-CommitsTo c ut (record r { effects = es }) f in
      subst (λ (z : Run). CommitsTo tk r (flush_update tk c ut z).1) (sym e)
        (tail, q ∙ ap (λ (l : List Effect). l ++ tail) k, w)
  after_history c ut r (err x, s) es e k f =
      subst (λ (z : Run). CommitsTo tk r z) (sym e) ([], k ∙ sym (append-nil _), untouched refl)
  after_history c ut r (panic, s) es e k f =
      subst (λ (z : Run). CommitsTo tk r z) (sym e) ([], k ∙ sym (append-nil _), untouched refl)

  pub flush_changes-CommitsTo :
      (c : Bool) (r : Run)
      → (c ≡ true → r.ctx.tx_updates.status ≡ some r.pending.mtx.status)
      → CommitsTo tk r (flush_changes tk c r).1
  unfolding flush_changes
  flush_changes-CommitsTo c r f =
      let s : Run = record r { pending = record (r.pending) { sub_status = r.ctx.sub_status } } in
      let (es, e, k) = write_history-run r.ctx.history_updates s in
      after_history c r.ctx.update_type s (write_history tk r.ctx.history_updates s) es e k f
