-- ===== src/Events/Lifecycle/Relisted.antt =====
-- What the update of a stream's specification, a poll of it, and a checkpoint do to its status.
use firefly_transaction_mana.Prelude.{
  ℕ, ◌≡◌, ◌∙◌, refl, Option, none, some, List, [], ◌∷◌, ◌&&◌, if_both,
}
use firefly_transaction_mana.Events.{EsListener, Batch, Checkpoint}
use firefly_transaction_mana.Events.Config.{EsDefaults, EsSpec, MergeResult, merged, merge_error}
use firefly_transaction_mana.Events.Config.Merge.{merge_validate_es_config}
use firefly_transaction_mana.Events.Poll.{Polled, polled, poll_cancelled, poll_panic, still_polling}
use firefly_transaction_mana.Events.Checkpoints.{
  CheckpointToolkit, HwmAnswer, hwm, hwm_error, apply_batch, is_stale, is_safe,
  locked_hwm_safe_to_apply, check_update_hwm_checkpoint, refresh_listener, batch_checkpoints,
  advance_listener, advance_all, generate_checkpoint,
}
use firefly_transaction_mana.Events.Poll.Gathered.{find_checkpoint}
use firefly_transaction_mana.Events.Managed.{
  GivenCheckpoint, ManagedPoll, ManagedStream, ManagedEnd, same_time, supplied_time, given_entries,
  managed_checkpoint, after_managed_poll, poll_running, after_managed_start, poll_started,
  after_managed_stop, poll_current, poll_api_managed_stream,
}
use firefly_transaction_mana.Events.Lifecycle.{
  Status, es_started, es_stopping, es_stopped, es_deleted, status_eq, Running, Stream, StartAnswers,
  StartEnd, start_ok, start_status_error, start_action_error, start_checkpoint_error,
  start_connector_error, start_block_error, start_api_managed, start, start_stream,
}
use firefly_transaction_mana.Events.Lifecycle.Stop.{
  StopAnswers, StopEnd, stop_ok, stop_status_error, stop_notify_error, stop_waits_forever,
  stop_panic, stop,
}
use firefly_transaction_mana.Events.Lifecycle.Update.{
  UpdateEnd, start_updated, restart_updated, update_merged, update_spec,
}
use firefly_transaction_mana.Events.Lifecycle.Consistent.{
  NoneStarted, ConsistentAt, Consistent, start-Consistent, start_stream-Consistent, stop-Consistent,
}

-- The listeners may change where they are still marked as they were.
relist :
    (st : Status) (r : Option Running) (ls ls' : List EsListener)
    → (NoneStarted ls → NoneStarted ls')
    → ConsistentAt st r ls
    → ConsistentAt st r ls'
relist es_started (some r) ls ls' f c = c
relist es_stopping (some r) ls ls' f c = c
relist es_stopped none ls ls' f c = f c
relist es_deleted none ls ls' f c = f c
relist es_started none ls ls' f c = elim c [ ]
relist es_stopping none ls ls' f c = elim c [ ]
relist es_stopped (some r) ls ls' f c = elim c [ ]
relist es_deleted (some r) ls ls' f c = elim c [ ]

pub relisted-Consistent :
    (s : Stream) (ls : List EsListener)
    → (NoneStarted s.listeners → NoneStarted ls)
    → Consistent s
    → Consistent (record s { listeners = ls })
relisted-Consistent s ls f c = record {
  agrees = relist s.status s.current s.listeners ls f c.agrees;
}

module _ (tk : CheckpointToolkit) where
  update_same_started :
      (l : EsListener) (a : HwmAnswer) → (check_update_hwm_checkpoint tk l a).0.started ≡ l.started
  unfolding check_update_hwm_checkpoint locked_hwm_safe_to_apply
  update_same_started l hwm_error = refl
  update_same_started l (hwm res) =
      if_both (λ (x : EsListener × Option Checkpoint). x.0.started ≡ l.started)
        (is_safe tk l res.last_detected) _ _ (λ _. refl) (λ _. refl)

  refresh_same_started : (l : EsListener) → (refresh_listener tk l).0.started ≡ l.started
  unfolding refresh_listener
  refresh_same_started l =
      if_both (λ (x : EsListener × Option Checkpoint). x.0.started ≡ l.started) (is_stale tk l) _ _
        (λ _. update_same_started l (tk.answer l.id)) (λ _. refl)

  applied_same_started :
      (c : Option Checkpoint) (l : EsListener)
      → (refresh_listener tk (apply_batch tk c l)).0.started ≡ l.started
  unfolding apply_batch
  applied_same_started none l = refresh_same_started l
  applied_same_started (some c) l = refresh_same_started (apply_batch tk (some c) l)

  advance_all-NoneStarted :
      (b : Option Batch) (ls : List EsListener)
      → NoneStarted ls
      → NoneStarted (advance_all tk b ls).0
  unfolding advance_all advance_listener
  advance_all-NoneStarted b [] h = tt
  advance_all-NoneStarted b (l ∷ ls) h = (
    applied_same_started (find_checkpoint l.id (batch_checkpoints b)) l ∙ h.0,
    advance_all-NoneStarted b ls h.1,
  )

  pub checkpoint-Consistent :
      (b : Option Batch) (s : Stream)
      → Consistent s
      → Consistent (record s { listeners = (generate_checkpoint tk b s.listeners).0 })
  unfolding generate_checkpoint
  checkpoint-Consistent b s c =
      relisted-Consistent s (advance_all tk b s.listeners).0 (advance_all-NoneStarted b s.listeners)
        c

start_updated-Consistent : (x : Stream × StartEnd) → Consistent x.0 → Consistent (start_updated x).0
start_updated-Consistent (s, start_ok rs) c = c
start_updated-Consistent (s, start_status_error) c = c
start_updated-Consistent (s, start_action_error) c = c
start_updated-Consistent (s, start_checkpoint_error) c = c
start_updated-Consistent (s, start_connector_error) c = c
start_updated-Consistent (s, start_block_error) c = c
start_updated-Consistent (s, start_api_managed) c = c

restart_updated-Consistent :
    (a : StartAnswers) (x : Stream × StopEnd) → Consistent x.0 → Consistent (restart_updated a x).0
restart_updated-Consistent a (s, stop_ok) c =
    start_updated-Consistent (start_stream a s) (start_stream-Consistent a s c)
restart_updated-Consistent a (s, stop_status_error) c = c
restart_updated-Consistent a (s, stop_notify_error) c = c
restart_updated-Consistent a (s, stop_waits_forever) c = c
restart_updated-Consistent a (s, stop_panic) c = c

update_merged-Consistent :
    (stops : StopAnswers) (a : StartAnswers) (spec : EsSpec) (s : Stream) (r : MergeResult EsSpec)
    → Consistent s
    → Consistent (update_merged stops a spec s r).1.0
update_merged-Consistent stops a spec s (merge_error e) c = c
update_merged-Consistent stops a spec s (merged m changed) c =
    if_both (λ (x : Stream × UpdateEnd). Consistent x.0) (changed && status_eq s.status es_started)
      _ _ (λ _. restart_updated-Consistent a (stop stops s) (stop-Consistent stops s c)) (λ _. c)

pub update_spec-Consistent :
    (d : EsDefaults) (now : ℕ) (stops : StopAnswers) (a : StartAnswers) (spec updates : EsSpec)
    (s : Stream)
    → Consistent s
    → Consistent (update_spec d now stops a spec updates s).1.0
unfolding update_spec
update_spec-Consistent d now stops a spec updates s c =
    update_merged-Consistent stops a spec s
      (merge_validate_es_config s.api_managed d now (some spec) updates) c

module _ (size : ℕ) (p : ManagedPoll) (given : Option GivenCheckpoint) where
  after_poll-Consistent :
      (s : ManagedStream) (x : Polled)
      → Consistent s.stream
      → Consistent (after_managed_poll p s x).0.stream
  unfolding managed_checkpoint
  after_poll-Consistent s (polled b) c = checkpoint-Consistent p.toolkit b s.stream c
  after_poll-Consistent s poll_cancelled c = c
  after_poll-Consistent s poll_panic c = c
  after_poll-Consistent s (still_polling b) c = c

  poll_running-Consistent :
      (s : ManagedStream) → Consistent s.stream → Consistent (poll_running size p s).0.stream
  unfolding poll_running
  poll_running-Consistent s c = after_poll-Consistent s _ c

  after_start-Consistent :
      (s : ManagedStream) (x : Stream × StartEnd)
      → Consistent x.0
      → Consistent (after_managed_start size p s x).0.stream
  after_start-Consistent s (s', start_ok rs) c = poll_running-Consistent _ c
  after_start-Consistent s (s', start_status_error) c = c
  after_start-Consistent s (s', start_action_error) c = c
  after_start-Consistent s (s', start_checkpoint_error) c = c
  after_start-Consistent s (s', start_connector_error) c = c
  after_start-Consistent s (s', start_block_error) c = c
  after_start-Consistent s (s', start_api_managed) c = c

  poll_started-Consistent :
      (s : ManagedStream) → Consistent s.stream → Consistent (poll_started size p given s).0.stream
  unfolding poll_started
  poll_started-Consistent s c =
      after_start-Consistent s (start p.answers (given_entries given) s.stream)
        (start-Consistent p.answers (given_entries given) s.stream c)

  after_stop-Consistent :
      (s : ManagedStream) (x : Stream × StopEnd)
      → Consistent x.0
      → Consistent (after_managed_stop size p given s x).0.stream
  after_stop-Consistent s (s', stop_ok) c = poll_started-Consistent _ c
  after_stop-Consistent s (s', stop_status_error) c = c
  after_stop-Consistent s (s', stop_notify_error) c = c
  after_stop-Consistent s (s', stop_waits_forever) c = c
  after_stop-Consistent s (s', stop_panic) c = c

  poll_current-Consistent :
      (s : ManagedStream) (r : Option Running)
      → Consistent s.stream
      → Consistent (poll_current size p given s r).0.stream
  poll_current-Consistent s none c = poll_started-Consistent s c
  poll_current-Consistent s (some r) c =
      if_both (λ (x : ManagedStream × ManagedEnd). Consistent x.0.stream)
        (same_time (supplied_time given) s.last_checkpoint) _ _ (λ _. poll_running-Consistent s c)
        (λ _. after_stop-Consistent s (stop p.stops s.stream) (stop-Consistent p.stops s.stream c))

  pub poll-Consistent :
      (s : ManagedStream)
      → Consistent s.stream
      → Consistent (poll_api_managed_stream size p given s).0.stream
  unfolding poll_api_managed_stream
  poll-Consistent s c = poll_current-Consistent s s.stream.current c
