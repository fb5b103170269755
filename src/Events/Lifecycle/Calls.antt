-- ===== src/Events/Lifecycle/Calls.antt =====
-- Calls of a stream, one after another.
use firefly_transaction_mana.Prelude.{
  ℕ, String, ◌≡◌, ◌∙◌, refl, Bool, true, false, not, Option, none, some, List, [], ◌∷◌, is_some,
  str_eq, if_both,
}
use firefly_transaction_mana.Events.{EsListener, Batch}
use firefly_transaction_mana.Events.Checkpoints.{CheckpointToolkit, generate_checkpoint}
use firefly_transaction_mana.Events.Config.{EsDefaults, EsSpec}
use firefly_transaction_mana.Events.Managed.{GivenCheckpoint, ManagedPoll, poll_api_managed_stream}
use firefly_transaction_mana.Events.Lifecycle.Update.{update_spec}
use firefly_transaction_mana.Events.Lifecycle.Relisted.{
  relisted-Consistent, update_spec-Consistent, poll-Consistent, checkpoint-Consistent,
}
use firefly_transaction_mana.Events.Poll.{find_listener}
use firefly_transaction_mana.Events.Lifecycle.{
  Status, es_started, es_stopping, es_stopped, es_deleted, Running, Stream, StartAnswers, StartEnd,
  start_ok, start_status_error, start_action_error, start_checkpoint_error, start_connector_error,
  start_block_error, start_api_managed, mark_started, start_stream,
}
use firefly_transaction_mana.Events.Lifecycle.Stop.{
  StopAnswers, StopEnd, stop_ok, stop_status_error, stop_notify_error, stop_waits_forever,
  stop_panic, stop, delete,
}
use firefly_transaction_mana.Events.Lifecycle.Listeners.{
  new_listener, with_spec, replace_listener, update_found, locked_listener_update, cleared,
  ResetEnd, reset_ok, reset_error, reset_panic, ResetAnswers, reset_listener_checkpoint,
  ApplyAnswers, ApplyEnd, restarted, reset_and_start, reset_after_stop, apply_updated, apply,
  without, remove_listener,
}
use firefly_transaction_mana.Events.Lifecycle.Consistent.{
  NoneStarted, ConsistentAt, Consistent, start_stream-Consistent, stop-Consistent,
  delete-Consistent,
}

-- The methods of eventStream: Start, Stop, Delete, Apply, RemoveListener, UpdateSpec, with the time
-- and the present specification, and PollAPIMangedStream, with the number of the last batch and the
-- time of the last checkpoint; and a checkpoint of the batch loop.
pub data Call : Type 0 where
  call_start : StartAnswers → Call
  call_stop : StopAnswers → Call
  call_delete : StopAnswers → Bool → Call
  call_apply : ApplyAnswers → EsListener → Bool → Call
  call_remove : Bool → String → Call
  call_update : EsDefaults → ℕ → StopAnswers → StartAnswers → EsSpec → EsSpec → Call
  call_poll : ℕ → ManagedPoll → Option GivenCheckpoint → ℕ → Option ℕ → Call
  call_checkpoint : CheckpointToolkit → Option Batch → Call

unfoldable pub called : Call → Stream → Stream
called (call_start a) s = (start_stream a s).0
called (call_stop a) s = (stop a s).0
called (call_delete a deleted) s = (delete a deleted s).0
called (call_apply a spec reset) s = (apply a spec reset s).0
called (call_remove removed id) s = (remove_listener removed id s).0
called (call_update d now stops a spec updates) s = (update_spec d now stops a spec updates s).1.0
called (call_poll size p given number last) s =
    (poll_api_managed_stream size p given
      (record { stream = s; number = number; last_checkpoint = last })).0.stream
called (call_checkpoint tk b) s = record s { listeners = (generate_checkpoint tk b s.listeners).0 }

unfoldable pub run_calls : List Call → Stream → Stream
unfolding called
run_calls [] s = s
run_calls (c ∷ cs) s = run_calls cs (called c s)

replaced-NoneStarted :
    (id : String) (f : EsListener → EsListener)
    → ((l : EsListener) → (f l).started ≡ l.started)
    → (ls : List EsListener) → NoneStarted ls
    → NoneStarted (replace_listener id f ls)
unfolding replace_listener
replaced-NoneStarted id f same [] h = tt
replaced-NoneStarted id f same (l ∷ ls) h =
    if_both NoneStarted (str_eq l.id id) _ _ (λ _. (same l ∙ h.0, h.1))
      (λ _. (h.0, replaced-NoneStarted id f same ls h.1))

without-NoneStarted :
    (id : String) (ls : List EsListener) → NoneStarted ls → NoneStarted (without id ls)
unfolding without
without-NoneStarted id [] h = tt
without-NoneStarted id (l ∷ ls) h =
    if_both NoneStarted (str_eq l.id id) _ _ (λ _. h.1) (λ _. (h.0, without-NoneStarted id ls h.1))

remove-Consistent :
    (removed : Bool) (id : String) (s : Stream)
    → Consistent s
    → Consistent (remove_listener removed id s).0
unfolding remove_listener
remove-Consistent removed id s c =
    if_both (λ (x : Stream × Bool). Consistent x.0) (is_some (find_listener id s.listeners)) _ _
      (λ _. relisted-Consistent s (without id s.listeners) (without-NoneStarted id s.listeners) c)
      (λ _. c)

updated-Consistent :
    (s : Stream) (spec : EsListener) (o : Option EsListener)
    → Consistent s
    → Consistent (update_found s spec o).0
unfolding new_listener with_spec
updated-Consistent s spec none c =
    relisted-Consistent s (new_listener spec ∷ s.listeners) (λ h. (refl, h)) c
updated-Consistent s spec (some l) c =
    relisted-Consistent s (replace_listener spec.id (with_spec spec) s.listeners)
      (replaced-NoneStarted spec.id (with_spec spec) (λ _. refl) s.listeners) c

restarted-Consistent : (x : Stream × StartEnd) → Consistent x.0 → Consistent (restarted x).0
restarted-Consistent (s, start_ok rs) c = c
restarted-Consistent (s, start_status_error) c = c
restarted-Consistent (s, start_action_error) c = c
restarted-Consistent (s, start_checkpoint_error) c = c
restarted-Consistent (s, start_connector_error) c = c
restarted-Consistent (s, start_block_error) c = c
restarted-Consistent (s, start_api_managed) c = c

reset-Consistent :
    (a : ResetAnswers) (id : String) (s : Stream)
    → Consistent s
    → Consistent (reset_listener_checkpoint a id s).0
unfolding reset_listener_checkpoint cleared
reset-Consistent a id s c =
    let c' =
      relisted-Consistent s (replace_listener id cleared s.listeners)
        (replaced-NoneStarted id cleared (λ _. refl) s.listeners) c in
    if_both (λ (x : Stream × ResetEnd). Consistent x.0) s.api_managed _ _ (λ _. c')
      (λ _.
        if_both (λ (x : Stream × ResetEnd). Consistent x.0) (not a.read) _ _ (λ _. c')
          (λ _. record { agrees = c'.agrees }))

reset_and_start-Consistent :
    (a : ApplyAnswers) (b : Bool) (x : Stream × ResetEnd)
    → Consistent x.0
    → Consistent (reset_and_start a b x).0
reset_and_start-Consistent a b (s, reset_error) c = c
reset_and_start-Consistent a b (s, reset_panic) c = c
reset_and_start-Consistent a false (s, reset_ok) c = c
reset_and_start-Consistent a true (s, reset_ok) c =
    restarted-Consistent (start_stream a.start s) (start_stream-Consistent a.start s c)

reset_after-Consistent :
    (a : ApplyAnswers) (id : String) (x : Stream × StopEnd)
    → Consistent x.0
    → Consistent (reset_after_stop a id x).0
reset_after-Consistent a id (s, stop_ok) c =
    reset_and_start-Consistent a true (reset_listener_checkpoint a.reset id s)
      (reset-Consistent a.reset id s c)
reset_after-Consistent a id (s, stop_status_error) c = c
reset_after-Consistent a id (s, stop_notify_error) c = c
reset_after-Consistent a id (s, stop_waits_forever) c = c
reset_after-Consistent a id (s, stop_panic) c = c

relist_running :
    (st : Status) (r : Option Running) (ls ls' : List EsListener)
    → is_some r ≡ true
    → ConsistentAt st r ls
    → ConsistentAt st r ls'
relist_running es_started (some r) ls ls' h c = c
relist_running es_stopping (some r) ls ls' h c = c
relist_running es_stopped (some r) ls ls' h c = elim c [ ]
relist_running es_deleted (some r) ls ls' h c = elim c [ ]
relist_running st none ls ls' h c = absurd cc

of_not : (b : Bool) → not b ≡ false → b ≡ true
of_not true h = refl
of_not false h = absurd cc

applied-Consistent :
    (a : ApplyAnswers) (id : String) (reset : Bool) (x : Stream × Bool)
    → Consistent x.0
    → Consistent (apply_updated a id reset x).0
applied-Consistent a id reset (s, is_new) c =
    if_both (λ (x : Stream × ApplyEnd). Consistent x.0) reset _ _
      (λ _.
        if_both (λ (x : Stream × ApplyEnd). Consistent x.0) (is_some s.current) _ _
          (λ _. reset_after-Consistent a id (stop a.stops s) (stop-Consistent a.stops s c))
          (λ _.
            reset_and_start-Consistent a false (reset_listener_checkpoint a.reset id s)
              (reset-Consistent a.reset id s c)))
      (λ _.
        if_both (λ (x : Stream × ApplyEnd). Consistent x.0) (not is_new) _ _ (λ _. c)
          (λ _.
            if_both (λ (x : Stream × ApplyEnd). Consistent x.0) (not (is_some s.current)) _ _
              (λ _. c)
              (λ e.
                if_both (λ (x : Stream × ApplyEnd). Consistent x.0) a.add_ok _ _
                  (λ _. record {
                    agrees =
                        relist_running s.status s.current s.listeners
                          (replace_listener id (mark_started true) s.listeners)
                          (of_not (is_some s.current) e) c.agrees;
                  })
                  (λ _. c))))

apply-Consistent :
    (a : ApplyAnswers) (spec : EsListener) (reset : Bool) (s : Stream)
    → Consistent s
    → Consistent (apply a spec reset s).0
unfolding apply locked_listener_update
apply-Consistent a spec reset s c =
    applied-Consistent a spec.id reset (update_found s spec (find_listener spec.id s.listeners))
      (updated-Consistent s spec (find_listener spec.id s.listeners) c)

called-Consistent : (k : Call) (s : Stream) → Consistent s → Consistent (called k s)
unfolding called
called-Consistent (call_start a) s c = start_stream-Consistent a s c
called-Consistent (call_stop a) s c = stop-Consistent a s c
called-Consistent (call_delete a deleted) s c = delete-Consistent a deleted s c
called-Consistent (call_apply a spec reset) s c = apply-Consistent a spec reset s c
called-Consistent (call_remove removed id) s c = remove-Consistent removed id s c
called-Consistent (call_update d now stops a spec updates) s c =
    update_spec-Consistent d now stops a spec updates s c
called-Consistent (call_poll size p given number last) s c =
    poll-Consistent size p given (record { stream = s; number = number; last_checkpoint = last }) c
called-Consistent (call_checkpoint tk b) s c = checkpoint-Consistent tk b s c

-- Whatever calls of a stream follow one another, with checkpoints of its batch loop between them, and
-- whatever is answered, the stream has a running state exactly while it is started or stopping,
-- whose context is cancelled exactly while it is stopping; and while it is stopped or deleted no
-- listener counts as started.
pub run_calls-Consistent :
    (ks : List Call) (s : Stream) → Consistent s → Consistent (run_calls ks s)
unfolding run_calls
run_calls-Consistent [] s c = c
run_calls-Consistent (k ∷ ks) s c = run_calls-Consistent ks (called k s) (called-Consistent k s c)
