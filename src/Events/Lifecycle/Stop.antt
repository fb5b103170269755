-- ===== src/Events/Lifecycle/Stop.antt =====
-- internal/events/eventstream.go: the stop and the deletion of an event stream. `Stop` takes its lock
-- twice: `request_stop` is the first part and `finish_stop` the second, so that they can be
-- interleaved with other calls.
use firefly_transaction_mana.Prelude.{
  Bool, true, false, not, Option, none, some, map, ◌&&◌, ◌||◌, if◌then◌else◌,
}
use firefly_transaction_mana.Events.Lifecycle.{
  es_started, es_stopping, es_stopped, es_deleted, status_eq, Running, Stream, check_set_status,
  mark_started,
}

pub data StopEnd : Type 0 where
  stop_ok stop_status_error stop_notify_error stop_waits_forever stop_panic : StopEnd

pub data StopRequest : Type 0 where
  stop_of : Option Running → StopRequest
  not_started : StopRequest
  nil_state : StopRequest

abbrev pub cancel : Stream → Option Running → Stream × StopRequest
cancel s none = (record s { status = es_stopping }, nil_state)
cancel s (some r) =
    let r' = record r { cancelled = true } in
    (record s { status = es_stopping; current = some r' }, stop_of (some r'))

unfoldable pub request_stop : Stream → Stream × StopRequest
request_stop s =
    if status_eq s.status es_stopping
    then (s, stop_of s.current)
    else if status_eq s.status es_started
    then cancel s s.current
    else (s, not_started)

abbrev pub stop_end : Stream → Option Stream → Stream × StopEnd
stop_end s none = (s, stop_status_error)
stop_end s (some s') = (s', stop_ok)

-- The last part of `Stop`, under the lock again.
unfoldable pub finish_stop : Stream → Stream × StopEnd
unfolding check_set_status mark_started
finish_stop s =
    let s' = record s { current = none; listeners = map (mark_started false) s.listeners } in
    stop_end s' (check_set_status es_stopping es_stopped s')

-- What a stop meets: whether the connector takes notice of it, or answers with an error; and
-- whether the callback of a confirmed event, and the event loop in `processNewEvent`, are sending on
-- the batch channel while it is full. These sends have no case for a cancelled context, and once the
-- batch loop has ended nobody receives.
pub record StopAnswers : Type 0 where
  pub notified : Bool
  pub callback_blocked : Bool
  pub event_loop_blocked : Bool

-- All the channels that are waited for are closed in the end.
abbrev pub loops_end : StopAnswers → Stream → Running → Bool
loops_end a s r =
    r.event_loop && not a.event_loop_blocked && (s.api_managed || r.batch_loop) && r.block_listener

-- The confirmations manager, if it runs, waits for its listener, which calls the callbacks.
abbrev pub stop_requested : StopAnswers → Stream × StopRequest → Stream × StopEnd
stop_requested a (s, not_started) = (s, stop_status_error)
stop_requested a (s, nil_state) = (s, stop_panic)
stop_requested a (s, stop_of none) = (s, stop_ok)
stop_requested a (s, stop_of (some r)) =
    let s' = record s { confirmations_started = false } in
    if not a.notified
    then (s, stop_notify_error)
    else if s.confirmations_started && a.callback_blocked
    then (s, stop_waits_forever)
    else if loops_end a s r
    then finish_stop s'
    else (s', stop_waits_forever)

unfoldable pub stop : StopAnswers → Stream → Stream × StopEnd
unfolding request_stop finish_stop
stop a s = stop_requested a (request_stop s)

pub data DeleteEnd : Type 0 where
  delete_ok delete_status_error delete_checkpoint_error : DeleteEnd
  delete_stop_failed : StopEnd → DeleteEnd

abbrev pub delete_end : Stream → Option Stream → Stream × DeleteEnd
delete_end s none = (s, delete_status_error)
delete_end s (some s') = (s', delete_ok)

unfoldable pub delete_stopped : Bool → Stream → Stream × DeleteEnd
unfolding check_set_status
delete_stopped deleted s =
    if s.api_managed
    then delete_end s (check_set_status es_stopped es_deleted s)
    else if not deleted
    then (s, delete_checkpoint_error)
    else delete_end (record s { stored = none })
        (check_set_status es_stopped es_deleted (record s { stored = none }))

abbrev pub delete_after_stop : Bool → Stream × StopEnd → Stream × DeleteEnd
delete_after_stop deleted (s, stop_ok) = delete_stopped deleted s
delete_after_stop deleted (s, e) = (s, delete_stop_failed e)

-- `Delete`; `deleted` is false where the database answers with an error.
unfoldable pub delete : StopAnswers → Bool → Stream → Stream × DeleteEnd
unfolding stop delete_stopped
delete a deleted s =
    if status_eq s.status es_stopped
    then delete_stopped deleted s
    else delete_after_stop deleted (stop a s)
