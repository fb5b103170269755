-- ===== src/Events/Lifecycle/Stops.antt =====
-- When a stop comes to an end.
use firefly_transaction_mana.Prelude.{◌≡◌, Bool, true, false, not, Option, none, some, List, ◌⊎◌}
use firefly_transaction_mana.Events.{EsListener}
use firefly_transaction_mana.Events.Checkpoints.{StreamCheckpoint}
use firefly_transaction_mana.Events.Lifecycle.{
  es_started, es_stopping, es_stopped, Stream, StartEnd, start_ok, check_set_status,
}
use firefly_transaction_mana.Events.Lifecycle.Stop.{
  StopAnswers, StopEnd, stop_ok, stop_status_error, stop_panic, stop_waits_forever, request_stop,
  finish_stop, stop,
}
use firefly_transaction_mana.Events.Lifecycle.Consistent.{NoneStarted}

-- The stream is stopped, with no listener started and the checkpoint `cp` in the database.
pub record Stopped (cp : Option StreamCheckpoint) (x : Stream × StopEnd) : Type 0 where
  pub ends : x.1 ≡ stop_ok
  pub status : x.0.status ≡ es_stopped
  pub current : x.0.current ≡ none
  pub listeners : NoneStarted x.0.listeners
  pub confirmations : x.0.confirmations_started ≡ false
  pub stored : x.0.stored ≡ cp

-- What a stop meets that the connector takes notice of.
abbrev pub noticed : Bool → Bool → StopAnswers
noticed callback loop = record {
  notified = true;
  callback_blocked = callback;
  event_loop_blocked = loop;
}

-- A stop ends exactly if neither the callback nor the event loop is blocked on the batch channel;
-- otherwise it waits forever, and the stream stays as stopping.
pub data StopOutcome (cp : Option StreamCheckpoint) (callback loop : Bool) (x : Stream × StopEnd)
    : Type 0 where
  ends : callback ≡ false → loop ≡ false → Stopped cp x → StopOutcome cp callback loop x
  hangs :
      (callback ≡ true) ⊎ (loop ≡ true)
      → x.1 ≡ stop_waits_forever
      → x.0.status ≡ es_stopping
      → StopOutcome cp callback loop x

-- A start that succeeded leads to such a stop.
abbrev Stops : Bool → Bool → Option StreamCheckpoint → Stream × StartEnd → Type 0
Stops callback loop cp (s, start_ok rs) =
    StopOutcome cp callback loop (stop (noticed callback loop) s)
Stops callback loop cp (s, e) = Unit {0}

abbrev running : Bool → List EsListener → Option StreamCheckpoint → Stream
running managed ls cp = record {
  status = es_started;
  api_managed = managed;
  current = some (record {
    cancelled = false;
    event_loop = true;
    batch_loop = not managed;
    block_listener = true;
  });
  listeners = ls;
  confirmations_started = true;
  stored = cp;
}

-- The last part of a stop, if it comes when the stream was stopped by another call and started
-- again, takes the running state from the stream, which stays started; the next stop then fails on
-- a nil pointer.
pub finish_stop_late :
    (a : StopAnswers) (s : Stream)
    → s.status ≡ es_started
    → ((finish_stop s).1 ≡ stop_status_error)
      × ((finish_stop s).0.status ≡ es_started)
      × ((stop a (finish_stop s).0).1 ≡ stop_panic)
unfolding finish_stop check_set_status stop request_stop
finish_stop_late a s h = (rw (h), rw (h), rw (h))
