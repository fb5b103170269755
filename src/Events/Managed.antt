-- ===== src/Events/Managed.antt =====
-- internal/events/eventstream.go: PollAPIMangedStream and checkStartedStopCheckpointMismatch, the polls
-- of a stream whose checkpoint its caller keeps.
use firefly_transaction_mana.Prelude.{
  ℕ, suc, String, Bool, true, false, Option, none, some, List, [], ◌==◌, if◌then◌else◌,
}
use firefly_transaction_mana.Events.{Checkpoint, EventWithContext, Batch}
use firefly_transaction_mana.Events.Poll.{
  Poll, Polled, polled, poll_cancelled, poll_panic, still_polling, batch_max, batch_poll,
}
use firefly_transaction_mana.Events.Checkpoints.{
  CheckpointToolkit, StreamCheckpoint, generate_checkpoint,
}
use firefly_transaction_mana.Events.BatchLoop.{number_after}
use firefly_transaction_mana.Events.Lifecycle.{
  Running, Stream, StartAnswers, StartEnd, start_ok, start,
}
use firefly_transaction_mana.Events.Lifecycle.Stop.{StopAnswers, StopEnd, stop_ok, stop}

-- A checkpoint of the caller, which may have no time.
pub record GivenCheckpoint : Type 0 where
  pub time : Option ℕ
  pub listeners : List (String × Checkpoint)

-- The stream, with the number of its last batch and `lastCheckpoint` of its running state.
pub record ManagedStream : Type 0 where
  pub stream : Stream
  pub number : ℕ
  pub last_checkpoint : Option ℕ

-- What is met in one poll: what a stop and a start meet, and the arrivals.
pub record ManagedPoll : Type 0 where
  pub stops : StopAnswers
  pub answers : StartAnswers
  pub polls : List Poll
  pub toolkit : CheckpointToolkit

pub data ManagedEnd : Type 0 where
  managed_polled : List EventWithContext → StreamCheckpoint → ManagedEnd
  managed_stop_failed : StopEnd → ManagedEnd
  managed_start_failed : StartEnd → ManagedEnd
  managed_cancelled managed_panic managed_waits : ManagedEnd

abbrev pub same_time : Option ℕ → Option ℕ → Bool
same_time none none = true
same_time (some a) (some b) = a == b
same_time _ _ = false

-- A checkpoint without a time counts as none.
abbrev pub supplied_time : Option GivenCheckpoint → Option ℕ
supplied_time none = none
supplied_time (some cp) = cp.time

-- The start only reads the entries of the checkpoint.
abbrev pub given_entries : Option GivenCheckpoint → Option StreamCheckpoint
given_entries none = none
given_entries (some cp) = some (record { time = 0; listeners = cp.listeners })

abbrev pub events_in : Option Batch → List EventWithContext
events_in none = []
events_in (some b) = b.events

unfoldable pub managed_checkpoint :
    ManagedPoll → ManagedStream → Option Batch → ManagedStream × ManagedEnd
managed_checkpoint p s b =
    let (ls, cp) = generate_checkpoint p.toolkit b s.stream.listeners in
    (
      record s {
        stream = record (s.stream) { listeners = ls };
        number = number_after s.number b;
        last_checkpoint = some p.toolkit.now;
      },
      managed_polled (events_in b) cp,
    )

abbrev pub after_managed_poll : ManagedPoll → ManagedStream → Polled → ManagedStream × ManagedEnd
after_managed_poll p s (polled b) = managed_checkpoint p s b
after_managed_poll p s poll_cancelled = (s, managed_cancelled)
after_managed_poll p s poll_panic = (s, managed_panic)
after_managed_poll p s (still_polling b) = (s, managed_waits)

unfoldable pub poll_running : ℕ → ManagedPoll → ManagedStream → ManagedStream × ManagedEnd
unfolding batch_poll managed_checkpoint
poll_running size p s =
    after_managed_poll p s
      (batch_poll p.toolkit.less_than (batch_max size) (suc s.number) none p.polls)

abbrev pub after_managed_start :
    ℕ → ManagedPoll → ManagedStream → Stream × StartEnd → ManagedStream × ManagedEnd
after_managed_start size p s (s', start_ok rs) =
    poll_running size p (record s { stream = s'; last_checkpoint = none })
after_managed_start size p s (s', e) =
    (record s { stream = s'; last_checkpoint = none }, managed_start_failed e)

unfoldable pub poll_started :
    ℕ → ManagedPoll → Option GivenCheckpoint → ManagedStream → ManagedStream × ManagedEnd
unfolding poll_running start
poll_started size p given s =
    after_managed_start size p s (start p.answers (given_entries given) s.stream)

abbrev pub after_managed_stop :
    ℕ
    → ManagedPoll
    → Option GivenCheckpoint
    → ManagedStream
    → Stream × StopEnd
    → ManagedStream × ManagedEnd
after_managed_stop size p given s (s', stop_ok) =
    poll_started size p given (record s { stream = s' })
after_managed_stop size p given s (s', e) = (record s { stream = s' }, managed_stop_failed e)

abbrev pub poll_current :
    ℕ
    → ManagedPoll
    → Option GivenCheckpoint
    → ManagedStream
    → Option Running
    → ManagedStream × ManagedEnd
poll_current size p given s none = poll_started size p given s
poll_current size p given s (some r) =
    if same_time (supplied_time given) s.last_checkpoint
    then poll_running size p s
    else after_managed_stop size p given s (stop p.stops s.stream)

-- One poll with the caller's checkpoint, which rules where it differs from that of the stream.
unfoldable pub poll_api_managed_stream :
    ℕ → ManagedPoll → Option GivenCheckpoint → ManagedStream → ManagedStream × ManagedEnd
unfolding poll_started poll_running stop
poll_api_managed_stream size p given s = poll_current size p given s s.stream.current
