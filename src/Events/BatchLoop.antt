-- ===== src/Events/BatchLoop.antt =====
-- internal/events/eventstream.go: batchLoop and writeCheckpoint.
pub mod Committed
use firefly_transaction_mana.Prelude.{
  ℕ, suc, ◌+◌, String, Bool, true, false, Option, none, some, List, if◌then◌else◌,
}
use firefly_transaction_mana.Events.{EsListener, Batch}
use firefly_transaction_mana.Events.Poll.{
  Poll, Polled, polled, poll_cancelled, poll_panic, still_polling, batch_max, batch_poll,
}
use firefly_transaction_mana.Events.Deliver.{
  ErrorHandling, Round, Performed, delivered, batch_skipped, action_cancelled, still_blocked,
  perform_actions_with_retry,
}
use firefly_transaction_mana.Events.Checkpoints.{
  CheckpointToolkit, StreamCheckpoint, generate_checkpoint,
}

-- What the loop meets in one turn. `written` is false where the context ends before the checkpoint
-- is written.
pub record Turn : Type 0 where
  pub polls : List Poll
  pub rounds : List Round
  pub toolkit : CheckpointToolkit
  pub written : Bool

-- `stored` is the checkpoint in the database, and `number` that of the last batch.
pub record LoopState : Type 0 where
  pub number : ℕ
  pub listeners : List EsListener
  pub stored : Option StreamCheckpoint

pub record LoopConfig : Type 0 where
  pub handling : ErrorHandling
  pub batch_size : ℕ

-- The loop takes another turn, or exits, with what it leaves of the listeners and of the database;
-- or it waits for more events or rounds.
pub data TurnEnd : Type 0 where
  turned : LoopState → TurnEnd
  exited : List EsListener → Option StreamCheckpoint → TurnEnd
  loop_panic : TurnEnd
  waits : TurnEnd

abbrev pub number_after : ℕ → Option Batch → ℕ
number_after n none = n
number_after n (some b) = b.number

unfoldable pub write_checkpoint : LoopState → Turn → Option Batch → TurnEnd
write_checkpoint s t b =
    let (ls, cp) = generate_checkpoint t.toolkit b s.listeners in
    if t.written
    then turned (record { number = number_after s.number b; listeners = ls; stored = some cp })
    else exited ls s.stored

unfoldable pub after_actions : LoopState → Turn → Batch → Performed → TurnEnd
unfolding write_checkpoint
after_actions s t b delivered = write_checkpoint s t (some b)
after_actions s t b batch_skipped = write_checkpoint s t (some b)
after_actions s t b action_cancelled = exited s.listeners s.stored
after_actions s t b still_blocked = waits

unfoldable pub after_poll : LoopConfig → LoopState → Turn → Polled → TurnEnd
unfolding after_actions write_checkpoint perform_actions_with_retry
after_poll k s t (polled none) = write_checkpoint s t none
after_poll k s t (polled (some b)) =
    after_actions s t b (perform_actions_with_retry k.handling b t.rounds)
after_poll k s t poll_cancelled = exited s.listeners s.stored
after_poll k s t poll_panic = loop_panic
after_poll k s t (still_polling b) = waits

-- One turn of the loop.
unfoldable pub batch_turn : LoopConfig → LoopState → Turn → TurnEnd
unfolding batch_poll after_poll
batch_turn k s t =
    after_poll k s t
      (batch_poll t.toolkit.less_than (batch_max k.batch_size) (suc s.number) none t.polls)
