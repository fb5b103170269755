-- ===== src/Events/Poll.antt =====
-- internal/events/eventstream.go: processNewEvent, checkConfirmedEventForBatch, batchPoll.
pub mod Gathered
use firefly_transaction_mana.Prelude.{
  ℕ, suc, ◌+◌, String, Bool, true, false, not, Option, none, some, List, [], ◌∷◌, ◌++◌, ◌&&◌, ltb,
  leb, length, str_eq, if◌then◌else◌,
}
use firefly_transaction_mana.Events.{
  Checkpoint, CheckpointSource, source_event, source_hwm, type_events, type_blocks, EsListener,
  Event, ListenerEvent, EventWithContext, Batch,
}

-- The map of listeners, keyed by their IDs.
unfoldable pub find_listener : String → List EsListener → Option EsListener
find_listener id [] = none
find_listener id (l ∷ ls) = if str_eq l.id id then some l else find_listener id ls

-- What `checkConfirmedEventForBatch` returns; an event without a listener ID is a nil pointer.
pub data Checked : Type 0 where
  taken : EsListener → EventWithContext → Checked
  dropped : Checked
  nil_listener_id : Checked

unfoldable pub with_context : EsListener → ListenerEvent → Option Event → EventWithContext
with_context l e (some ev) = record {
  sub_id = l.id;
  listener_name = l.name;
  listener_type = type_events;
  event = some ev;
  block_event = none;
}
with_context l e none = record {
  sub_id = l.id;
  listener_name = l.name;
  listener_type = type_blocks;
  event = none;
  block_event = e.block_event;
}

-- The order of checkpoints, which is the connector's; the other one may be a nil pointer.
module _ (less_than : Checkpoint → Option Checkpoint → Bool) where
  -- An event that is not after the position of one that the receiver acknowledged was delivered
  -- already. Behind a position that the connector has scanned to, it may not have been.
  abbrev pub is_redetected : CheckpointSource → Option Checkpoint → Option Checkpoint → Bool
  is_redetected source none e = false
  is_redetected source_hwm (some c) e = false
  is_redetected source_event (some c) e = not (less_than c e)

  unfoldable pub check_listener : Option EsListener → ListenerEvent → Checked
  unfolding with_context
  check_listener none e = dropped
  check_listener (some l) e =
      if is_redetected l.checkpoint_source l.checkpoint e.checkpoint
      then dropped
      else taken l (with_context l e e.event)

  abbrev pub check_id : List EsListener → ListenerEvent → Option String → Checked
  check_id ls e none = nil_listener_id
  check_id ls e (some id) = check_listener (find_listener id ls) e

  abbrev pub check_payload : List EsListener → ListenerEvent → Option Event → Option Event → Checked
  check_payload ls e (some ev) b = check_id ls e ev.listener_id
  check_payload ls e none (some b) = check_id ls e b.listener_id
  check_payload ls e none none = dropped

  unfoldable pub check_confirmed_event_for_batch : List EsListener → ListenerEvent → Checked
  unfolding find_listener check_listener
  check_confirmed_event_for_batch ls e = check_payload ls e e.event e.block_event

abbrev pub put_checkpoint :
    String → Option Checkpoint → List (String × Checkpoint) → List (String × Checkpoint)
put_checkpoint id none cps = cps
put_checkpoint id (some c) cps = (id, c) ∷ cps

-- The first event starts a batch, with the next number.
abbrev pub batch_or_new : ℕ → Option Batch → Batch
batch_or_new n none = record { number = n; events = []; checkpoints = [] }
batch_or_new n (some b) = b

unfoldable pub add_to_batch : EsListener → EventWithContext → Option Checkpoint → Batch → Batch
add_to_batch l ev c b = record b {
  events = b.events ++ ev ∷ [];
  checkpoints = put_checkpoint l.id c b.checkpoints;
}

-- What the loop meets next: an event, with the listeners at that time; the timer of the batch, or
-- of the checkpoint; or the end of the context.
pub data Poll : Type 0 where
  arrived : List EsListener → ListenerEvent → Poll
  timer : Poll
  cancelled : Poll

-- `still_polling` is a loop that waits for more.
pub data Polled : Type 0 where
  polled : Option Batch → Polled
  poll_cancelled : Polled
  poll_panic : Polled
  still_polling : Option Batch → Polled

abbrev pub batch_max : ℕ → ℕ
batch_max size = if ltb 0 size && ltb size 9223372036854775807 then size else 1

abbrev pub is_full : ℕ → Option Batch → Bool
is_full max none = false
is_full max (some b) = leb max (length b.events)

-- The loop ends with a full batch, and goes on with `go` otherwise; it is not computed further where
-- it ends.
abbrev pub end_or_go : Bool → Option Batch → (Option Batch → Polled) → Polled
end_or_go true b go = polled b
end_or_go false b go = go b

-- Once the event was looked at.
unfoldable pub after_event :
    ℕ → ℕ → Option Batch → Option Checkpoint → Checked → (Option Batch → Polled) → Polled
unfolding add_to_batch
after_event max n b c nil_listener_id go = poll_panic
after_event max n b c dropped go = end_or_go (is_full max b) b go
after_event max n b c (taken l ev) go =
    let b' = some (add_to_batch l ev c (batch_or_new n b)) in end_or_go (is_full max b') b' go

unfoldable pub batch_poll :
    (Checkpoint → Option Checkpoint → Bool) → ℕ → ℕ → Option Batch → List Poll → Polled
unfolding check_confirmed_event_for_batch after_event
batch_poll less_than max n b [] = still_polling b
batch_poll less_than max n b (timer ∷ ps) = polled b
batch_poll less_than max n b (cancelled ∷ ps) = poll_cancelled
batch_poll less_than max n b (arrived ls e ∷ ps) =
    after_event max n b e.checkpoint (check_confirmed_event_for_batch less_than ls e)
      (λ b'. batch_poll less_than max n b' ps)
