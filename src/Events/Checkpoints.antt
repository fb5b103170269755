-- ===== src/Events/Checkpoints.antt =====
-- internal/events/eventstream.go: generateCheckpoint, checkUpdateHWMCheckpoint and
-- lockedHWMSafeToApply. While a stream runs, only its batch loop changes a checkpoint: a reset stops
-- the stream first. So the listener is still as it was when the connector has answered.
pub mod Advance
use firefly_transaction_mana.Prelude.{
  ℕ, ◌-◌, String, Bool, true, false, not, Option, none, some, List, [], ◌∷◌, ◌++◌, ◌&&◌, ◌||◌, ltb,
  is_some, or_else, map, str_eq, if◌then◌else◌,
}
use firefly_transaction_mana.Events.{
  Checkpoint, CheckpointSource, source_event, source_hwm, ListenerType, type_events, type_blocks,
  EsListener, Batch,
}
use firefly_transaction_mana.Events.Poll.Gathered.{find_checkpoint}

-- ffcapi.EventListenerHWMResponse: how far the connector has scanned, and the last event that it
-- has passed on.
pub record Hwm : Type 0 where
  pub checkpoint : Option Checkpoint
  pub last_detected : Option Checkpoint

pub data HwmAnswer : Type 0 where
  hwm : Hwm → HwmAnswer
  hwm_error : HwmAnswer

-- What is asked while a checkpoint is made, for each listener by its ID: the connector's answer, and
-- whether confirmations are in flight. `now` is the time of the checkpoint, `later` that of the
-- queries after it.
pub record CheckpointToolkit : Type 0 where
  pub now : ℕ
  pub later : ℕ
  pub interval : ℕ
  pub less_than : Checkpoint → Option Checkpoint → Bool
  pub answer : String → HwmAnswer
  pub in_flight : String → Bool

abbrev pub is_block_listener : Option ListenerType → Bool
is_block_listener (some type_blocks) = true
is_block_listener _ = false

-- The position of the last event in the batch, for a listener that has one.
unfoldable pub apply_batch : CheckpointToolkit → Option Checkpoint → EsListener → EsListener
apply_batch tk none l = l
apply_batch tk (some c) l = record l {
  checkpoint = some c;
  checkpoint_source = source_event;
  last_checkpoint = some tk.now;
}

abbrev pub is_old : CheckpointToolkit → Option ℕ → Bool
is_old tk none = true
is_old tk (some t) = ltb tk.interval (tk.later - t)

-- The connector is asked for a started listener without a fresh checkpoint.
unfoldable pub is_stale : CheckpointToolkit → EsListener → Bool
is_stale tk l =
    l.started
    && not (is_block_listener l.listener_type)
    && (not (is_some l.checkpoint) || is_old tk l.last_checkpoint)

abbrev pub has_passed : CheckpointToolkit → Option Checkpoint → Checkpoint → Bool
has_passed tk none d = false
has_passed tk (some c) d = not (tk.less_than c (some d))

abbrev pub is_safe : CheckpointToolkit → EsListener → Option Checkpoint → Bool
is_safe tk l (some d) = has_passed tk l.checkpoint d
is_safe tk l none = not (tk.in_flight l.id)

unfoldable pub locked_hwm_safe_to_apply : CheckpointToolkit → EsListener → Hwm → Bool
locked_hwm_safe_to_apply tk l res = is_safe tk l res.last_detected

-- A listener with the checkpoint that is returned for it.
unfoldable pub check_update_hwm_checkpoint :
    CheckpointToolkit → EsListener → HwmAnswer → EsListener × Option Checkpoint
unfolding locked_hwm_safe_to_apply
check_update_hwm_checkpoint tk l hwm_error = (l, l.checkpoint)
check_update_hwm_checkpoint tk l (hwm res) =
    if locked_hwm_safe_to_apply tk l res
    then (
      record l {
        checkpoint = res.checkpoint;
        checkpoint_source = source_hwm;
        last_checkpoint = some tk.later;
      },
      res.checkpoint,
    )
    else (l, l.checkpoint)

-- A listener after the checkpoint was made, and its entry in it: the one from before the query
-- stays where the query returns none.
unfoldable pub refresh_listener : CheckpointToolkit → EsListener → EsListener × Option Checkpoint
unfolding is_stale check_update_hwm_checkpoint
refresh_listener tk l =
    if is_stale tk l
    then (let (l', c) = check_update_hwm_checkpoint tk l (tk.answer l.id) in
        (l', or_else c l.checkpoint))
    else (l, l.checkpoint)

abbrev pub batch_checkpoints : Option Batch → List (String × Checkpoint)
batch_checkpoints none = []
batch_checkpoints (some b) = b.checkpoints

unfoldable pub advance_listener :
    CheckpointToolkit → Option Batch → EsListener → EsListener × Option Checkpoint
unfolding apply_batch refresh_listener find_checkpoint
advance_listener tk b l =
    refresh_listener tk (apply_batch tk (find_checkpoint l.id (batch_checkpoints b)) l)

-- apitypes.EventStreamCheckpoint: its time, and the entries of the listeners that have one.
pub record StreamCheckpoint : Type 0 where
  pub time : ℕ
  pub listeners : List (String × Checkpoint)

abbrev pub entry_of :
    String → Option Checkpoint → List (String × Checkpoint) → List (String × Checkpoint)
entry_of id none cs = cs
entry_of id (some c) cs = (id, c) ∷ cs

unfoldable pub advance_all :
    CheckpointToolkit
    → Option Batch
    → List EsListener
    → List EsListener × List (String × Checkpoint)
unfolding advance_listener
advance_all tk b [] = ([], [])
advance_all tk b (l ∷ ls) =
    let (l', c) = advance_listener tk b l in
    let (ls', cs) = advance_all tk b ls in (l' ∷ ls', entry_of l.id c cs)

unfoldable pub generate_checkpoint :
    CheckpointToolkit → Option Batch → List EsListener → List EsListener × StreamCheckpoint
unfolding advance_all
generate_checkpoint tk b ls =
    let (ls', cs) = advance_all tk b ls in (ls', record { time = tk.now; listeners = cs })
