-- ===== src/Events.antt =====
-- internal/events: an event stream, which gathers the confirmed events of its listeners into
-- batches, delivers them, and writes a checkpoint once a batch is done with.
pub mod Poll
pub mod Feed
pub mod Deliver
pub mod Checkpoints
pub mod BatchLoop
pub mod Config
pub mod Lifecycle
pub mod Managed
mod Examples
use firefly_transaction_mana.Prelude.{ℕ, String, Bool, Option, List}

-- ffcapi.EventListenerCheckpoint, by its JSON text; its order is the connector's.
abbrev pub Checkpoint : Type 0
Checkpoint = String

pub data CheckpointSource : Type 0 where
  source_event source_hwm : CheckpointSource

-- apitypes.ListenerType
pub data ListenerType : Type 0 where
  type_events type_blocks : ListenerType

-- listener, with what is read here of its specification; times are numbers of nanoseconds.
pub record EsListener : Type 0 where
  pub id : String
  pub listener_type : Option ListenerType
  pub name : String
  pub signature : Option String
  pub from_block : String
  pub checkpoint : Option Checkpoint
  pub checkpoint_source : CheckpointSource
  pub last_checkpoint : Option ℕ
  pub started : Bool

-- ffcapi.Event and ffcapi.BlockEvent; `data_text` is all that is only passed on.
pub record Event : Type 0 where
  pub listener_id : Option String
  pub data_text : String

pub record ListenerEvent : Type 0 where
  pub checkpoint : Option Checkpoint
  pub event : Option Event
  pub block_event : Option Event
  pub removed : Bool

-- apitypes.EventWithContext
pub record EventWithContext : Type 0 where
  pub sub_id : String
  pub listener_name : String
  pub listener_type : ListenerType
  pub event : Option Event
  pub block_event : Option Event

-- eventStreamBatch, without its timer.
pub record Batch : Type 0 where
  pub number : ℕ
  pub events : List EventWithContext
  pub checkpoints : List (String × Checkpoint)
