-- ===== src/Events/Lifecycle.antt =====
-- internal/events: the state of an event stream, and its start, of eventstream.go, with the requests
-- of listener.go that add its listeners to the connector. An answer of the connector, the database
-- or the confirmations manager is an argument.
pub mod Stop
pub mod Listeners
pub mod Consistent
pub mod Relisted
pub mod Calls
pub mod Stops
pub mod Resume
pub mod Update
pub mod Options
use firefly_transaction_mana.Prelude.{
  ℕ, String, Bool, true, false, not, Option, none, some, List, [], ◌∷◌, map, ◌&&◌, ◌||◌, str_eq,
  if◌then◌else◌,
}
use firefly_transaction_mana.Events.{Checkpoint, EsListener}
use firefly_transaction_mana.Events.Poll.Gathered.{find_checkpoint}
use firefly_transaction_mana.Events.Checkpoints.{is_block_listener, StreamCheckpoint}

pub data Status : Type 0 where
  es_started es_stopping es_stopped es_deleted : Status

abbrev pub status_eq : Status → Status → Bool
status_eq es_started es_started = true
status_eq es_stopping es_stopping = true
status_eq es_stopped es_stopped = true
status_eq es_deleted es_deleted = true
status_eq _ _ = false

-- startedStreamState: whether its context is cancelled, and which of its goroutines were started;
-- each of these closes its channel some time after the context is cancelled.
pub record Running : Type 0 where
  pub cancelled : Bool
  pub event_loop : Bool
  pub batch_loop : Bool
  pub block_listener : Bool

-- eventStream; `stored` is its checkpoint in the database.
pub record Stream : Type 0 where
  pub status : Status
  pub api_managed : Bool
  pub current : Option Running
  pub listeners : List EsListener
  pub confirmations_started : Bool
  pub stored : Option StreamCheckpoint

pub record AddRequest : Type 0 where
  pub listener_id : String
  pub name : String
  pub from_block : String
  pub checkpoint : Option Checkpoint

-- What the others answer while a stream starts: `parses` says which texts are checkpoints.
pub record StartAnswers : Type 0 where
  pub action_ok : Bool
  pub checkpoint_read : Bool
  pub stream_start_ok : Bool
  pub block_listener_ok : String → Bool
  pub parses : String → Bool

pub data StartEnd : Type 0 where
  start_ok : List AddRequest → StartEnd
  start_status_error start_action_error start_checkpoint_error start_connector_error
        start_block_error start_api_managed :
      StartEnd

unfoldable pub check_set_status : Status → Status → Stream → Option Stream
check_set_status required new s =
    if status_eq s.status required then some (record s { status = new }) else none

-- A text that was persisted as null is no checkpoint, nor is one that the connector cannot read.
abbrev pub not_null : (String → Bool) → Option Checkpoint → Option Checkpoint
not_null parses none = none
not_null parses (some c) = if not (str_eq c "null") && parses c then some c else none

abbrev pub restored : (String → Bool) → Option StreamCheckpoint → String → Option Checkpoint
restored parses none id = none
restored parses (some cp) id = not_null parses (find_checkpoint id cp.listeners)

unfoldable pub build_add_request :
    (String → Bool) → Option StreamCheckpoint → EsListener → AddRequest
unfolding find_checkpoint
build_add_request parses cp l = record {
  listener_id = l.id;
  name = l.name;
  from_block = l.from_block;
  checkpoint = restored parses cp l.id;
}

unfoldable pub is_event_listener : EsListener → Bool
is_event_listener l = not (is_block_listener l.listener_type)

unfoldable pub event_requests :
    (String → Bool) → Option StreamCheckpoint → List EsListener → List AddRequest
unfolding is_event_listener
event_requests parses cp [] = []
event_requests parses cp (l ∷ ls) =
    if is_event_listener l
    then build_add_request parses cp l ∷ event_requests parses cp ls
    else event_requests parses cp ls

unfoldable pub mark_started : Bool → EsListener → EsListener
mark_started started l = record l { started = started }

-- The connector has all the listeners for events.
unfoldable pub event_listeners_started : List EsListener → List EsListener
unfolding is_event_listener mark_started
event_listeners_started = map (λ l. if is_event_listener l then mark_started true l else l)

-- The listeners for blocks are started one by one, until one fails.
unfoldable pub start_block_listeners : (String → Bool) → List EsListener → List EsListener × Bool
unfolding is_event_listener mark_started
start_block_listeners ok [] = ([], true)
start_block_listeners ok (l ∷ ls) =
    let (ls', all_ok) = start_block_listeners ok ls in
    if is_event_listener l
    then (l ∷ ls', all_ok)
    else if ok l.id
    then (mark_started true l ∷ ls', all_ok)
    else (l ∷ ls, false)

-- Once the connector has accepted the stream.
unfoldable pub start_loops : StartAnswers → Stream → List AddRequest → Stream × StartEnd
unfolding start_block_listeners event_listeners_started
start_loops a s rs =
    let (ls, all_ok) =
      start_block_listeners a.block_listener_ok (event_listeners_started s.listeners) in
    (
      record s {
        current = some (record {
          cancelled = false;
          event_loop = true;
          batch_loop = not s.api_managed;
          block_listener = true;
        });
        listeners = ls;
        confirmations_started = true;
      },
      if all_ok then start_ok rs else start_block_error,
    )

unfoldable pub start_with_checkpoint :
    StartAnswers → Stream → Option StreamCheckpoint → Stream × StartEnd
unfolding start_loops event_requests
start_with_checkpoint a s cp =
    if a.stream_start_ok
    then start_loops a s (event_requests a.parses cp s.listeners)
    else (record s { current = none; status = es_stopped }, start_connector_error)

abbrev pub not_running : Running
not_running = record {
  cancelled = false;
  event_loop = false;
  batch_loop = false;
  block_listener = false;
}

-- `start`, with the checkpoint that the caller of a stream that the API manages has.
unfoldable pub start : StartAnswers → Option StreamCheckpoint → Stream → Stream × StartEnd
unfolding start_with_checkpoint
start a given s =
    let s' = record s { status = es_started; current = some not_running } in
    if not (status_eq s.status es_stopped)
    then (s, start_status_error)
    else if s.api_managed
    then start_with_checkpoint a s' given
    else if not a.action_ok
    then (s', start_action_error)
    else if not a.checkpoint_read
    then (s', start_checkpoint_error)
    else start_with_checkpoint a s' s.stored

-- `Start`
unfoldable pub start_stream : StartAnswers → Stream → Stream × StartEnd
unfolding start
start_stream a s = if s.api_managed then (s, start_api_managed) else start a none s
