-- ===== src/Events/Lifecycle/Listeners.antt =====
-- internal/events/eventstream.go: PrepareListenerUpdate, Apply, resetListenerCheckpoint,
-- lockedListenerUpdate, RemoveListener.
use firefly_transaction_mana.Prelude.{
  String, Bool, true, false, not, Option, none, some, List, [], ◌∷◌, is_some, get_or, str_eq,
  if◌then◌else◌,
}
use firefly_transaction_mana.Events.{Checkpoint, source_event, EsListener}
use firefly_transaction_mana.Events.Poll.{find_listener}
use firefly_transaction_mana.Events.Checkpoints.{StreamCheckpoint}
use firefly_transaction_mana.Events.Lifecycle.{
  Stream, StartAnswers, StartEnd, start_ok, start_stream, mark_started,
}
use firefly_transaction_mana.Events.Lifecycle.Stop.{StopAnswers, StopEnd, stop_ok, stop}

pub data PrepareEnd : Type 0 where
  prepared filter_update_not_allowed reset_not_found : PrepareEnd

abbrev pub signature_string : Option String → String
signature_string s = get_or s ""

abbrev pub prepare_found : EsListener → Bool → Option EsListener → PrepareEnd
prepare_found spec reset none = if reset then reset_not_found else prepared
prepare_found spec reset (some l) =
    if str_eq (signature_string spec.signature) (signature_string l.signature)
    then prepared
    else filter_update_not_allowed

-- `spec` is the new specification, in the fields of a listener that hold one.
unfoldable pub prepare_listener_update : Stream → EsListener → Bool → PrepareEnd
unfolding find_listener
prepare_listener_update s spec reset = prepare_found spec reset (find_listener spec.id s.listeners)

-- An existing listener gets the new specification.
unfoldable pub with_spec : EsListener → EsListener → EsListener
with_spec spec l = record l {
  listener_type = spec.listener_type;
  name = spec.name;
  signature = spec.signature;
  from_block = spec.from_block;
}

unfoldable pub replace_listener :
    String → (EsListener → EsListener) → List EsListener → List EsListener
replace_listener id f [] = []
replace_listener id f (l ∷ ls) = if str_eq l.id id then f l ∷ ls else l ∷ replace_listener id f ls

unfoldable pub new_listener : EsListener → EsListener
new_listener spec = record spec {
  checkpoint = none;
  checkpoint_source = source_event;
  last_checkpoint = none;
  started = false;
}

-- The stream, and whether the listener is new.
abbrev pub update_found : Stream → EsListener → Option EsListener → Stream × Bool
update_found s spec none = (record s { listeners = new_listener spec ∷ s.listeners }, true)
update_found s spec (some l) =
    (record s { listeners = replace_listener spec.id (with_spec spec) s.listeners }, false)

unfoldable pub locked_listener_update : Stream → EsListener → Stream × Bool
unfolding find_listener new_listener with_spec replace_listener
locked_listener_update s spec = update_found s spec (find_listener spec.id s.listeners)

unfoldable pub delete_entry : String → List (String × Checkpoint) → List (String × Checkpoint)
delete_entry id [] = []
delete_entry id ((k, c) ∷ cs) =
    if str_eq k id then delete_entry id cs else (k, c) ∷ delete_entry id cs

unfoldable pub cleared : EsListener → EsListener
cleared l = record l { checkpoint = none; checkpoint_source = source_event; last_checkpoint = none }

-- What the database answers to the reset of a checkpoint.
pub record ResetAnswers : Type 0 where
  pub read : Bool
  pub written : Bool

abbrev pub reset_stored :
    ResetAnswers → String → Option StreamCheckpoint → Option StreamCheckpoint × Bool
reset_stored a id none = (none, true)
reset_stored a id (some cp) =
    if a.written
    then (some (record cp { listeners = delete_entry id cp.listeners }), true)
    else (some cp, false)

pub data ResetEnd : Type 0 where
  reset_ok reset_error reset_panic : ResetEnd

abbrev pub reset_taken : Stream → Option StreamCheckpoint × Bool → Stream × ResetEnd
reset_taken s (stored, ok) = (record s { stored = stored }, if ok then reset_ok else reset_error)

-- The listener loses its position, in memory and then in the database. A stream that the API manages
-- has a nil pointer in place of the database.
unfoldable pub reset_listener_checkpoint : ResetAnswers → String → Stream → Stream × ResetEnd
unfolding replace_listener cleared delete_entry
reset_listener_checkpoint a id s =
    let s' = record s { listeners = replace_listener id cleared s.listeners } in
    if s.api_managed
    then (s', reset_panic)
    else if not a.read
    then (s', reset_error)
    else reset_taken s' (reset_stored a id s.stored)

pub data ApplyEnd : Type 0 where
  apply_ok apply_reset_error apply_start_error apply_panic : ApplyEnd
  apply_stop_failed : StopEnd → ApplyEnd
  apply_restart_failed : StartEnd → ApplyEnd

-- What is answered while an update is applied: to the stop, the reset and the start of the stream,
-- or to the start of the listener.
pub record ApplyAnswers : Type 0 where
  pub stops : StopAnswers
  pub reset : ResetAnswers
  pub start : StartAnswers
  pub add_ok : Bool

abbrev pub restarted : Stream × StartEnd → Stream × ApplyEnd
restarted (s, start_ok rs) = (s, apply_ok)
restarted (s, e) = (s, apply_restart_failed e)

abbrev pub reset_and_start : ApplyAnswers → Bool → Stream × ResetEnd → Stream × ApplyEnd
reset_and_start a was_started (s, reset_error) = (s, apply_reset_error)
reset_and_start a was_started (s, reset_panic) = (s, apply_panic)
reset_and_start a false (s, reset_ok) = (s, apply_ok)
reset_and_start a true (s, reset_ok) = restarted (start_stream a.start s)

abbrev pub reset_after_stop : ApplyAnswers → String → Stream × StopEnd → Stream × ApplyEnd
reset_after_stop a id (s, stop_ok) = reset_and_start a true (reset_listener_checkpoint a.reset id s)
reset_after_stop a id (s, e) = (s, apply_stop_failed e)

abbrev pub apply_updated : ApplyAnswers → String → Bool → Stream × Bool → Stream × ApplyEnd
apply_updated a id reset (s, is_new) =
    if reset
    then (if is_some s.current
        then reset_after_stop a id (stop a.stops s)
        else reset_and_start a false (reset_listener_checkpoint a.reset id s))
    else if not is_new
    then (s, apply_ok)
    else if not (is_some s.current)
    then (s, apply_ok)
    else if a.add_ok
    then (record s { listeners = replace_listener id (mark_started true) s.listeners }, apply_ok)
    else (s, apply_start_error)

-- `Apply`, of an update that was prepared.
unfoldable pub apply : ApplyAnswers → EsListener → Bool → Stream → Stream × ApplyEnd
unfolding locked_listener_update reset_listener_checkpoint start_stream stop replace_listener
    mark_started
apply a spec reset s = apply_updated a spec.id reset (locked_listener_update s spec)

unfoldable pub without : String → List EsListener → List EsListener
without id [] = []
without id (l ∷ ls) = if str_eq l.id id then ls else l ∷ without id ls

-- `RemoveListener`; the result is false where the connector, or the confirmations manager, answers
-- the removal with an error.
unfoldable pub remove_listener : Bool → String → Stream → Stream × Bool
unfolding find_listener without
remove_listener removed id s =
    if is_some (find_listener id s.listeners)
    then (
      record s { listeners = without id s.listeners },
      if is_some s.current then removed else true,
    )
    else (s, true)
