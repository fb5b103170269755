-- ===== src/Events/Feed.antt =====
-- internal/events/eventstream.go: processNewEvent, processRemovedEvent and eventLoop, which pass the
-- connector's events on to the confirmations manager, or to the batches.
use firefly_transaction_mana.Prelude.{
  ℕ, String, Bool, true, false, Option, none, some, List, [], ◌∷◌, ◌++◌, ◌&&◌, ltb, is_some, ◌==◌,
  if◌then◌else◌,
}
use firefly_transaction_mana.Confirmations.Listener.{
  EventId, Notification, NotificationType, new_event_log, removed_event_log, notify,
}
use firefly_transaction_mana.Events.{Checkpoint, EsListener}
use firefly_transaction_mana.Events.Poll.{find_listener}

-- ffcapi.ListenerEvent, with the ID of its event where it has one.
pub record FedEvent : Type 0 where
  pub event : Option EventId
  pub checkpoint : Option Checkpoint
  pub removed : Bool

-- What was passed on: into the channel of the batches, and into the queue of the manager, with the
-- event that its callback holds.
pub record Fed : Type 0 where
  pub batch_channel : List FedEvent
  pub notifications : List Notification

-- Only a new event comes with a callback.
abbrev pub event_notification : NotificationType → Bool → EventId → Notification
event_notification t with_callback e = record {
  notification_type = t;
  event = some (record { id = e; has_confirmations_callback = with_callback });
  transaction = none;
  removed_listener = none;
  pending = none;
  receipt = none;
  receipt_generation = 0;
}

-- An invalid notification is only logged.
abbrev pub queued_or_same : Fed → Option (List Notification) → Fed
queued_or_same s none = s
queued_or_same s (some ns) = record s { notifications = ns }

unfoldable pub notify_manager : NotificationType → Bool → EventId → Fed → Fed
unfolding notify
notify_manager t with_callback e s =
    queued_or_same s (notify (event_notification t with_callback e) s.notifications)

abbrev pub feed_known : ℕ → FedEvent → EventId → Option EsListener → Fed → Fed
feed_known required fev e none s = s
feed_known required fev e (some l) s =
    if required == 0
    then record s { batch_channel = s.batch_channel ++ fev ∷ [] }
    else notify_manager new_event_log true e s

abbrev pub feed_valid :
    ℕ → List EsListener → FedEvent → EventId → Option String → Option Checkpoint → Fed → Fed
feed_valid required ls fev e none c s = s
feed_valid required ls fev e (some id) none s = s
feed_valid required ls fev e (some id) (some c) s =
    feed_known required fev e (find_listener id ls) s

abbrev pub feed_event : ℕ → List EsListener → FedEvent → Option EventId → Fed → Fed
feed_event required ls fev none s = s
feed_event required ls fev (some e) s = feed_valid required ls fev e e.listener_id fev.checkpoint s

unfoldable pub process_new_event : ℕ → List EsListener → FedEvent → Fed → Fed
unfolding find_listener notify_manager
process_new_event required ls fev s = feed_event required ls fev fev.event s

abbrev pub removed_event : ℕ → Option EventId → Fed → Fed
removed_event required none s = s
removed_event required (some e) s =
    if is_some e.listener_id && ltb 0 required
    then notify_manager removed_event_log false e s
    else s

unfoldable pub process_removed_event : ℕ → FedEvent → Fed → Fed
unfolding notify_manager
process_removed_event required fev s = removed_event required fev.event s

-- The callback of a new event, once its confirmations are notified.
unfoldable pub on_confirmations : FedEvent → Bool → Fed → Fed
on_confirmations fev confirmed s =
    if confirmed then record s { batch_channel = s.batch_channel ++ fev ∷ [] } else s

-- The loop over what the connector sends, with the listeners at that time.
unfoldable pub event_loop : ℕ → List (List EsListener × FedEvent) → Fed → Fed
unfolding process_new_event process_removed_event
event_loop required [] s = s
event_loop required ((ls, fev) ∷ more) s = event_loop required more (
    if fev.removed
    then process_removed_event required fev s
    else process_new_event required ls fev s)
