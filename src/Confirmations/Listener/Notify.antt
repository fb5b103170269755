-- ===== src/Confirmations/Listener/Notify.antt =====
-- A notification that was accepted is processed.
use firefly_transaction_mana.Prelude.{◌≡◌, Bool, true, Option, none, some, List, [], ◌∷◌}
use firefly_transaction_mana.Confirmations.Manager.{Manager}
use firefly_transaction_mana.Confirmations.Manager.Ready.{Ready}
use firefly_transaction_mana.Confirmations.Listener.{
  NotificationType, new_event_log, new_transaction, EventInfo, TransactionInfo, Notification,
  is_valid, Round,
}

abbrev pub has_event_callback : Option EventInfo → Bool
has_event_callback none = true
has_event_callback (some e) = e.has_confirmations_callback

abbrev pub has_transaction_callback : Option TransactionInfo → Bool
has_transaction_callback none = true
has_transaction_callback (some t) = t.has_confirmations_callback

-- A notification of something new comes with a callback for confirmations.
abbrev pub has_callback : NotificationType → Notification → Bool
has_callback new_event_log n = has_event_callback n.event
has_callback new_transaction n = has_transaction_callback n.transaction
has_callback _ n = true

-- Every notification of the list is one that `notify` accepts, and has its callback.
abbrev pub AllValid : List Notification → Type 0
AllValid [] = Unit {0}
AllValid (n ∷ ns) =
    (is_valid n.notification_type n ≡ true)
    × (has_callback n.notification_type n ≡ true)
    × AllValid ns

abbrev ReadyIf : Option Round → Type 0
ReadyIf none = ⊥
ReadyIf (some r) = Ready r.manager
