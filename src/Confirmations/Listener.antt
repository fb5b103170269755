-- ===== src/Confirmations/Listener.antt =====
-- internal/confirmations/confirmations.go: confirmationsListener, and what it does with new blocks
-- and with notifications.
pub mod Notify
use firefly_transaction_mana.Prelude.{
  ℕ, suc, String, Bool, true, false, not, Option, none, some, List, [], ◌∷◌, ◌++◌, ◌&&◌, ◌||◌, ltb,
  leb, ◌==◌, str_eq, is_some, if◌then◌else◌,
}
use firefly_transaction_mana.Handler.{Receipt}
use firefly_transaction_mana.Confirmations.{
  PendingType, event_item, transaction_item, PendingItem, Key, transaction_key, BlockInfo,
}
use firefly_transaction_mana.Confirmations.Blocks.{
  BlockAnswer, BlockState, new_block_state, Got, got, failed, get_block, Connector,
}
use firefly_transaction_mana.Confirmations.Height.{
  HeightToolkit, HeightError, HeightStep, dispatch_confirmation_using_head_block_number,
}
use firefly_transaction_mana.Confirmations.Dispatch.{dispatch_confirmations}
use firefly_transaction_mana.Confirmations.Extend.{accept_block}
use firefly_transaction_mana.Confirmations.Walk.{Tracking, ItemStep, walk_chain_for_item}
use firefly_transaction_mana.Confirmations.Receipts.{dispatch_receipt}
use firefly_transaction_mana.Confirmations.Manager.{
  Manager, ManagerToolkit, less, find_key, set_item, items_of, schedule_item, after_step,
  remove_item, add_or_replace_item, listener_removed, schedule_receipt_checks,
}

-- NotificationType; `other` is any other text.
pub data NotificationType : Type 0 where
  new_event_log removed_event_log new_transaction removed_transaction : NotificationType
  listener_removed_type receipt_arrived other : NotificationType

-- ffcapi.EventID, as far as it is read here; the numbers are not nil.
pub record EventId : Type 0 where
  pub listener_id : Option String
  pub block_hash : String
  pub block_number : ℕ
  pub transaction_hash : String
  pub transaction_index : ℕ
  pub log_index : ℕ

-- EventInfo
pub record EventInfo : Type 0 where
  pub id : EventId
  pub has_confirmations_callback : Bool

pub record TransactionInfo : Type 0 where
  pub transaction_hash : String
  pub has_receipt_callback : Bool
  pub has_confirmations_callback : Bool

pub record RemovedListenerInfo : Type 0 where
  pub listener_id : Option String
  pub has_completed : Bool

-- Notification: each part is a pointer, and `pending` one to an item of the heap.
pub record Notification : Type 0 where
  pub notification_type : NotificationType
  pub event : Option EventInfo
  pub transaction : Option TransactionInfo
  pub removed_listener : Option RemovedListenerInfo
  pub pending : Option ℕ
  pub receipt : Option Receipt
  pub receipt_generation : ℕ

-- A callback is not asked for.
abbrev pub is_valid_event : Option EventInfo → Bool
is_valid_event none = false
is_valid_event (some e) =
    is_some e.id.listener_id
    && not (str_eq e.id.transaction_hash "")
    && not (str_eq e.id.block_hash "")

abbrev pub is_valid_transaction : Option TransactionInfo → Bool
is_valid_transaction none = false
is_valid_transaction (some t) = not (str_eq t.transaction_hash "")

abbrev pub is_valid_removal : Option RemovedListenerInfo → Bool
is_valid_removal none = false
is_valid_removal (some r) = r.has_completed

abbrev pub is_valid : NotificationType → Notification → Bool
is_valid new_event_log n = is_valid_event n.event
is_valid removed_event_log n = is_valid_event n.event
is_valid new_transaction n = is_valid_transaction n.transaction
is_valid removed_transaction n = is_valid_transaction n.transaction
is_valid listener_removed_type n = is_valid_removal n.removed_listener
is_valid receipt_arrived n = is_some n.pending && is_some n.receipt
is_valid other n = true

-- `Notify`: the queue after it, `none` where the request is invalid.
unfoldable pub notify : Notification → List Notification → Option (List Notification)
notify n queue = if is_valid n.notification_type n then some (queue ++ n ∷ []) else none

abbrev pub event_pending_item : EventInfo → PendingItem
event_pending_item e = record {
  p_type = event_item;
  notified_confirmations = [];
  confirmations = [];
  scheduled_at_least_once = false;
  confirmed = false;
  previous_confirmation_count = none;
  queued_stale = false;
  last_receipt_check = 0;
  receipt_generation = 0;
  applied_receipt_generation = 0;
  has_receipt_callback = false;
  has_confirmations_callback = e.has_confirmations_callback;
  transaction_hash = e.id.transaction_hash;
  block_hash = e.id.block_hash;
  block_number = e.id.block_number;
  transaction_index = e.id.transaction_index;
  log_index = e.id.log_index;
  listener_id = e.id.listener_id;
}

abbrev pub transaction_pending_item : ℕ → TransactionInfo → PendingItem
transaction_pending_item now t = record {
  p_type = transaction_item;
  notified_confirmations = [];
  confirmations = [];
  scheduled_at_least_once = false;
  confirmed = false;
  previous_confirmation_count = none;
  queued_stale = false;
  last_receipt_check = now;
  receipt_generation = 0;
  applied_receipt_generation = 0;
  has_receipt_callback = t.has_receipt_callback;
  has_confirmations_callback = t.has_confirmations_callback;
  transaction_hash = t.transaction_hash;
  block_hash = "";
  block_number = 0;
  transaction_index = 0;
  log_index = 0;
  listener_id = none;
}

-- The manager, the view of the chain, and whether the connector failed.
pub record Round : Type 0 where
  pub manager : Manager
  pub blocks : BlockState
  pub failed : Bool

-- `none` is a call of a nil callback.
abbrev pub unless_panicked : Round → Option Round
unless_panicked r = if r.manager.panicked then none else some r

-- A step of the item `i`; `none` is such a call, or a walk that ran out of fuel.
abbrev pub with_step : ℕ → Manager → Option ItemStep → Option Round
with_step i m none = none
with_step i m (some s) = unless_panicked (record {
  manager = after_step i s.item s.effects m;
  blocks = s.blocks;
  failed = is_some s.error;
})

unfoldable pub walk_item : ManagerToolkit → ℕ → BlockState → Manager → Option Round
unfolding walk_chain_for_item
walk_item tk i bs m =
    with_step i m (
      walk_chain_for_item (tk.block_by_number m.steps) (tk.height m.steps) m.tracking (m.heap i) bs)

-- The cases of `processNotifications`; `none` is a dereference of a nil pointer, or a call
-- of a nil function.
unfoldable pub on_new_event :
    ManagerToolkit → Option EventInfo → BlockState → Manager → Option Round
unfolding walk_item add_or_replace_item
on_new_event tk none bs m = none
on_new_event tk (some e) bs m =
    walk_item tk m.next_item bs (add_or_replace_item (event_pending_item e) m)

unfoldable pub on_new_transaction :
    ManagerToolkit → Option TransactionInfo → BlockState → Manager → Option Round
unfolding add_or_replace_item schedule_item
on_new_transaction tk none bs m = none
on_new_transaction tk (some t) bs m =
    let m' = add_or_replace_item (transaction_pending_item (tk.height m.steps).now t) m in
    some (record {
      manager = if m.fetch_receipt_upon_entry then schedule_item tk false m.next_item m' else m';
      blocks = bs;
      failed = false;
    })

-- The item that is made to be removed is a new one, which is not in the receipt queue: it removes
-- the entry of the map that has its key.
unfoldable pub on_removed_event : Option EventInfo → BlockState → Manager → Option Round
unfolding remove_item
on_removed_event none bs m = none
on_removed_event (some e) bs m = some (record {
  manager = remove_item m.next_item (event_pending_item e) m;
  blocks = bs;
  failed = false;
})

unfoldable pub on_removed_transaction :
    ℕ → Option TransactionInfo → BlockState → Manager → Option Round
unfolding remove_item
on_removed_transaction now none bs m = none
on_removed_transaction now (some t) bs m = some (record {
  manager = remove_item m.next_item (transaction_pending_item now t) m;
  blocks = bs;
  failed = false;
})

unfoldable pub on_receipt :
    ManagerToolkit → Option ℕ → Option Receipt → ℕ → BlockState → Manager → Option Round
unfolding dispatch_receipt
on_receipt tk (some i) (some r) generation bs m = with_step i m (
    dispatch_receipt (tk.block_by_number m.steps) (tk.height m.steps) m.tracking r generation
      (m.heap i) bs)
on_receipt tk _ _ generation bs m = none

unfoldable pub process_notification :
    ManagerToolkit → NotificationType → Notification → BlockState → Manager → Option Round
unfolding on_new_event on_new_transaction on_removed_event on_removed_transaction on_receipt
process_notification tk new_event_log n bs m = on_new_event tk n.event bs m
process_notification tk new_transaction n bs m = on_new_transaction tk n.transaction bs m
process_notification tk removed_event_log n bs m = on_removed_event n.event bs m
process_notification tk removed_transaction n bs m =
    on_removed_transaction (tk.height m.steps).now n.transaction bs m
process_notification tk receipt_arrived n bs m =
    on_receipt tk n.pending n.receipt n.receipt_generation bs m
process_notification tk _ n bs m = some (record { manager = m; blocks = bs; failed = false })

-- The notifications that are left, from the one whose walk has failed.
pub record Processed : Type 0 where
  pub left : List Notification
  pub round : Round

abbrev pub and_process :
    Notification → List Notification → Option Round → (Round → Option Processed) → Option Processed
and_process n ns none go = none
and_process n ns (some r) go = elim r.failed [
  | true ↦ some (record { left = n ∷ ns; round = r })
  | false ↦ go r
]

unfoldable pub process_notifications : ManagerToolkit → List Notification → Round → Option Processed
unfolding process_notification
process_notifications tk [] r = some (record { left = []; round = r })
process_notifications tk (n ∷ ns) r =
    and_process n ns (process_notification tk n.notification_type n r.blocks r.manager)
      (process_notifications tk ns)
