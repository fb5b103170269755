-- ===== src/Confirmations/Examples.antt =====
-- Runs of the confirmations manager at concrete items.
use firefly_transaction_mana.Prelude.{
  ℕ, ◌≡◌, refl, true, false, none, some, List, [], ◌∷◌, ◌⊎◌, str_eq, arith, ◌&&◌, ◌==◌,
  if◌then◌else◌,
}
use firefly_transaction_mana.Handler.{Receipt, not_found, callee_error}
use firefly_transaction_mana.Confirmations.{BlockInfo, PendingItem, get_key}
use firefly_transaction_mana.Confirmations.Blocks.{
  block_answer, block_error, got, new_block_state, Connector, get_by_number, get_cached,
  get_uncached, fetched, get_block, is_past_head, find_block,
}
use firefly_transaction_mana.Confirmations.Blocks.Consistent.{
  after_queries, get_by_number_no_newer, get_by_number_no_change,
}
use firefly_transaction_mana.Confirmations.Dispatch.{dispatch_confirmations}
use firefly_transaction_mana.Confirmations.Dispatch.Synced.{Synced, dispatch_confirmations-Synced}
use firefly_transaction_mana.Confirmations.Height.{
  HeightToolkit, receipt_answer, dispatch_confirmation_using_head_block_number,
}
use firefly_transaction_mana.Confirmations.Height.Counted.{Counted, dispatch_confirmation-Counted}
use firefly_transaction_mana.Confirmations.Walk.{Tracking, walk_chain_for_item}
use firefly_transaction_mana.Confirmations.Walk.Laws.{WalkEnd, walk_chain_for_item-End}
use firefly_transaction_mana.Confirmations.Receipts.Generations.{Arrival}
use firefly_transaction_mana.Confirmations.Manager.{Manager, ManagerToolkit, find_key, remove_item}
use firefly_transaction_mana.Confirmations.Manager.Keys.{moved_event_stays}
use firefly_transaction_mana.Confirmations.Listener.{
  Notification, new_event_log, receipt_arrived, EventId, EventInfo, Round, event_pending_item,
}

abbrev event_id : EventId
event_id = record {
  listener_id = some "l1";
  block_hash = "h10";
  block_number = 10;
  transaction_hash = "t1";
  transaction_index = 0;
  log_index = 2;
}

abbrev event_info : EventInfo
event_info = record { id = event_id; has_confirmations_callback = true }

abbrev item : PendingItem
item = event_pending_item event_info

abbrev block11 : BlockInfo
block11 = record {
  block_number = 11;
  block_hash = "h11";
  parent_hash = "h10";
  transaction_hashes = [];
}

abbrev block12 : BlockInfo
block12 = record {
  block_number = 12;
  block_hash = "h12";
  parent_hash = "h11";
  transaction_hashes = [];
}

-- Block 12 is found only by the first query.
abbrev connector : Connector
connector calls n parent =
    if n == 11
    then block_answer block11
    else if n == 12 && calls == 0
    then block_answer block12
    else block_error not_found (callee_error "no block")

abbrev receipt10 : Receipt
receipt10 = record { block_number = 10; block_hash = "h10"; success = true; protocol_id = "p" }

abbrev toolkit : HeightToolkit
toolkit = record {
  now = 100;
  stale_receipt_timeout = 50;
  same_hash = str_eq;
  receipt = receipt_answer (some receipt10);
}

abbrev full : Tracking
full = record {
  required_confirmations = 1;
  highest_block_seen = 0;
  head_block_number = 0;
  light = false;
}

get_by_number_no_newer_example :
    (get_by_number connector 15 "x" (
      after_queries connector
        ((11, "h10") ∷ [])
        (get_by_number connector 13 "x" (new_block_state 0)).1)).0
    ≡ got none
unfolding get_by_number get_cached get_uncached fetched get_block is_past_head find_block
get_by_number_no_newer_example =
    get_by_number_no_newer connector 13 15 "x" "x" ((11, "h10") ∷ []) (new_block_state 0)
      (omega arith) (omega arith) (omega arith, tt) refl

get_by_number_no_change_example :
    ((get_by_number connector 12 "y" (
        after_queries connector
          ((11, "h10") ∷ [])
          (get_by_number connector 12 "h11" (new_block_state 0)).1)).0
      ≡ got (some block12))
    ⊎ ((get_by_number connector 12 "y" (
          after_queries connector
            ((11, "h10") ∷ [])
            (get_by_number connector 12 "h11" (new_block_state 0)).1)).0
        ≡ got none)
unfolding get_by_number get_cached get_uncached fetched get_block is_past_head find_block
get_by_number_no_change_example =
    get_by_number_no_change connector 12 "h11" "y" block12 ((11, "h10") ∷ []) (new_block_state 0)
      (omega arith, tt) refl

dispatch_confirmations-Synced_example :
    Synced item (dispatch_confirmations 1 item).0 (dispatch_confirmations 1 item).1
dispatch_confirmations-Synced_example = dispatch_confirmations-Synced 1 item

dispatch_confirmation-Counted_example :
    Counted toolkit 3 13 item (dispatch_confirmation_using_head_block_number toolkit 3 13 item)
dispatch_confirmation-Counted_example = dispatch_confirmation-Counted toolkit 3 13 item

walk_chain_for_item-End_example :
    WalkEnd 1 item (walk_chain_for_item connector toolkit full item (new_block_state 0))
walk_chain_for_item-End_example =
    walk_chain_for_item-End connector toolkit full item (new_block_state 0) refl refl

abbrev arrival : ℕ → Arrival
arrival g = record {
  receipt = receipt10;
  generation = g;
  toolkit = toolkit;
  tracking = full;
  blocks = new_block_state 0;
}

abbrev manager_toolkit : ManagerToolkit
manager_toolkit = record {
  block_by_hash = λ _ _. block_answer block11;
  block_by_number = λ _. connector;
  height = λ _. toolkit;
  sort = λ _ items. items;
  same_listener = λ _ _. false;
}

abbrev manager : Manager
manager = record {
  heap = λ _. item;
  panicked = false;
  next_item = 1;
  pending = (get_key item, 0) ∷ [];
  entries = [];
  tracking = full;
  block_listener_stale = false;
  fetch_receipt_upon_entry = false;
  steps = 0;
  performed = [];
}

abbrev moved_item : PendingItem
moved_item = record item { block_hash = "h10b" }

moved_event_stays_example :
    find_key (get_key item) (remove_item 0 moved_item manager).pending ≡ some 0
unfolding find_key get_key
moved_event_stays_example = moved_event_stays 0 item moved_item manager refl refl refl refl

abbrev queue : List Notification
queue =
    record {
      notification_type = new_event_log;
      event = some event_info;
      transaction = none;
      removed_listener = none;
      pending = none;
      receipt = none;
      receipt_generation = 0;
    }
    ∷ record {
      notification_type = receipt_arrived;
      event = none;
      transaction = none;
      removed_listener = none;
      pending = some 0;
      receipt = some receipt10;
      receipt_generation = 1;
    }
    ∷ []

abbrev round : Round
round = record { manager = manager; blocks = new_block_state 0; failed = false }
