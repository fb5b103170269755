-- ===== src/Confirmations.antt =====
-- internal/confirmations: the manager that follows each event and transaction until enough blocks
-- stand on top of its own.
pub mod Blocks
pub mod Walk
pub mod Dispatch
pub mod Extend
pub mod Height
pub mod Receipts
pub mod Manager
pub mod Listener
pub mod Rounds
mod Examples
use firefly_transaction_mana.Prelude.{ℕ, String, Bool, Option, List, ◌+◌}
use Prim.Native.Nat.{◌%◌}
use firefly_transaction_mana.Handler.{
  Receipt, ErrorReason, Error, Confirmation, ConfirmationsNotification,
}

-- apitypes.BlockInfo
pub record BlockInfo : Type 0 where
  pub block_number : ℕ
  pub block_hash : String
  pub parent_hash : String
  pub transaction_hashes : List String

-- pendingType
pub data PendingType : Type 0 where
  event_item transaction_item : PendingType

-- pendingItem. A callback is told apart by its item, so that the fields say only whether there is
-- one, or a nil function; `queued_stale` says whether the element of the receipt queue is set.
pub record PendingItem : Type 0 where
  pub p_type : PendingType
  pub notified_confirmations : List Confirmation
  pub confirmations : List Confirmation
  pub scheduled_at_least_once : Bool
  pub confirmed : Bool
  pub previous_confirmation_count : Option ℕ
  pub queued_stale : Bool
  pub last_receipt_check : ℕ
  pub receipt_generation : ℕ
  pub applied_receipt_generation : ℕ
  pub has_receipt_callback : Bool
  pub has_confirmations_callback : Bool
  pub transaction_hash : String
  pub block_hash : String
  pub block_number : ℕ
  pub transaction_index : ℕ
  pub log_index : ℕ
  pub listener_id : Option String

-- What `getKey` is formatted from.
pub data Key : Type 0 where
  event_key : ℕ → ℕ → ℕ → Option String → String → String → Key
  transaction_key : String → Key

-- The calls that an item's handling makes, in their order: its callbacks, its removal from the
-- pending items, and a receipt check that is put into the queue.
pub data Effect : Type 0 where
  receipt_notified : Receipt → Effect
  notified : ConfirmationsNotification → Effect
  removed : Effect
  check_scheduled : Effect

-- A `uint64` that is incremented.
abbrev pub next_number : ℕ → ℕ
next_number n = (n + 1) % 18446744073709551616

abbrev pub confirmation_from_block : BlockInfo → Confirmation
confirmation_from_block b = record {
  block_number = b.block_number;
  block_hash = b.block_hash;
  parent_hash = b.parent_hash;
}

unfoldable pub get_key : PendingItem → Key
get_key p = elim p.p_type [
  | event_item ↦
      event_key p.block_number p.transaction_index p.log_index p.listener_id p.transaction_hash
        p.block_hash
  | transaction_item ↦ transaction_key p.transaction_hash
]
