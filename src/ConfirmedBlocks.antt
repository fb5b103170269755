-- ===== src/ConfirmedBlocks.antt =====
-- internal/confirmations/confirmed_block_listener.go: a listener that dispatches each block once
-- enough blocks stand on top of it. A goroutine takes the notifications of new blocks, and another
-- reads and dispatches; both change the state under a lock.
pub mod Notified
pub mod Dispatcher
pub mod Chain
pub mod Invariant
pub mod Whole
pub mod Fetched
pub mod Laws
mod Examples
use firefly_transaction_mana.Prelude.{
  ℕ, String, Bool, true, false, Option, none, some, List, [], ◌∷◌, str_eq, if◌then◌else◌,
}
use firefly_transaction_mana.Confirmations.{BlockInfo}

-- confirmedBlockListener: its numbers, the blocks since the checkpoint, and those that the
-- notifications add onto their end. `tapped` is the channel that wakes the dispatcher.
pub record Listener : Type 0 where
  pub from_block : ℕ
  pub waiting_for_from_block : Bool
  pub rolling_checkpoint : Option ℕ
  pub blocks_since_checkpoint : List BlockInfo
  pub new_head_to_add : List BlockInfo
  pub required_confirmations : ℕ
  pub tapped : Bool

abbrev pub last {ℓ} : {A : Type ℓ} → List A → Option A
last [] = none
last (x ∷ []) = some x
last (x ∷ y ∷ xs) = last (y ∷ xs)

-- The argument `fromBlock`: "" and "latest", "earliest", or a number; `strconv.ParseUint` fails on
-- any other text.
pub data FromBlock : Type 0 where
  latest earliest : FromBlock
  number : ℕ → FromBlock
  not_a_number : FromBlock

pub data StartError : Type 0 where
  unsupported_mode from_block_invalid already_started : StartError

-- Where the listener starts: an error, or a block, if it need not wait for a notification.
pub data StartAt : Type 0 where
  refused : StartError → StartAt
  starts : Option ℕ → StartAt

unfoldable pub start_from : FromBlock → Option ℕ → StartAt
start_from latest checkpoint = starts checkpoint
start_from earliest checkpoint = starts (some 0)
start_from (number n) checkpoint = starts (some n)
start_from not_a_number checkpoint = refused from_block_invalid

abbrev pub started_at : ℕ → Option ℕ → Option ℕ → Listener
started_at required checkpoint none = record {
  from_block = 0;
  waiting_for_from_block = true;
  rolling_checkpoint = checkpoint;
  blocks_since_checkpoint = [];
  new_head_to_add = [];
  required_confirmations = required;
  tapped = false;
}
started_at required checkpoint (some n) = record {
  from_block = n;
  waiting_for_from_block = false;
  rolling_checkpoint = checkpoint;
  blocks_since_checkpoint = [];
  new_head_to_add = [];
  required_confirmations = required;
  tapped = false;
}

-- `startConfirmedBlockListener`: `listeners` is the manager's map, by the IDs of the listeners.
pub data Started : Type 0 where
  not_started : StartError → Started
  started : List (String × Listener) → Started

abbrev pub has_id : String → List (String × Listener) → Bool
has_id id [] = false
has_id id ((k, l) ∷ ls) = if str_eq k id then true else has_id id ls

abbrev pub add_listener : String → ℕ → Option ℕ → StartAt → List (String × Listener) → Started
add_listener id required checkpoint (refused e) ls = not_started e
add_listener id required checkpoint (starts n) ls =
    if has_id id ls
    then not_started already_started
    else started ((id, started_at required checkpoint n) ∷ ls)

unfoldable pub start_confirmed_block_listener :
    Bool → String → FromBlock → Option ℕ → ℕ → List (String × Listener) → Started
unfolding start_from
start_confirmed_block_listener light id from checkpoint required ls =
    if light
    then not_started unsupported_mode
    else add_listener id required checkpoint (start_from from checkpoint) ls
