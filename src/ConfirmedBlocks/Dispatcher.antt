-- ===== src/ConfirmedBlocks/Dispatcher.antt =====
-- internal/confirmations/confirmed_block_listener.go: the dispatcher (popDispatchedIfAvailable,
-- readNextBlock, dispatchAllConfirmed), step by step, and its interleaving with notifications.
use firefly_transaction_mana.Prelude.{
  ℕ, suc, Bool, true, false, Option, none, some, List, [], ◌∷◌, ◌++◌, ltb, leb, length,
  if◌then◌else◌,
}
use firefly_transaction_mana.Confirmations.{BlockInfo, next_number}
use firefly_transaction_mana.Confirmations.Blocks.{Got, got, failed}
use firefly_transaction_mana.ConfirmedBlocks.{Listener, last}
use firefly_transaction_mana.ConfirmedBlocks.Notified.{process_block_notification, stands_on}

-- A block event, with the checkpoint that goes with it; `on_top` are the blocks on top of it, for
-- which it is dispatched.
pub record Dispatched : Type 0 where
  pub block : BlockInfo
  pub checkpoint : ℕ
  pub on_top : List BlockInfo

-- Where the dispatcher stands between two holds of the lock.
pub data Place : Type 0 where
  -- It waits for a tap, or for the first notification.
  waiting : Place
  -- `readNextBlock` is about to look for a block of the notifications.
  reading : Place
  -- The connector was asked for a block number.
  fetching : ℕ → Place
  -- The connector has answered with a block, which is to be attached.
  attaching : BlockInfo → Place
  -- `dispatchAllConfirmed` is about to look for a confirmed block.
  dispatching : Place

-- `last_from_notification` is the variable of `dispatcher`; `events` are those it has sent.
pub record System : Type 0 where
  pub listener : Listener
  pub place : Place
  pub last_from_notification : Bool
  pub events : List Dispatched

abbrev pub after_checkpoint : ℕ → Option ℕ → ℕ
after_checkpoint from none = from
after_checkpoint from (some c) = if leb from c then next_number c else from

abbrev pub after_last : Option BlockInfo → ℕ → ℕ
after_last none n = n
after_last (some b) n = next_number b.block_number

unfoldable pub number_to_fetch : Listener → ℕ
number_to_fetch l =
    after_last (last l.blocks_since_checkpoint) (after_checkpoint l.from_block l.rolling_checkpoint)

-- `popDispatchedIfAvailable` finds a block.
abbrev pub popped : BlockInfo → List BlockInfo → Listener → Listener
popped b bs l = record l {
  new_head_to_add = bs;
  blocks_since_checkpoint = l.blocks_since_checkpoint ++ b ∷ [];
}

-- The first hold of the lock in `readNextBlock`.
unfoldable pub read_head : List BlockInfo → System → System
unfolding number_to_fetch
read_head (b ∷ bs) s = record s {
  listener = popped b bs s.listener;
  last_from_notification = true;
  place = dispatching;
}
read_head [] s = record s {
  place = if s.last_from_notification then waiting else fetching (number_to_fetch s.listener);
}

-- The answer of the connector: an error is tried again, from the start of `readNextBlock`.
unfoldable pub answered : Got → System → System
answered (failed e) s = record s { place = reading }
answered (got none) s = record s { place = waiting }
answered (got (some b)) s = record s { place = attaching b }

abbrev pub drop_last {ℓ} : {A : Type ℓ} → List A → List A
drop_last [] = []
drop_last (x ∷ []) = []
drop_last (x ∷ y ∷ xs) = x ∷ drop_last (y ∷ xs)

-- The second hold of the lock: a block of the notifications goes first, and a block that does not
-- stand on the last one trims it off.
unfoldable pub attach_fetched : BlockInfo → List BlockInfo → System → System
attach_fetched f (b ∷ bs) s = record s {
  listener = popped b bs s.listener;
  last_from_notification = true;
  place = dispatching;
}
attach_fetched f [] s = record s {
  listener = record (s.listener) {
    blocks_since_checkpoint =
        if stands_on (last s.listener.blocks_since_checkpoint) f
        then s.listener.blocks_since_checkpoint ++ f ∷ []
        else drop_last s.listener.blocks_since_checkpoint;
  };
  place = dispatching;
}

-- One round of `dispatchAllConfirmed`.
unfoldable pub dispatch_one : List BlockInfo → System → System
dispatch_one [] s = record s { place = reading }
dispatch_one (b ∷ bs) s =
    if ltb s.listener.required_confirmations (suc (length bs))
    then record s {
      listener = record (s.listener) {
        blocks_since_checkpoint = bs;
        rolling_checkpoint = some b.block_number;
      };
      events = s.events ++ record { block = b; checkpoint = b.block_number; on_top = bs } ∷ [];
    }
    else record s { place = reading }

-- The dispatcher is woken by a tap; it reads nothing while the start is awaited.
unfoldable pub woken : System → System
woken s =
    if s.listener.tapped
    then record s {
      listener = record (s.listener) { tapped = false };
      place = if s.listener.waiting_for_from_block then waiting else reading;
      last_from_notification = false;
    }
    else s

-- The next step of the dispatcher; `answer` is the connector's, where it was asked.
unfoldable pub step_at : Place → (ℕ → Got) → System → System
unfolding woken read_head answered attach_fetched dispatch_one
step_at waiting answer s = woken s
step_at reading answer s = read_head s.listener.new_head_to_add s
step_at (fetching n) answer s = answered (answer n) s
step_at (attaching f) answer s = attach_fetched f s.listener.new_head_to_add s
step_at dispatching answer s = dispatch_one s.listener.blocks_since_checkpoint s

-- What happens next: a notification, or a step of the dispatcher, at which the connector would
-- answer `answer n` for the number `n`.
pub data Action : Type 0 where
  notified : BlockInfo → Action
  dispatcher : (ℕ → Got) → Action

unfoldable pub act : Action → System → System
unfolding process_block_notification step_at
act (notified b) s = record s { listener = process_block_notification b s.listener }
act (dispatcher answer) s = step_at s.place answer s

unfoldable pub run : List Action → System → System
unfolding act
run [] s = s
run (a ∷ more) s = run more (act a s)

-- The dispatcher as it is started.
abbrev pub first_place : Bool → Place
first_place true = waiting
first_place false = reading

abbrev pub start : Listener → System
start l = record {
  listener = l;
  place = first_place l.waiting_for_from_block;
  last_from_notification = false;
  events = [];
}
