-- ===== src/Confirmations/Manager.antt =====
-- internal/confirmations/confirmations.go: the manager's state, its pending items, and the calls
-- that change them. A pointer to an item is an index into the heap of items, since a receipt that
-- arrives names its item by a pointer, whether the item is pending still or not.
pub mod Keys
pub mod Ready
use firefly_transaction_mana.Prelude.{
  ℕ, suc, ◌-◌, String, Bool, true, false, not, Option, none, some, List, [], ◌∷◌, ◌++◌, ◌&&◌, ◌||◌,
  ltb, ◌==◌, str_eq, if◌then◌else◌,
}
use firefly_transaction_mana.Handler.{Receipt}
use firefly_transaction_mana.Confirmations.{
  PendingType, event_item, transaction_item, PendingItem, Key, event_key, transaction_key, get_key,
  Effect, receipt_notified, notified, removed, check_scheduled, BlockInfo,
}
use firefly_transaction_mana.Confirmations.Blocks.{BlockAnswer, BlockState, Connector}
use firefly_transaction_mana.Confirmations.Height.{HeightToolkit, HeightError, schedule}
use firefly_transaction_mana.Confirmations.Walk.{Tracking, ItemStep}

-- `entries` is the queue of the receipt checker, `pending` the map in the order of a walk over it,
-- and `performed` the calls that were made for an item, oldest first.
pub record Manager : Type 0 where
  pub heap : ℕ → PendingItem
  pub panicked : Bool
  pub next_item : ℕ
  pub pending : List (Key × ℕ)
  pub entries : List ℕ
  pub tracking : Tracking
  pub block_listener_stale : Bool
  pub fetch_receipt_upon_entry : Bool
  pub steps : ℕ
  pub performed : List (ℕ × Effect)

-- What stands outside the manager: the connector, by how many steps were made before the call;
-- the sort of the Go library, which takes `Less`; and the comparison of listener IDs.
pub record ManagerToolkit : Type 0 where
  pub block_by_hash : ℕ → String → BlockAnswer
  pub block_by_number : ℕ → Connector
  pub height : ℕ → HeightToolkit
  pub sort : (PendingItem → PendingItem → Bool) → List (ℕ × PendingItem) → List (ℕ × PendingItem)
  pub same_listener : Option String → Option String → Bool

-- `pendingItems.Less`
unfoldable pub less : PendingItem → PendingItem → Bool
less a b =
    ltb a.block_number b.block_number
    || a.block_number == b.block_number
      && (ltb a.transaction_index b.transaction_index
          || a.transaction_index == b.transaction_index && ltb a.log_index b.log_index)

abbrev pub same_text : Option String → Option String → Bool
same_text none none = true
same_text (some a) (some b) = str_eq a b
same_text _ _ = false

abbrev pub key_eq : Key → Key → Bool
key_eq (event_key a b c l t h) (event_key a' b' c' l' t' h') =
    a == a' && b == b' && c == c' && same_text l l' && str_eq t t' && str_eq h h'
key_eq (transaction_key t) (transaction_key t') = str_eq t t'
key_eq _ _ = false

unfoldable pub find_key : Key → List (Key × ℕ) → Option ℕ
find_key k [] = none
find_key k ((k', i) ∷ ps) = if key_eq k k' then some i else find_key k ps

unfoldable pub delete_key : Key → List (Key × ℕ) → List (Key × ℕ)
delete_key k [] = []
delete_key k ((k', i) ∷ ps) =
    let rest = delete_key k ps in if key_eq k k' then rest else (k', i) ∷ rest

abbrev pub put_key : Key → ℕ → List (Key × ℕ) → List (Key × ℕ)
put_key k i ps = delete_key k ps ++ (k, i) ∷ []

abbrev pub set_item : ℕ → PendingItem → Manager → Manager
set_item i p m = record m { heap = λ j. if j == i then p else m.heap j }

unfoldable pub without : ℕ → List ℕ → List ℕ
without i [] = []
without i (j ∷ js) = let rest = without i js in if i == j then rest else j ∷ rest

-- `receiptChecker.remove`: the item keeps its mark that it is queued.
unfoldable pub unqueue : ℕ → PendingItem → List ℕ → List ℕ
unfolding without
unqueue i p entries = if p.queued_stale then without i entries else entries

abbrev pub unqueue_transaction : PendingType → ℕ → PendingItem → List ℕ → List ℕ
unqueue_transaction event_item i p entries = entries
unqueue_transaction transaction_item i p entries = unqueue i p entries

-- `removeItem`: by the key that `p` has now.
unfoldable pub remove_item : ℕ → PendingItem → Manager → Manager
unfolding unqueue
remove_item i p m = record m {
  pending = delete_key (get_key p) m.pending;
  entries = unqueue_transaction p.p_type i p m.entries;
}

-- `addOrReplaceItem` for an item that is made for it.
unfoldable pub add_or_replace_item : PendingItem → Manager → Manager
add_or_replace_item p m =
    let p' = record p { confirmations = [] } in
    record (set_item m.next_item p' m) {
      next_item = suc m.next_item;
      pending = put_key (get_key p') m.next_item m.pending;
    }

abbrev pub perform_one : ℕ → PendingItem → Effect → Manager → Manager
perform_one i p removed m = remove_item i p m
perform_one i p (notified _) m = record m {
  panicked = m.panicked || not p.has_confirmations_callback;
}
perform_one i p check_scheduled m = record m { entries = m.entries ++ i ∷ [] }
perform_one i p _ m = m

-- The calls that a step of the item `i`, now `p`, has made.
unfoldable pub perform : ℕ → PendingItem → List Effect → Manager → Manager
unfolding remove_item
perform i p [] m = m
perform i p (e ∷ es) m =
    perform i p es (perform_one i p e (record m { performed = m.performed ++ (i, e) ∷ [] }))

abbrev pub after_step : ℕ → PendingItem → List Effect → Manager → Manager
after_step i p es m = perform i p es (record (set_item i p m) { steps = suc m.steps })

-- `receiptChecker.schedule` for a pending item.
unfoldable pub schedule_item : ManagerToolkit → Bool → ℕ → Manager → Manager
unfolding perform schedule
schedule_item tk suspected i m =
    let (p, es) = schedule (tk.height m.steps) suspected (m.heap i) in after_step i p es m

-- `listenerRemoved`, up to the close of its channel.
unfoldable pub drop_listener :
    ManagerToolkit → Option String → (ℕ → PendingItem) → List (Key × ℕ) → List (Key × ℕ)
drop_listener tk l heap [] = []
drop_listener tk l heap ((k, i) ∷ ps) =
    let rest = drop_listener tk l heap ps in
    if tk.same_listener l (heap i).listener_id then rest else (k, i) ∷ rest

unfoldable pub listener_removed : ManagerToolkit → Option String → Manager → Manager
unfolding drop_listener
listener_removed tk l m = record m { pending = drop_listener tk l m.heap m.pending }

unfoldable pub check_in_flight :
    ManagerToolkit → Option String → (ℕ → PendingItem) → List (Key × ℕ) → Bool
check_in_flight tk l heap [] = false
check_in_flight tk l heap ((k, i) ∷ ps) =
    tk.same_listener l (heap i).listener_id || check_in_flight tk l heap ps

-- The pending items with their pointers.
abbrev pub items_of : (ℕ → PendingItem) → List (Key × ℕ) → List (ℕ × PendingItem)
items_of heap [] = []
items_of heap ((k, i) ∷ ps) = (i, heap i) ∷ items_of heap ps

-- When an item of `scheduleReceiptChecks` is put into the queue, and whether as a suspected timeout.
unfoldable pub is_due : HeightToolkit → Bool → Bool → PendingItem → Option Bool
is_due tk unreceipted light p =
    if unreceipted && not p.scheduled_at_least_once
    then some false
    else if unreceipted && light && str_eq p.block_hash ""
    then some false
    else if ltb tk.stale_receipt_timeout (tk.now - p.last_receipt_check)
    then some true
    else none

abbrev pub schedule_due : ManagerToolkit → ℕ → Option Bool → Manager → Manager
schedule_due tk i none m = m
schedule_due tk i (some suspected) m = schedule_item tk suspected i m

abbrev pub schedule_transaction : ManagerToolkit → Bool → ℕ → PendingType → Manager → Manager
schedule_transaction tk unreceipted i event_item m = m
schedule_transaction tk unreceipted i transaction_item m =
    schedule_due tk i (is_due (tk.height m.steps) unreceipted m.tracking.light (m.heap i)) m

abbrev pub schedule_each : ManagerToolkit → Bool → List (Key × ℕ) → Manager → Manager
schedule_each tk unreceipted [] m = m
schedule_each tk unreceipted ((k, i) ∷ ps) m =
    schedule_each tk unreceipted ps (schedule_transaction tk unreceipted i (m.heap i).p_type m)

unfoldable pub schedule_receipt_checks : ManagerToolkit → Bool → Manager → Manager
unfolding schedule_item is_due
schedule_receipt_checks tk unreceipted m = schedule_each tk unreceipted m.pending m
