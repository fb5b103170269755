-- ===== src/Confirmations/Rounds.antt =====
-- internal/confirmations/confirmations.go: what the listener does with new blocks, in both modes,
-- and one round of its loop.
use firefly_transaction_mana.Prelude.{
  ℕ, suc, String, Bool, true, false, not, Option, none, some, List, [], ◌∷◌, ◌++◌, ◌&&◌, ◌||◌, ltb,
  str_eq, if◌then◌else◌,
}
use firefly_transaction_mana.Confirmations.{PendingItem, Key, transaction_key, BlockInfo}
use firefly_transaction_mana.Confirmations.Blocks.{BlockState, new_block_state, Got, got, get_block}
use firefly_transaction_mana.Confirmations.Height.{dispatch_confirmation_using_head_block_number}
use firefly_transaction_mana.Confirmations.Dispatch.{is_empty, dispatch_confirmations}
use firefly_transaction_mana.Confirmations.Extend.{accept_block}
use firefly_transaction_mana.Confirmations.Manager.{
  Manager, ManagerToolkit, less, find_key, set_item, items_of, schedule_item, after_step,
  listener_removed, schedule_receipt_checks,
}
use firefly_transaction_mana.Confirmations.Listener.{
  NotificationType, listener_removed_type, Notification, Round, walk_item, Processed,
  process_notifications, RemovedListenerInfo,
}

-- A transaction of the block that is pending, and not known to be in it, has its receipt checked.
unfoldable pub detect_transaction : ManagerToolkit → BlockInfo → Option ℕ → Manager → Manager
unfolding schedule_item
detect_transaction tk b none m = m
detect_transaction tk b (some i) m =
    if not (str_eq (m.heap i).block_hash b.block_hash) then schedule_item tk false i m else m

unfoldable pub detect_transactions : ManagerToolkit → BlockInfo → List String → Manager → Manager
unfolding detect_transaction find_key
detect_transactions tk b [] m = m
detect_transactions tk b (h ∷ hs) m =
    detect_transactions tk b hs (detect_transaction tk b (find_key (transaction_key h) m.pending) m)

-- The items that the block has changed, in the order of the map, with the manager after it.
abbrev pub accepted : ℕ → PendingItem × Bool → List (ℕ × PendingItem) → List (ℕ × PendingItem)
accepted i (p, true) rest = (i, p) ∷ rest
accepted i (p, false) rest = rest

unfoldable pub accept_block_all :
    BlockInfo → List (Key × ℕ) → Manager → List (ℕ × PendingItem) × Manager
unfolding accept_block
accept_block_all b [] m = ([], m)
accept_block_all b ((k, i) ∷ ps) m =
    let x = accept_block m.tracking.required_confirmations b (m.heap i) in
    let (rest, m') = accept_block_all b ps (set_item i x.0 m) in (accepted i x rest, m')

unfoldable pub dispatch_each : List (ℕ × PendingItem) → Manager → Manager
unfolding dispatch_confirmations
dispatch_each [] m = m
dispatch_each ((i, _) ∷ items) m =
    let (p, es) = dispatch_confirmations m.tracking.required_confirmations (m.heap i) in
    dispatch_each items (after_step i p es m)

unfoldable pub process_block : ManagerToolkit → BlockInfo → Manager → Manager
unfolding detect_transactions accept_block_all dispatch_each
process_block tk b m =
    let m1 = detect_transactions tk b b.transaction_hashes m in
    let (items, m2) = accept_block_all b m1.pending m1 in dispatch_each (tk.sort less items) m2

abbrev pub see_block : BlockInfo → Manager → Manager
see_block b m =
    if ltb m.tracking.highest_block_seen b.block_number
    then record m { tracking = record (m.tracking) { highest_block_seen = b.block_number } }
    else m

-- A block that cannot be read is skipped.
unfoldable pub process_got : ManagerToolkit → Got → Manager → Manager
unfolding process_block
process_got tk (got (some b)) m = see_block b (process_block tk b m)
process_got tk _ m = m

unfoldable pub process_full : ManagerToolkit → List String → Manager → Manager
unfolding process_got get_block
process_full tk [] m = m
process_full tk (h ∷ hs) m =
    process_full tk hs
      (process_got tk (get_block (tk.block_by_hash m.steps h)) (record m { steps = suc m.steps }))

-- `checkAndDispatchConfirmationsUsingBlockHeight`, for the items in their order. An error of an
-- item is only logged.
unfoldable pub check_each : ManagerToolkit → ℕ → List (ℕ × PendingItem) → Manager → Manager
unfolding dispatch_confirmation_using_head_block_number
check_each tk head [] m = m
check_each tk head ((i, _) ∷ items) m =
    let s =
      dispatch_confirmation_using_head_block_number (tk.height m.steps)
        m.tracking.required_confirmations head (m.heap i) in
    check_each tk head items (after_step i s.item s.effects m)

unfoldable pub process_block_hashes : ManagerToolkit → List String → Bool → Manager → Manager
unfolding process_full check_each
process_block_hashes tk hashes new_block_event m =
    if m.tracking.light
    then if new_block_event
      then check_each tk m.tracking.head_block_number (tk.sort less (items_of m.heap m.pending)) m
      else m
    else process_full tk hashes m

-- `walkChain`: in the order of the chain, up to the first failure.
unfoldable pub walk_each : ManagerToolkit → List (ℕ × PendingItem) → Round → Option Round
unfolding walk_item
walk_each tk [] r = some r
walk_each tk ((i, _) ∷ items) r = elim (walk_item tk i r.blocks r.manager) [
  | none ↦ none
  | some r' ↦ elim r'.failed [ true ↦ some r' | false ↦ walk_each tk items r' ]
]

unfoldable pub walk_chain : ManagerToolkit → BlockState → Manager → Option Round
unfolding walk_each
walk_chain tk bs m =
    walk_each tk (tk.sort less (items_of m.heap m.pending))
      (record { manager = m; blocks = bs; failed = false })

-- The variables of `confirmationsListener`.
pub record Listener : Type 0 where
  pub manager : Manager
  pub notifications : List Notification
  pub block_hashes : List String
  pub received_first_block : Bool

-- ffcapi.BlockHashEvent
pub record BlockHashEvent : Type 0 where
  pub block_hashes : List String
  pub gap_potential : Bool
  pub head_block_number : ℕ

-- What the loop is woken by; its channel is open while it runs.
pub data Trigger : Type 0 where
  new_block_hashes : BlockHashEvent → Trigger
  notification : Notification → Trigger

abbrev pub is_new_block : Trigger → Bool
is_new_block (new_block_hashes _) = true
is_new_block (notification _) = false

abbrev pub remove_listener_of :
    ManagerToolkit → Option RemovedListenerInfo → Listener → Option Listener
remove_listener_of tk none l = none
remove_listener_of tk (some r) l =
    some (record l { manager = listener_removed tk r.listener_id l.manager })

-- A removed listener is handled at once, and other notifications wait for the end of the round.
abbrev pub take_notification :
    ManagerToolkit → NotificationType → Notification → Listener → Option Listener
take_notification tk listener_removed_type n l = remove_listener_of tk n.removed_listener l
take_notification tk _ n l = some (record l { notifications = l.notifications ++ n ∷ [] })

unfoldable pub take_trigger : ManagerToolkit → Trigger → Listener → Option Listener
unfolding listener_removed
take_trigger tk (new_block_hashes e) l = some (record l {
  block_hashes = l.block_hashes ++ e.block_hashes;
  manager = record (l.manager) {
    block_listener_stale = l.manager.block_listener_stale || e.gap_potential;
    tracking = record (l.manager.tracking) { head_block_number = e.head_block_number };
  };
})
take_trigger tk (notification n) l = take_notification tk n.notification_type n l

-- A stale listener walks the chain in full mode, and stays stale if that fails.
unfoldable pub restore : ManagerToolkit → BlockState → Manager → Option Round
unfolding walk_chain
restore tk bs m =
    if m.block_listener_stale && not m.tracking.light
    then walk_chain tk bs m
    else some (record { manager = m; blocks = bs; failed = false })

abbrev pub finish_round : ManagerToolkit → Bool → Bool → Listener → Processed → Listener
finish_round tk new_block had_blocks l p = elim p.round.failed [
  | true ↦ record l { manager = p.round.manager; notifications = p.left }
  | false ↦ record l {
    manager =
        schedule_receipt_checks tk
          (not l.received_first_block && had_blocks || p.round.manager.tracking.light && new_block)
          p.round.manager;
    notifications = p.left;
    received_first_block = l.received_first_block || had_blocks;
  }
]

unfoldable pub work : ManagerToolkit → Bool → Listener → Round → Option Listener
unfolding process_block_hashes process_notifications schedule_receipt_checks
work tk new_block l r =
    let had_blocks = not (is_empty l.block_hashes) in
    let m =
      process_block_hashes tk l.block_hashes new_block
        (record (r.manager) { block_listener_stale = false }) in
    if m.panicked
    then none
    else elim (process_notifications tk l.notifications
        (record { manager = m; blocks = r.blocks; failed = false })) [
          | none ↦ none
          | some p ↦ some (finish_round tk new_block had_blocks (record l { block_hashes = [] }) p)
        ]

-- One round of the loop; `none` is a panic or a walk that ran out of fuel.
unfoldable pub listener_round : ManagerToolkit → Trigger → Listener → Option Listener
unfolding take_trigger restore work
listener_round tk t l = elim (take_trigger tk t l) [
  | none ↦ none
  | some l1 ↦ elim (restore tk (new_block_state 0) l1.manager) [
    | none ↦ none
    | some r ↦ elim r.failed [
      | true ↦ some (record l1 { manager = r.manager })
      | false ↦ work tk (is_new_block t) l1 r
    ]
  ]
]
