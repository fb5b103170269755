-- ===== src/Confirmations/Height.antt =====
-- internal/confirmations/confirmations.go, light chain tracking: confirmations counted from the
-- number of the head block, and a receipt that is read again before an item is confirmed.
pub mod Counted
use firefly_transaction_mana.Prelude.{
  ℕ, suc, ◌-◌, String, Bool, true, false, not, Option, none, some, List, [], ◌∷◌, ◌++◌, ◌&&◌, ◌||◌,
  ltb, leb, ◌==◌, str_eq, if◌then◌else◌,
}
use firefly_transaction_mana.Handler.{
  Receipt, ErrorReason, not_found, Error, ConfirmationsNotification,
}
use firefly_transaction_mana.Confirmations.{PendingItem, Effect, notified, removed, check_scheduled}
use firefly_transaction_mana.Confirmations.Dispatch.{capped}

-- What the connector returns for the receipt of a transaction; the receipt may be a nil pointer.
pub data ReceiptAnswer : Type 0 where
  receipt_answer : Option Receipt → ReceiptAnswer
  receipt_error : ErrorReason → Error → ReceiptAnswer

-- The errors of this component, beside those of the connector.
pub data HeightError : Type 0 where
  connector_error : Error → HeightError
  missing_block_hash : HeightError
  block_hash_mismatch : HeightError

-- An item after a step, the calls that were made, and the error, if any.
pub record HeightStep : Type 0 where
  pub item : PendingItem
  pub effects : List Effect
  pub error : Option HeightError

-- What the manager reads besides the item: `same_hash` compares two hashes by `strings.EqualFold`
-- of their lower case forms, and `receipt` is the connector's answer at this time.
pub record HeightToolkit : Type 0 where
  pub now : ℕ
  pub stale_receipt_timeout : ℕ
  pub same_hash : String → String → Bool
  pub receipt : ReceiptAnswer

-- `receiptChecker.schedule`: an item that is queued already is left alone, and so is one that is
-- suspected to be stale but was checked recently.
unfoldable pub schedule : HeightToolkit → Bool → PendingItem → PendingItem × List Effect
schedule tk suspected p =
    if p.queued_stale || (suspected && ltb (tk.now - p.last_receipt_check) tk.stale_receipt_timeout)
    then (p, [])
    else (
      record p {
        receipt_generation = suc p.receipt_generation;
        queued_stale = true;
        scheduled_at_least_once = true;
      },
      check_scheduled ∷ [],
    )

-- The item has to be looked for again.
abbrev pub forget_block : PendingItem → PendingItem
forget_block p = record p { block_hash = ""; block_number = 0; previous_confirmation_count = none }

-- The answer to the check of the receipt: `some` ends the step, `none` goes on.
unfoldable pub validate : HeightToolkit → ReceiptAnswer → PendingItem → Option HeightStep
unfolding schedule
validate tk (receipt_error not_found e) p =
    let (p', es) = schedule tk true (forget_block p) in
    some (record { item = p'; effects = es; error = some (connector_error e) })
validate tk (receipt_error _ e) p =
    some (record { item = p; effects = []; error = some (connector_error e) })
validate tk (receipt_answer none) p =
    some (record { item = p; effects = []; error = some missing_block_hash })
validate tk (receipt_answer (some r)) p =
    if str_eq r.block_hash ""
    then some (record { item = p; effects = []; error = some missing_block_hash })
    else if not (tk.same_hash r.block_hash p.block_hash)
    then some (record {
      item = record p {
        block_hash = r.block_hash;
        block_number = r.block_number;
        previous_confirmation_count = none;
      };
      effects = [];
      error = some block_hash_mismatch;
    })
    else none

abbrev pub is_previous : ℕ → Option ℕ → Bool
is_previous count none = false
is_previous count (some c) = count == c

abbrev pub is_reduced : ℕ → Option ℕ → Bool
is_reduced count none = false
is_reduced count (some c) = ltb count c

abbrev pub ending : Bool → List Effect
ending true = removed ∷ []
ending false = []

unfoldable pub notify_count : ℕ → ℕ → Bool → PendingItem → HeightStep
unfolding capped
notify_count required count confirmed p = record {
  item = record p { previous_confirmation_count = some count };
  effects =
      notified (record {
        confirmed = confirmed;
        new_fork = is_reduced count p.previous_confirmation_count;
        confirmations = [];
        current_confirmation_count = capped count required;
        target_confirmation_count = required;
      })
      ∷ ending confirmed;
  error = none;
}

-- The end of the step, by what the check of the receipt says.
unfoldable pub conclude : ℕ → ℕ → PendingItem → Option HeightStep → HeightStep
unfolding notify_count
conclude required count p (some s) = s
conclude required count p none = notify_count required count true p

unfoldable pub dispatch_block_height_confirmations :
    HeightToolkit → ℕ → ℕ → PendingItem → HeightStep
unfolding capped validate notify_count conclude
dispatch_block_height_confirmations tk required count p =
    if is_previous count p.previous_confirmation_count
    then record { item = p; effects = []; error = none }
    else if capped count required == required
    then conclude required count p (validate tk tk.receipt p)
    else notify_count required count false p

abbrev pub height_above : ℕ → ℕ → ℕ
height_above head block = if ltb block head then head - block else 0

unfoldable pub dispatch_confirmation_using_head_block_number :
    HeightToolkit → ℕ → ℕ → PendingItem → HeightStep
unfolding dispatch_block_height_confirmations
dispatch_confirmation_using_head_block_number tk required head p =
    if str_eq p.block_hash ""
    then record { item = p; effects = []; error = none }
    else dispatch_block_height_confirmations tk required (height_above head p.block_number) p
