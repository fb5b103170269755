-- ===== src/Confirmations/Receipts.antt =====
-- internal/confirmations/confirmations.go: dispatchReceipt.
pub mod Generations
use firefly_transaction_mana.Prelude.{
  ℕ, Bool, true, false, Option, none, some, List, [], ◌∷◌, ◌++◌, ◌&&◌, ltb, leb, if◌then◌else◌,
}
use firefly_transaction_mana.Handler.{Receipt}
use firefly_transaction_mana.Confirmations.{PendingItem, Effect, receipt_notified}
use firefly_transaction_mana.Confirmations.Blocks.{BlockState, Connector}
use firefly_transaction_mana.Confirmations.Height.{HeightToolkit}
use firefly_transaction_mana.Confirmations.Walk.{Tracking, ItemStep, walk_chain_for_item}

-- A receipt that was asked for before the last one that was applied. Generation 0 is a receipt
-- without a generation.
unfoldable pub is_stale_receipt : ℕ → PendingItem → Bool
is_stale_receipt generation p = ltb 0 generation && leb generation p.applied_receipt_generation

unfoldable pub apply_receipt : Receipt → ℕ → PendingItem → PendingItem
apply_receipt r generation p = record p {
  applied_receipt_generation =
      if ltb 0 generation then generation else p.applied_receipt_generation;
  block_number = r.block_number;
  block_hash = r.block_hash;
}

abbrev pub receipt_call : Receipt → Bool → List Effect
receipt_call r true = receipt_notified r ∷ []
receipt_call r false = []

abbrev pub after_call : List Effect → Option ItemStep → Option ItemStep
after_call es none = none
after_call es (some s) = some (record s { effects = es ++ s.effects; error = none })

-- The error of the walk is only logged.
unfoldable pub dispatch_receipt :
    Connector → HeightToolkit → Tracking → Receipt → ℕ → PendingItem → BlockState → Option ItemStep
unfolding is_stale_receipt apply_receipt walk_chain_for_item
dispatch_receipt ask tk t r generation p bs =
    if is_stale_receipt generation p
    then some (record { item = p; blocks = bs; effects = []; error = none })
    else after_call (receipt_call r p.has_receipt_callback)
        (walk_chain_for_item ask tk t (apply_receipt r generation p) bs)
