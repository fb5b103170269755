-- ===== src/ConfirmedBlocks/Examples.antt =====
-- Runs of a confirmed block listener.
use firefly_transaction_mana.Prelude.{
  ℕ, String, ◌≡◌, refl, none, some, List, [], ◌∷◌, str_eq, arith, if◌then◌else◌,
}
use firefly_transaction_mana.Confirmations.{BlockInfo, next_number}
use firefly_transaction_mana.Confirmations.Blocks.{Got, got}
use firefly_transaction_mana.ConfirmedBlocks.{started_at}
use firefly_transaction_mana.ConfirmedBlocks.Dispatcher.{
  Action, notified, dispatcher, start, run, number_to_fetch,
}
use firefly_transaction_mana.ConfirmedBlocks.Whole.{InOrder, ActionOnChain}
use firefly_transaction_mana.ConfirmedBlocks.Laws.{run-InOrder, notified_skips}

abbrev block8 : BlockInfo
block8 = record { block_number = 8; block_hash = "h8"; parent_hash = "h7"; transaction_hashes = [] }

abbrev block9 : BlockInfo
block9 = record { block_number = 9; block_hash = "h9"; parent_hash = "h8"; transaction_hashes = [] }

-- A block on another fork.
abbrev fork9 : BlockInfo
fork9 = record { block_number = 9; block_hash = "f9"; parent_hash = "h8"; transaction_hashes = [] }

abbrev depth : String → ℕ
depth h = if str_eq h "h7" then 8 else if str_eq h "h8" then 9 else 10

abbrev nothing : ℕ → Got
nothing n = got none

abbrev actions : List Action
actions =
    notified block8
    ∷ dispatcher nothing
    ∷ dispatcher nothing
    ∷ notified block9
    ∷ notified fork9
    ∷ dispatcher nothing
    ∷ dispatcher nothing
    ∷ dispatcher nothing
    ∷ dispatcher nothing
    ∷ []

never : (depth' : String → ℕ) → ActionOnChain depth' (dispatcher nothing)
never depth' n b e = absurd cc

run-InOrder_example :
    InOrder depth 1
      (some 7)
      (run actions (start (started_at 1 (some 7) (some 5)))).events
      (run actions (start (started_at 1 (some 7) (some 5)))).listener.rolling_checkpoint
run-InOrder_example =
    run-InOrder depth 1 (some 7) (some 5) actions (omega arith, omega arith)
      (
        (refl, refl, omega arith),
        (
          never depth,
          (
            never depth,
            (
              (refl, refl, omega arith),
              (
                (refl, refl, omega arith),
                (never depth, (never depth, (never depth, (never depth, tt)))),
              ),
            ),
          ),
        ),
      )

notified_skips_example :
    number_to_fetch
      (run
        (notified block8 ∷ dispatcher nothing ∷ [])
        (start (started_at 1 none (some 2)))).listener
    ≡ next_number 8
notified_skips_example = notified_skips 1 2 block8 nothing (omega arith)
