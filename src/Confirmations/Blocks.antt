-- ===== src/Confirmations/Blocks.antt =====
-- The view of the chain that one round of the listener has: blockState and getByNumber of
-- internal/confirmations/confirmations.go.
pub mod Consistent
use firefly_transaction_mana.Prelude.{
  ℕ, suc, String, Bool, true, false, Option, none, some, List, [], ◌∷◌, ◌&&◌, ◌||◌, ltb, leb, ◌==◌,
  if◌then◌else◌,
}
use firefly_transaction_mana.Handler.{ErrorReason, not_found, Error}
use firefly_transaction_mana.Confirmations.{BlockInfo}

-- What the connector returns for a block.
pub data BlockAnswer : Type 0 where
  block_answer : BlockInfo → BlockAnswer
  block_error : ErrorReason → Error → BlockAnswer

-- A block, or none, or an error.
pub data Got : Type 0 where
  got : Option BlockInfo → Got
  failed : Error → Got

-- `getBlockByNumber` and `getBlockByHash`: an error of the kind "not found" is no block.
unfoldable pub get_block : BlockAnswer → Got
get_block (block_answer b) = got (some b)
get_block (block_error not_found e) = got none
get_block (block_error _ e) = failed e

-- The blocks are keyed by the number that was asked for. `calls` counts the queries so far: the
-- connector may answer the same query differently at a later time.
pub record BlockState : Type 0 where
  pub blocks : List (ℕ × BlockInfo)
  pub lowest_nil : ℕ
  pub calls : ℕ

abbrev pub new_block_state : ℕ → BlockState
new_block_state calls = record { blocks = []; lowest_nil = 0; calls = calls }

unfoldable pub find_block : ℕ → List (ℕ × BlockInfo) → Option BlockInfo
find_block n [] = none
find_block n ((m, b) ∷ bs) = if m == n then some b else find_block n bs

unfoldable pub is_past_head : ℕ → BlockState → Bool
is_past_head n bs = ltb 0 bs.lowest_nil && leb bs.lowest_nil n

-- The view after the connector was asked.
unfoldable pub fetched : ℕ → Got → BlockState → Got × BlockState
fetched n (failed e) bs = (failed e, bs)
fetched n (got none) bs = (
  got none,
  if bs.lowest_nil == 0 || leb n bs.lowest_nil then record bs { lowest_nil = n } else bs,
)
fetched n (got (some b)) bs = (got (some b), record bs { blocks = (n, b) ∷ bs.blocks })

-- The connector's answer to a query, by how many there were before it, the number and the parent
-- hash that is expected.
abbrev pub Connector : Type 0
Connector = ℕ → ℕ → String → BlockAnswer

unfoldable pub get_uncached : Connector → ℕ → String → BlockState → Got × BlockState
unfolding get_block fetched
get_uncached ask n parent bs =
    fetched n (get_block (ask bs.calls n parent)) (record bs { calls = suc bs.calls })

unfoldable pub get_cached :
    Connector → ℕ → String → Option BlockInfo → BlockState → Got × BlockState
unfolding get_uncached
get_cached ask n parent (some b) bs = (got (some b), bs)
get_cached ask n parent none bs = get_uncached ask n parent bs

unfoldable pub get_by_number : Connector → ℕ → String → BlockState → Got × BlockState
unfolding is_past_head find_block get_cached
get_by_number ask n parent bs =
    if is_past_head n bs
    then (got none, bs)
    else get_cached ask n parent (find_block n bs.blocks) bs
