-- ===== src/Confirmations/Extend.antt =====
-- internal/confirmations/confirmations.go: what a new block does to an item, in processBlock.
pub mod Chain
use firefly_transaction_mana.Prelude.{
  ℕ, String, Bool, true, false, not, Option, none, some, List, [], ◌∷◌, ◌&&◌, ◌||◌, ltb, leb, ◌==◌,
  length, str_eq, is_some, get_or, if◌then◌else◌,
}
use firefly_transaction_mana.Handler.{Confirmation}
use firefly_transaction_mana.Confirmations.{
  BlockInfo, PendingItem, next_number, confirmation_from_block,
}

-- The block stands at this number, on top of this hash.
unfoldable pub is_on_top : BlockInfo → ℕ → String → Bool
is_on_top b n parent = str_eq b.parent_hash parent && b.block_number == n

abbrev pub keep_first : Confirmation → Option (List Confirmation) → Option (List Confirmation)
keep_first c none = none
keep_first c (some cs) = some (c ∷ cs)

-- The block may stand at any point of the confirmations, which end with it then; `none` is a block
-- that stands on none of them. `n` and `parent` are what is expected of the first one.
unfoldable pub extend : BlockInfo → ℕ → String → List Confirmation → Option (List Confirmation)
unfolding is_on_top
extend b n parent [] = if is_on_top b n parent then some (confirmation_from_block b ∷ []) else none
extend b n parent (c ∷ cs) =
    let rest = extend b (next_number n) c.block_hash cs in
    if is_on_top b n parent then some (confirmation_from_block b ∷ []) else keep_first c rest

-- The item with its new confirmations, and whether it is to be dispatched.
unfoldable pub decide_item : ℕ → PendingItem → Option (List Confirmation) → PendingItem × Bool
decide_item required p found =
    let cs = get_or found p.confirmations in
    let confirmed = p.confirmed || leb required (length cs) in
    (
      record p { confirmations = cs; confirmed = confirmed },
      ltb 0 required && (confirmed || is_some found),
    )

unfoldable pub accept_block : ℕ → BlockInfo → PendingItem → PendingItem × Bool
unfolding extend decide_item
accept_block required b p =
    if str_eq p.block_hash ""
    then (p, false)
    else decide_item required p (extend b (next_number p.block_number) p.block_hash p.confirmations)
