-- ===== src/Confirmations/Walk.antt =====
-- internal/confirmations/confirmations.go: walkChainForItem and walkChain.
pub mod Linked
pub mod Laws
use firefly_transaction_mana.Prelude.{
  ℕ, zero, suc, String, Bool, true, false, not, Option, none, some, List, [], ◌∷◌, ◌++◌, ◌&&◌, ◌||◌,
  ltb, leb, ◌==◌, length, str_eq, if◌then◌else◌,
}
use firefly_transaction_mana.Handler.{Error, Confirmation}
use firefly_transaction_mana.Confirmations.{
  BlockInfo, PendingItem, Effect, next_number, confirmation_from_block,
}
use firefly_transaction_mana.Confirmations.Blocks.{
  Got, got, failed, BlockState, Connector, get_by_number,
}
use firefly_transaction_mana.Confirmations.Dispatch.{is_empty, dispatch_confirmations}
use firefly_transaction_mana.Confirmations.Height.{
  HeightError, connector_error, HeightStep, HeightToolkit,
  dispatch_confirmation_using_head_block_number,
}

-- How the loop ends: with the confirmations that it found, and whether they are enough; or with an
-- error of the connector, and the confirmations up to there.
pub data Walked : Type 0 where
  walked : List Confirmation → Bool → BlockState → Walked
  walk_failed : Error → List Confirmation → BlockState → Walked
  out_of_fuel : Walked

-- The manager's numbers; `light` is the chain tracking mode.
pub record Tracking : Type 0 where
  pub required_confirmations : ℕ
  pub highest_block_seen : ℕ
  pub head_block_number : ℕ
  pub light : Bool

-- The block that was got is the next confirmation if its parent is the block before it; `go` is
-- the rest of the loop, from the next number, the hash of the block, and the confirmations.
unfoldable pub add_block :
    ℕ
    → (List Confirmation → BlockState → Walked)
    → BlockInfo
    → String
    → List Confirmation
    → BlockState
    → Walked
add_block required go b parent cs bs = elim (not (str_eq b.parent_hash parent)) [
  | true ↦ walked cs false bs
  | false ↦ elim (leb required (length (cs ++ confirmation_from_block b ∷ []))) [
    | true ↦ walked (cs ++ confirmation_from_block b ∷ []) true bs
    | false ↦ go (cs ++ confirmation_from_block b ∷ []) bs
  ]
]

unfoldable pub with_block :
    ℕ
    → (String → List Confirmation → BlockState → Walked)
    → String
    → List Confirmation
    → Got × BlockState
    → Walked
unfolding add_block
with_block required go parent cs (failed e, bs) = walk_failed e cs bs
with_block required go parent cs (got none, bs) = walked cs false bs
with_block required go parent cs (got (some b), bs) =
    add_block required (go b.block_hash) b parent cs bs

-- There is no point in walking past the highest block that was notified, if one was.
unfoldable pub is_unseen : Tracking → ℕ → Bool
is_unseen t n = ltb 0 t.highest_block_seen && ltb t.highest_block_seen n

-- The loop, on fuel: each time round it ends or adds one confirmation.
unfoldable pub walk_loop :
    Connector → Tracking → ℕ → ℕ → String → List Confirmation → BlockState → Walked
unfolding with_block is_unseen
walk_loop ask t zero n parent cs bs = out_of_fuel
walk_loop ask t (suc fuel) n parent cs bs = elim (is_unseen t n) [
  | true ↦ walked cs false bs
  | false ↦
      with_block t.required_confirmations (walk_loop ask t fuel (next_number n)) parent cs
        (get_by_number ask n parent bs)
]

-- With no confirmations required, the item is confirmed at once; otherwise the fuel is the number
-- that is required.
unfoldable pub walk_required : Connector → Tracking → ℕ → PendingItem → BlockState → Walked
unfolding walk_loop
walk_required ask t zero p bs = walked [] true bs
walk_required ask t (suc k) p bs =
    walk_loop ask t (suc k) (next_number p.block_number) p.block_hash [] bs

unfoldable pub walk_from : Connector → Tracking → PendingItem → BlockState → Walked
unfolding walk_required
walk_from ask t p bs = walk_required ask t t.required_confirmations p bs

-- The item, the view of the chain, the calls, and the error after a walk; `none` is a walk that ran
-- out of fuel.
pub record ItemStep : Type 0 where
  pub item : PendingItem
  pub blocks : BlockState
  pub effects : List Effect
  pub error : Option HeightError

unfoldable pub notify_walked : ℕ → PendingItem → BlockState → ItemStep
unfolding dispatch_confirmations
notify_walked required p bs =
    if p.confirmed || not (is_empty p.confirmations)
    then (let (p', es) = dispatch_confirmations required p in
        record { item = p'; blocks = bs; effects = es; error = none })
    else record { item = p; blocks = bs; effects = []; error = none }

unfoldable pub after_walk : ℕ → PendingItem → Walked → Option ItemStep
unfolding notify_walked
after_walk required p (walked cs reached bs) = some (
    notify_walked required (record p { confirmations = cs; confirmed = p.confirmed || reached }) bs)
after_walk required p (walk_failed e cs bs) = some (record {
  item = record p { confirmations = cs };
  blocks = bs;
  effects = [];
  error = some (connector_error e);
})
after_walk required p out_of_fuel = none

abbrev pub of_height : BlockState → HeightStep → ItemStep
of_height bs s = record { item = s.item; blocks = bs; effects = s.effects; error = s.error }

unfoldable pub walk_chain_for_item :
    Connector → HeightToolkit → Tracking → PendingItem → BlockState → Option ItemStep
unfolding walk_from after_walk
walk_chain_for_item ask tk t p bs =
    if str_eq p.block_hash ""
    then some (record { item = p; blocks = bs; effects = []; error = none })
    else if t.light
    then some (
        of_height bs (
          dispatch_confirmation_using_head_block_number tk t.required_confirmations
            t.head_block_number p))
    else after_walk t.required_confirmations p (walk_from ask t p bs)
