-- ===== src/Confirmations/Extend/Chain.antt =====
-- A new block keeps the confirmations of an item a chain.
use firefly_transaction_mana.Prelude.{
  ℕ, String, ◌≡◌, Bool, false, Option, none, some, List, [], ◌∷◌, ◌⊎◌, ltb, leb, ◌&&◌, ◌||◌, length,
}
use firefly_transaction_mana.Handler.{Confirmation}
use firefly_transaction_mana.Confirmations.{BlockInfo, PendingItem, confirmation_from_block}
use firefly_transaction_mana.Confirmations.Walk.Linked.{Linked}

-- The first of the confirmations, and then the block, which stands on top of them.
pub data EndsWith (b : BlockInfo) : List Confirmation → List Confirmation → Type 0 where
  ends_here : {cs : List Confirmation} → EndsWith b cs (confirmation_from_block b ∷ [])
  ends_later :
      {c : Confirmation} {cs ds : List Confirmation}
      → EndsWith b cs ds
      → EndsWith b (c ∷ cs) (c ∷ ds)

-- A chain that ends with the block, or no chain.
abbrev pub Extended : BlockInfo → String → List Confirmation → Option (List Confirmation) → Type 0
Extended b parent cs none = Unit {0}
Extended b parent cs (some ds) = EndsWith b cs ds × Linked parent ds

-- What a block does to an item that has one: its confirmations stay as they are, or are cut where
-- the block stands on top of them and end with it; they stay a chain; and the item is confirmed
-- once they are as many as required.
pub record Accepted (required : ℕ) (b : BlockInfo) (p : PendingItem) (x : PendingItem × Bool)
    : Type 0 where
  pub linked : Linked p.block_hash x.0.confirmations
  pub shape :
      (x.0.confirmations ≡ p.confirmations)
      ⊎ (EndsWith b p.confirmations x.0.confirmations × (x.1 ≡ ltb 0 required))
  pub once_required : x.0.confirmed ≡ (p.confirmed || leb required (length x.0.confirmations))
  pub dispatched : x.1 ≡ false → (x.0.confirmed && ltb 0 required) ≡ false
