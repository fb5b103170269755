-- ===== src/Confirmations/Height/Counted.antt =====
-- When an item is notified, confirmed and removed in light chain tracking.
use firefly_transaction_mana.Prelude.{
  ℕ, ◌-◌, ◌≤◌, ◌<◌, ◌≡◌, ◌∙◌, refl, true, false, none, some, List, [], ◌∷◌, ◌⊎◌, inl, inr,
  Bool-cases, ◌==◌, str_eq, arith, if_both,
}
use firefly_transaction_mana.Handler.{Receipt, Error, not_found, ConfirmationsNotification}
use firefly_transaction_mana.Confirmations.{PendingItem, Effect, notified, removed, check_scheduled}
use firefly_transaction_mana.Confirmations.Dispatch.{capped}
use firefly_transaction_mana.Confirmations.Height.{
  ReceiptAnswer, receipt_answer, receipt_error, connector_error, block_hash_mismatch, HeightStep,
  HeightToolkit, schedule, forget_block, validate, notify_count, conclude, is_previous,
  dispatch_block_height_confirmations, height_above, dispatch_confirmation_using_head_block_number,
}

-- What one step does with an item: `head` is the number of the head block.
pub data Counted (tk : HeightToolkit) (required head : ℕ) (p : PendingItem)
    : HeightStep → Type 0 where
  -- The count is as before, or there is no receipt yet.
  unchanged : (s : HeightStep) → s.item ≡ p → s.effects ≡ [] → Counted tk required head p s
  -- Fewer blocks than required stand on top of the item's, and the receiver is told how many.
  counted :
      (s : HeightStep) (n : ConfirmationsNotification)
      → s.effects ≡ notified n ∷ []
      → n.confirmed ≡ false
      → n.current_confirmation_count ≡ head - p.block_number
      → n.current_confirmation_count < required
      → s.error ≡ none
      → Counted tk required head p s
  -- Enough blocks stand on top, and the receipt is still in the block of the item.
  confirmed :
      (s : HeightStep) (n : ConfirmationsNotification) (r : Receipt)
      → s.effects ≡ notified n ∷ removed ∷ []
      → n.confirmed ≡ true
      → n.current_confirmation_count ≡ required
      → required ≤ head - p.block_number
      → tk.receipt ≡ receipt_answer (some r)
      → tk.same_hash r.block_hash p.block_hash ≡ true
      → s.error ≡ none
      → Counted tk required head p s
  -- The receipt is in another block, where the item is looked for from now on.
  moved :
      (s : HeightStep) (r : Receipt)
      → tk.receipt ≡ receipt_answer (some r)
      → tk.same_hash r.block_hash p.block_hash ≡ false
      → s.item.block_hash ≡ r.block_hash
      → s.item.block_number ≡ r.block_number
      → s.effects ≡ []
      → s.error ≡ some block_hash_mismatch
      → Counted tk required head p s
  -- The transaction is gone, and its receipt has to be found again.
  gone :
      (s : HeightStep) (e : Error)
      → tk.receipt ≡ receipt_error not_found e
      → s.item.block_hash ≡ ""
      → s.item.previous_confirmation_count ≡ none
      → (s.effects ≡ []) ⊎ (s.effects ≡ check_scheduled ∷ [])
      → s.error ≡ some (connector_error e)
      → Counted tk required head p s

height_above-minus : (head block : ℕ) → height_above head block ≡ head - block
height_above-minus head block = ground arith

capped-required :
    (count required : ℕ)
    → (capped count required == required) ≡ true
    → (capped count required ≡ required) × (required ≤ count)
unfolding capped
capped-required count required h = ground arith

capped-below :
    (count required : ℕ)
    → (capped count required == required) ≡ false
    → (capped count required ≡ count) × (count < required)
unfolding capped
capped-below count required h = ground arith

schedule-gone :
    (tk : HeightToolkit) (p : PendingItem)
    → p.block_hash ≡ ""
    → p.previous_confirmation_count ≡ none
    → ((schedule tk true p).0.block_hash ≡ "")
      × ((schedule tk true p).0.previous_confirmation_count ≡ none)
      × (((schedule tk true p).1 ≡ []) ⊎ ((schedule tk true p).1 ≡ check_scheduled ∷ []))
unfolding schedule
schedule-gone tk p b c =
    if_both
      (λ (x : PendingItem × List Effect).
        (x.0.block_hash ≡ "")
        × (x.0.previous_confirmation_count ≡ none)
        × ((x.1 ≡ []) ⊎ (x.1 ≡ check_scheduled ∷ [])))
      _ _ _ (λ _. (b, c, inl refl)) (λ _. (b, c, inr refl))

module _ (tk : HeightToolkit) (required head : ℕ) (p : PendingItem) where
  concluded :
      (count : ℕ) (a : ReceiptAnswer)
      → tk.receipt ≡ a
      → count ≡ head - p.block_number
      → (capped count required ≡ required) × (required ≤ count)
      → Counted tk required head p (conclude required count p (validate tk a p))
  unfolding validate conclude notify_count
  concluded count (receipt_error not_found e) h c k =
      let g = schedule-gone tk (forget_block p) refl refl in gone _ e h g.0 g.1 g.2 refl
  concluded count (receipt_error _ e) h c k = unchanged _ refl refl
  concluded count (receipt_answer none) h c k = unchanged _ refl refl
  concluded count (receipt_answer (some r)) h c k = elim (Bool-cases (str_eq r.block_hash "")) [
    | inl e ↦ rw e (unchanged _ refl refl)
    | inr e ↦ rw e (elim (Bool-cases (tk.same_hash r.block_hash p.block_hash)) [
      | inl f ↦ rw f (confirmed _ _ r refl refl k.0 (omega (arith, k.1, c)) h f refl)
      | inr f ↦ rw f (moved _ r h f refl refl refl refl)
    ])
  ]

  dispatch_block_height-Counted :
      (count : ℕ)
      → count ≡ head - p.block_number
      → Counted tk required head p (dispatch_block_height_confirmations tk required count p)
  unfolding dispatch_block_height_confirmations notify_count
  dispatch_block_height-Counted count c =
      if_both (Counted tk required head p) (is_previous count p.previous_confirmation_count) _ _
        (λ _. unchanged _ refl refl)
        (λ _.
          if_both (Counted tk required head p) (capped count required == required) _ _
            (λ e. concluded count tk.receipt refl c (capped-required count required e))
            (λ e.
              let k = capped-below count required e in
              counted _ _ refl refl (k.0 ∙ c) (omega (arith, k.0, k.1)) refl))

  -- A step over an item either leaves it alone, or tells how many blocks stand on top of it, fewer
  -- than required; or it confirms the item and removes it, once at least the required number of
  -- blocks stand on top and the connector has just returned a receipt from the item's block; or it
  -- follows the receipt into another block, or forgets the block of a receipt that is gone.
  pub dispatch_confirmation-Counted :
      Counted tk required head p (dispatch_confirmation_using_head_block_number tk required head p)
  unfolding dispatch_confirmation_using_head_block_number
  dispatch_confirmation-Counted =
      if_both (Counted tk required head p) (str_eq p.block_hash "") _ _ (λ _. unchanged _ refl refl)
        (λ _.
          dispatch_block_height-Counted (height_above head p.block_number)
            (height_above-minus head p.block_number))
