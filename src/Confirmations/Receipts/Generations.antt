-- ===== src/Confirmations/Receipts/Generations.antt =====
-- Receipts are applied in the order in which they were asked for.
use firefly_transaction_mana.Prelude.{
  ℕ, ◌<◌, ◌≡◌, refl, Bool, true, Option, none, some, List, [], ◌∷◌, inl, inr, Bool-cases, ◌==◌,
  ◌||◌, str_eq, if◌then◌else◌, if_both,
}
use firefly_transaction_mana.Handler.{Receipt, not_found}
use firefly_transaction_mana.Confirmations.{PendingItem, Effect}
use firefly_transaction_mana.Confirmations.Blocks.{BlockState, Connector}
use firefly_transaction_mana.Confirmations.Dispatch.{
  capped, notify_new, notify_if_new, dispatch_confirmations,
}
use firefly_transaction_mana.Confirmations.Height.{
  HeightToolkit, HeightStep, ReceiptAnswer, receipt_answer, receipt_error, schedule, forget_block,
  validate, notify_count, conclude, is_previous, dispatch_block_height_confirmations,
  dispatch_confirmation_using_head_block_number, height_above,
}
use firefly_transaction_mana.Confirmations.Walk.{
  Tracking, Walked, walked, walk_failed, out_of_fuel, walk_from, notify_walked, after_walk,
  ItemStep, walk_chain_for_item,
}
use firefly_transaction_mana.Confirmations.Walk.Laws.{Good, walk_from-Good}
use firefly_transaction_mana.Confirmations.Receipts.{
  is_stale_receipt, apply_receipt, receipt_call, after_call, dispatch_receipt,
}

-- The generation of the receipt that an item has applied last, and whether it has a callback for
-- confirmations.
abbrev pub At : ℕ × Bool → PendingItem → Type 0
At g p = (p.applied_receipt_generation ≡ g.0) × (p.has_confirmations_callback ≡ g.1)

abbrev pub AtStep : ℕ × Bool → Option ItemStep → Type 0
AtStep g none = ⊥
AtStep g (some s) = At g s.item

record AtHeight (g : ℕ × Bool) (s : HeightStep) : Type 0 where
  at_item : At g s.item

module _ (g : ℕ × Bool) where
  At-dispatch_confirmations :
      (required : ℕ) (p : PendingItem) → At g p → At g (dispatch_confirmations required p).0
  unfolding dispatch_confirmations notify_if_new notify_new
  At-dispatch_confirmations required p h =
      if_both (λ (x : PendingItem × List Effect). At g x.0) _ _ _ (λ _. h) (λ _. h)

  At-after_walk :
      (required : ℕ) (p : PendingItem) (w : Walked)
      → At g p
      → Good required p.block_hash w
      → AtStep g (after_walk required p w)
  unfolding after_walk notify_walked
  At-after_walk required p (walked cs reached bs) h k =
      if_both (λ (x : ItemStep). At g x.item) _ _ _
        (λ _.
          At-dispatch_confirmations required
            (record p { confirmations = cs; confirmed = p.confirmed || reached }) h)
        (λ _. h)
  At-after_walk required p (walk_failed e cs bs) h k = h
  At-after_walk required p out_of_fuel h k = elim k [ ]

  pub At-schedule :
      (tk : HeightToolkit) (b : Bool) (p : PendingItem) → At g p → At g (schedule tk b p).0
  unfolding schedule
  At-schedule tk b p h =
      if_both (λ (x : PendingItem × List Effect). At g x.0) _ _ _ (λ _. h) (λ _. h)

  At-conclude :
      (tk : HeightToolkit) (required count : ℕ) (p : PendingItem) (a : ReceiptAnswer)
      → At g p
      → At g (conclude required count p (validate tk a p)).item
  unfolding conclude validate notify_count
  At-conclude tk required count p (receipt_error not_found e) h =
      At-schedule tk true (forget_block p) h
  At-conclude tk required count p (receipt_error _ e) h = h
  At-conclude tk required count p (receipt_answer none) h = h
  At-conclude tk required count p (receipt_answer (some r)) h =
      elim (Bool-cases (str_eq r.block_hash "")) [
        | inl e ↦ rw e h
        | inr e ↦ rw e (elim (Bool-cases (tk.same_hash r.block_hash p.block_hash)) [
          | inl f ↦ rw f h
          | inr f ↦ rw f h
        ])
      ]

  At-dispatch_block_height :
      (tk : HeightToolkit) (required count : ℕ) (p : PendingItem)
      → At g p
      → AtHeight g (dispatch_block_height_confirmations tk required count p)
  unfolding dispatch_block_height_confirmations notify_count
  At-dispatch_block_height tk required count p h =
      if_both (AtHeight g) (is_previous count p.previous_confirmation_count) _ _
        (λ _. record { at_item = h })
        (λ _.
          if_both (AtHeight g) (capped count required == required) _ _
            (λ _. record { at_item = At-conclude tk required count p tk.receipt h })
            (λ _. record { at_item = h }))

  At-height :
      (tk : HeightToolkit) (required head : ℕ) (p : PendingItem)
      → At g p
      → AtHeight g (dispatch_confirmation_using_head_block_number tk required head p)
  unfolding dispatch_confirmation_using_head_block_number
  At-height tk required head p h =
      if_both (AtHeight g) (str_eq p.block_hash "") _ _ (λ _. record { at_item = h })
        (λ _. At-dispatch_block_height tk required (height_above head p.block_number) p h)

  pub At-walk :
      (ask : Connector) (tk : HeightToolkit) (t : Tracking) (p : PendingItem) (bs : BlockState)
      → At g p
      → AtStep g (walk_chain_for_item ask tk t p bs)
  unfolding walk_chain_for_item
  At-walk ask tk t p bs h =
      if_both (AtStep g) (str_eq p.block_hash "") _ _ (λ _. h)
        (λ _.
          if_both (AtStep g) t.light _ _
            (λ _. (At-height tk t.required_confirmations t.head_block_number p h).at_item)
            (λ _.
              At-after_walk t.required_confirmations p (walk_from ask t p bs) h
                (walk_from-Good ask t p bs)))

  At-after_call : (es : List Effect) (o : Option ItemStep) → AtStep g o → AtStep g (after_call es o)
  At-after_call es none h = elim h [ ]
  At-after_call es (some s) h = h

-- Receipts that arrive one after the other, each with its generation and what the rest of the
-- program answers then, and the item after them; an item stays as it was where a walk runs out.
pub record Arrival : Type 0 where
  pub receipt : Receipt
  pub generation : ℕ
  pub toolkit : HeightToolkit
  pub tracking : Tracking
  pub blocks : BlockState

abbrev pub item_after : PendingItem → Option ItemStep → PendingItem
item_after p none = p
item_after p (some s) = s.item

unfoldable pub receive_receipt : Connector → Arrival → PendingItem → PendingItem
receive_receipt ask a p =
    item_after p (dispatch_receipt ask a.toolkit a.tracking a.receipt a.generation p a.blocks)

-- The generations of the receipts that are applied, in the order of their arrival.
unfoldable pub applied_generations : Connector → List Arrival → PendingItem → List ℕ
applied_generations ask [] p = []
applied_generations ask (a ∷ more) p =
    let rest = applied_generations ask more (receive_receipt ask a p) in
    if is_stale_receipt a.generation p then rest else a.generation ∷ rest

abbrev pub HasGenerations : List Arrival → Type 0
HasGenerations [] = Unit {0}
HasGenerations (a ∷ more) = (0 < a.generation) × HasGenerations more

-- Every number is greater than those before it, and than `n`.
pub data Increasing : ℕ → List ℕ → Type 0 where
  increasing_nil : {n : ℕ} → Increasing n []
  increasing_cons : {n m : ℕ} {ms : List ℕ} → n < m → Increasing m ms → Increasing n (m ∷ ms)

pub dispatch_receipt-AtStep :
    (ask : Connector) (tk : HeightToolkit) (t : Tracking) (r : Receipt) (generation : ℕ)
    (p : PendingItem) (bs : BlockState)
    → AtStep
        (
          (if is_stale_receipt generation p
              then p
              else apply_receipt r generation p).applied_receipt_generation,
          p.has_confirmations_callback,
        )
        (dispatch_receipt ask tk t r generation p bs)
unfolding dispatch_receipt apply_receipt
dispatch_receipt-AtStep ask tk t r generation p bs =
    elim (Bool-cases (is_stale_receipt generation p)) [
      | inl e ↦ rw e (refl, refl)
      | inr e ↦ rw e (
          At-after_call _ (receipt_call r p.has_receipt_callback) _
            (At-walk _ ask tk t (apply_receipt r generation p) bs (refl, refl)))
    ]
