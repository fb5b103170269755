-- ===== src/Confirmations/Manager/Ready.antt =====
-- Every item of the manager has a callback for confirmations, through the calls that change it.
use firefly_transaction_mana.Prelude.{ℕ, ◌≡◌, refl, true, false, List, [], ◌∷◌, ◌++◌, ◌==◌, if_both}
use firefly_transaction_mana.Confirmations.{
  PendingItem, Effect, receipt_notified, notified, removed, check_scheduled,
}
use firefly_transaction_mana.Confirmations.Manager.{
  Manager, set_item, remove_item, add_or_replace_item, perform_one, perform, after_step,
}

-- Every item has a callback for confirmations, and no nil callback was called.
pub record Ready (m : Manager) : Type 0 where
  pub no_panic : m.panicked ≡ false
  pub callbacks : (i : ℕ) → (m.heap i).has_confirmations_callback ≡ true

set_item-Ready :
    (i : ℕ) (p : PendingItem) (m : Manager)
    → p.has_confirmations_callback ≡ true
    → Ready m
    → Ready (set_item i p m)
set_item-Ready i p m h k = record {
  no_panic = k.no_panic;
  callbacks = λ j.
      if_both (λ (q : PendingItem). q.has_confirmations_callback ≡ true) (j == i) p (m.heap j)
        (λ _. h) (λ _. k.callbacks j);
}

perform_one-Ready :
    (i : ℕ) (p : PendingItem) (e : Effect) (m : Manager)
    → p.has_confirmations_callback ≡ true
    → Ready m
    → Ready (perform_one i p e m)
unfolding remove_item
perform_one-Ready i p removed m h k = record { no_panic = k.no_panic; callbacks = k.callbacks }
perform_one-Ready i p check_scheduled m h k = record {
  no_panic = k.no_panic;
  callbacks = k.callbacks;
}
perform_one-Ready i p (notified n) m h k = record {
  no_panic = rw (k.no_panic, h) refl;
  callbacks = k.callbacks;
}
perform_one-Ready i p (receipt_notified r) m h k = k

perform-Ready :
    (i : ℕ) (p : PendingItem) (es : List Effect) (m : Manager)
    → p.has_confirmations_callback ≡ true
    → Ready m
    → Ready (perform i p es m)
unfolding perform
perform-Ready i p [] m h k = k
perform-Ready i p (e ∷ es) m h k = perform-Ready i p es _ h (
    perform_one-Ready i p e (record m { performed = m.performed ++ (i, e) ∷ [] }) h
      (record { no_panic = k.no_panic; callbacks = k.callbacks }))

pub after_step-Ready :
    (i : ℕ) (p : PendingItem) (es : List Effect) (m : Manager)
    → p.has_confirmations_callback ≡ true
    → Ready m
    → Ready (after_step i p es m)
after_step-Ready i p es m h k =
    let k' = set_item-Ready i p m h k in
    perform-Ready i p es _ h (record { no_panic = k'.no_panic; callbacks = k'.callbacks })

pub add_item-Ready :
    (p : PendingItem) (m : Manager)
    → p.has_confirmations_callback ≡ true
    → Ready m
    → Ready (add_or_replace_item p m)
unfolding add_or_replace_item
add_item-Ready p m h k =
    let k' = set_item-Ready m.next_item (record p { confirmations = [] }) m h k in
    record { no_panic = k'.no_panic; callbacks = k'.callbacks }
