-- ===== src/Events/Deliver/Acks.antt =====
-- When a batch counts as acknowledged.
use firefly_transaction_mana.Prelude.{
  ℕ, ◌≡◌, ◌↔◌, true, false, List, [], ◌∷◌, ◌==◌, arith, Bool-cases, inl, inr,
}
use firefly_transaction_mana.Events.Deliver.{
  AckMessage, ack, ack_error, ack_context_done, acknowledged, wait_for_ack,
}

-- The messages are acknowledgements of other batches, and then the one of this batch.
pub data AcknowledgedBy (n : ℕ) : List AckMessage → Type 0 where
  at_once : (ms : List AckMessage) → AcknowledgedBy n (ack n ∷ ms)
  after_other :
      (m : ℕ) (ms : List AckMessage)
      → (m == n) ≡ false
      → AcknowledgedBy n ms
      → AcknowledgedBy n (ack m ∷ ms)

acked-AcknowledgedBy :
    (n : ℕ) (ms : List AckMessage) → wait_for_ack n ms ≡ acknowledged → AcknowledgedBy n ms
unfolding wait_for_ack
acked-AcknowledgedBy n [] h = absurd cc
acked-AcknowledgedBy n (ack m ∷ ms) h = elim (Bool-cases (m == n)) [
  | inl e ↦ rw (← same_number m n e) (at_once ms)
  | inr e ↦ after_other m ms e (acked-AcknowledgedBy n ms (ground (arith, e, h)))
]
  where
    same_number : (a b : ℕ) → (a == b) ≡ true → a ≡ b
    same_number a b e = ground (arith, e)
acked-AcknowledgedBy n (ack_error ∷ ms) h = absurd cc
acked-AcknowledgedBy n (ack_context_done ∷ ms) h = absurd cc

AcknowledgedBy-acked :
    (n : ℕ) (ms : List AckMessage) → AcknowledgedBy n ms → wait_for_ack n ms ≡ acknowledged
unfolding wait_for_ack
AcknowledgedBy-acked n _ (at_once ms) = ground arith
AcknowledgedBy-acked n _ (after_other m ms e h) = ground (arith, e, AcknowledgedBy-acked n ms h)

-- A batch is acknowledged exactly if its own acknowledgement arrives before any error and before
-- the context is done; those of other batches are passed over.
pub wait_for_ack_iff :
    (n : ℕ) (ms : List AckMessage) → (wait_for_ack n ms ≡ acknowledged) ↔ AcknowledgedBy n ms
wait_for_ack_iff n ms = (acked-AcknowledgedBy n ms, AcknowledgedBy-acked n ms)
