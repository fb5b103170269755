-- ===== src/Nonces/Examples.antt =====
-- Insertions of one signer's transactions, under concrete schedules.
use firefly_transaction_mana.Prelude.{
  ℕ, ◌≡◌, refl, none, List, [], ◌∷◌, ◌==◌, if◌then◌else◌, if_both, true, false, some, arith,
}
use firefly_transaction_mana.Nonces.Sequence.{StoredNonce, Insertion, insert_all}
use firefly_transaction_mana.Nonces.Sequence.Unique.{
  BelowIf, below_nil, below_cons, AnswersBelow, insert_all-Below,
}
use firefly_transaction_mana.Nonces.{Place, single_start, batch_start, Locks, step_from, run}
use firefly_transaction_mana.Nonces.Exclusive.{has_nonce, run_exclusive, insert_deadlock}

-- Goroutine 1 is a batch insertion, and the others are single ones.
abbrev fresh : Locks
fresh = record {
  tx_mux = none;
  locked_nonce = none;
  place = λ k. if k == 1 then batch_start else single_start;
}

abbrev all_single : Locks
all_single = record { tx_mux = none; locked_nonce = none; place = λ _. single_start }

run_exclusive_example : (run (0 ∷ 0 ∷ 0 ∷ 2 ∷ 0 ∷ []) all_single).locked_nonce ≡ some 2
unfolding run step_from
run_exclusive_example = run_exclusive (0 ∷ 0 ∷ 0 ∷ 2 ∷ 0 ∷ []) all_single 2 (λ _. refl) refl

nobody : (k : ℕ) → has_nonce (fresh.place k) ≡ false
nobody k = if_both (λ (p : Place). has_nonce p ≡ false) (k == 1) _ _ (λ _. refl) (λ _. refl)

insert_deadlock_example : run (0 ∷ 1 ∷ 0 ∷ 2 ∷ 1 ∷ []) fresh ≡ run (0 ∷ 1 ∷ []) fresh
insert_deadlock_example = insert_deadlock 0 1 (0 ∷ 2 ∷ 1 ∷ []) fresh refl refl refl refl refl nobody

-- The store is fresh for the first insertion; then the node is behind, fails, and is ahead.
abbrev stored : List StoredNonce
stored = record { nonce = 7; created = 100 } ∷ record { nonce = 3; created = 90 } ∷ []

abbrev insertions : List Insertion
insertions =
    record { now = 105; node_nonce = some 2; is_written = true }
    ∷ record { now = 300; node_nonce = none; is_written = true }
    ∷ record { now = 301; node_nonce = some 12; is_written = false }
    ∷ record { now = 302; node_nonce = some 12; is_written = true }
    ∷ []

answers : AnswersBelow 13 insertions
answers = (
  λ n e. ground (arith, e),
  (λ n e. ground (arith, e), (λ n e. ground (arith, e), (λ n e. ground (arith, e), tt))),
)

insert_all-Below_example : BelowIf 17 (insert_all 10 insertions stored)
insert_all-Below_example =
    insert_all-Below 10 13 insertions stored (omega arith)
      (below_cons (omega arith) (below_cons (omega arith) below_nil)) answers
