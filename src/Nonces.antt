-- ===== src/Nonces.antt =====
-- internal/persistence/leveldb: how the insertions of one signer's transactions take the lock of
-- the transactions (txMux) and that of the signer's next nonce (lockedNonces), step by step. An insertion whose
-- lookup fails would give the nonce back at once, and is left out; so is what is written.
pub mod Exclusive
pub mod Sequence
mod Examples
use firefly_transaction_mana.Prelude.{
  ℕ, Bool, true, false, Option, none, some, List, [], ◌∷◌, ◌==◌, if◌then◌else◌, is_some,
}

-- Where a goroutine stands. `single` ones run InsertTransactionWithNextNonce, `batch` ones
-- InsertTransactionsWithNextNonce for one transaction.
pub data Place : Type 0 where
  single_start : Place
  -- calcNextNonce is about to take the read lock of the transactions.
  single_lookup : Place
  -- writeTransaction is about to take the write lock.
  single_write : Place
  batch_start : Place
  -- The write lock is held, and assignAndLockNonceLocked is about to lock the nonce.
  batch_locked : Place
  batch_write : Place
  finished : Place

-- The holder of the write lock, the one of the signer's nonce, and the goroutines.
pub record Locks : Type 0 where
  pub tx_mux : Option ℕ
  pub locked_nonce : Option ℕ
  pub place : ℕ → Place

abbrev pub goes_to : ℕ → Place → Locks → Locks
goes_to i p s = record s { place = λ k. if k == i then p else s.place k }

abbrev pub unless_held : Option ℕ → Locks → Option Locks
unless_held none s = some s
unless_held (some h) s = none

-- The next step of the goroutine `i`; `none` is one that waits or has finished. A read lock is
-- taken and released within a step.
unfoldable pub step_from : Place → ℕ → Locks → Option Locks
step_from single_start i s =
    unless_held s.locked_nonce (record (goes_to i single_lookup s) { locked_nonce = some i })
step_from single_lookup i s = unless_held s.tx_mux (goes_to i single_write s)
step_from single_write i s =
    unless_held s.tx_mux (record (goes_to i finished s) { locked_nonce = none })
step_from batch_start i s =
    unless_held s.tx_mux (record (goes_to i batch_locked s) { tx_mux = some i })
step_from batch_locked i s =
    unless_held s.locked_nonce (record (goes_to i batch_write s) { locked_nonce = some i })
step_from batch_write i s =
    some (record (goes_to i finished s) { locked_nonce = none; tx_mux = none })
step_from finished i s = none

-- A schedule: a goroutine that cannot take its step is passed over.
abbrev pub or_same : Locks → Option Locks → Locks
or_same s none = s
or_same s (some s') = s'

unfoldable pub run : List ℕ → Locks → Locks
unfolding step_from
run [] s = s
run (i ∷ more) s = run more (or_same s (step_from (s.place i) i s))
