-- ===== src/Handler/Loop/Capacity.antt =====
-- The in-flight set is refilled in order, and never beyond its limit.
use mathlib.Core.List.{map}
use firefly_transaction_mana.Prelude.{
  ℕ, ◌-◌, ◌≤◌, ◌<◌, String, ◌≡◌, true, none, false, some, List, [], ◌∷◌, ◌++◌, length,
}
use firefly_transaction_mana.Tx.{ManagedTx}
use firefly_transaction_mana.Handler.{PendingState}
use firefly_transaction_mana.Handler.Loop.{LoopToolkit, SimpleHandler, last_sequence, new_pending}

-- The persistence answers a query with no more transactions than it was asked for.
abbrev pub RespectsLimit : LoopToolkit → Type 0
RespectsLimit tk =
    (after : String) (limit : ℕ) (txs : List ManagedTx)
    → tk.list_transactions_pending after limit ≡ some txs
    → length txs ≤ limit

-- Every pending state of the list has its mark for removal unset.
abbrev pub AllKept : List PendingState → Type 0
AllKept [] = Unit {0}
AllKept (p ∷ ps) = (p.remove ≡ false) × AllKept ps

-- The second list is the first without the entries that are marked for removal.
pub data Kept : List PendingState → List PendingState → Type 0 where
  kept_nil : Kept [] []
  drops :
      {p : PendingState} {ps qs : List PendingState}
      → p.remove ≡ true
      → Kept ps qs
      → Kept (p ∷ ps) qs
  keeps :
      {p : PendingState} {ps qs : List PendingState}
      → p.remove ≡ false
      → Kept ps qs
      → Kept (p ∷ ps) (p ∷ qs)

-- What is added to the entries `ps`, of which there are at most `max`: all that the persistence
-- answers where there is room, in its order, and nothing where there is none or it fails.
pub data Added (tk : LoopToolkit) (max : ℕ) (ps : List PendingState)
    : List PendingState → Type 0 where
  queried :
      length ps < max
      → (txs : List ManagedTx)
      → tk.list_transactions_pending (last_sequence ps) (max - length ps) ≡ some txs
      → Added tk max ps (map (new_pending tk.parse_policy_info) txs)
  cancelled :
      length ps < max
      → tk.list_transactions_pending (last_sequence ps) (max - length ps) ≡ none
      → Added tk max ps []
  full : max ≤ length ps → Added tk max ps []

-- The new set is what was not marked for removal, in its order, and then what is added.
pub record Refilled (tk : LoopToolkit) (h h' : SimpleHandler) : Type 0 where
  pub before : List PendingState
  pub left : Kept h.inflight before
  pub added : List PendingState
  pub fills : Added tk h.max_in_flight before added
  pub shape : h'.inflight ≡ before ++ added
  pub kept : AllKept h'.inflight
  pub limit : h'.max_in_flight ≡ h.max_in_flight
  pub within : length h.inflight ≤ h.max_in_flight → length h'.inflight ≤ h.max_in_flight
