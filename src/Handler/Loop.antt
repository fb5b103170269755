-- ===== src/Handler/Loop.antt =====
-- pkg/txhandler/simple/policyloop.go: the in-flight set, and the state of a cycle of the loop.
pub mod Requests
pub mod Capacity
pub mod Responses
pub mod Outside
use firefly_transaction_mana.Prelude.{
  ℕ, suc, ◌-◌, String, Bool, true, false, Option, none, some, List, [], ◌∷◌, ◌++◌, map, length,
  if◌then◌else◌, str_eq, ltb, ◌||◌,
}
use firefly_transaction_mana.Tx.{ManagedTx, received, tracking}
use firefly_transaction_mana.Handler.{
  ActionType, action_none, action_resume, action_update, Error, transaction_not_found,
  request_invalid, PendingState, PolicyInfo, Receipt, ConfirmationsNotification, Request,
}
use firefly_transaction_mana.Handler.Exec.{
  Toolkit, Config, Effect, marked_stale, GasOracle, Run, Outcome, ok, err, panic,
}
use firefly_transaction_mana.Handler.Snapshot.{new_run}
use firefly_transaction_mana.Handler.Policy.{exec_policy}

-- The answer of a read of one transaction: a nil pointer if there is none.
pub data StoredAnswer : Type 0 where
  stored : Option ManagedTx → StoredAnswer
  not_read : Error → StoredAnswer

-- What the persistence and the clock answer in one cycle. `run n` is for the n-th run of the
-- policy, `get_transaction_by_id n` for the n-th request; `list_transactions_pending` is `none`
-- where the context is cancelled before the retried query succeeds.
pub record LoopToolkit : Type 0 where
  pub run : ℕ → Toolkit
  pub get_transaction_by_id : ℕ → String → StoredAnswer
  pub list_transactions_pending : String → ℕ → Option (List ManagedTx)
  pub parse_policy_info : Option String → PolicyInfo

-- simpleTransactionHandler. `inflight_stale` and `inflight_update` are channels with one place.
pub record SimpleHandler : Type 0 where
  pub inflight : List PendingState
  pub policy_engine_api_requests : List Request
  pub max_in_flight : ℕ
  pub inflight_stale : Bool
  pub inflight_update : Bool
  pub oracle : GasOracle
  pub config : Config

unfoldable pub mark_inflight_update : SimpleHandler → SimpleHandler
mark_inflight_update h = record h { inflight_update = true }

unfoldable pub mark_inflight_stale : SimpleHandler → SimpleHandler
unfolding mark_inflight_update
mark_inflight_stale h = mark_inflight_update (record h { inflight_stale = true })

unfoldable pub remaining : List PendingState → List PendingState
remaining [] = []
remaining (p ∷ ps) = let rest = remaining ps in if p.remove then rest else p ∷ rest

-- The sequence of the last transaction in the set, "" for the empty one.
unfoldable pub last_sequence : List PendingState → String
last_sequence [] = ""
last_sequence (p ∷ []) = p.mtx.sequence_id
last_sequence (p ∷ q ∷ ps) = last_sequence (q ∷ ps)

-- A transaction that is taken into the set.
unfoldable pub new_pending : (Option String → PolicyInfo) → ManagedTx → PendingState
new_pending parse mtx = record {
  mtx = mtx;
  tracking_transaction_hash = "";
  last_policy_cycle = 0;
  receipt = none;
  info = some (parse mtx.policy_info);
  confirmed = false;
  confirmations = none;
  receipt_notify = none;
  confirm_notify = none;
  remove = false;
  sub_status = if str_eq mtx.transaction_hash "" then received else tracking;
}

-- The result is false where the query was cancelled.
unfoldable pub fill_inflight :
    LoopToolkit → List PendingState → SimpleHandler → SimpleHandler × Bool
unfolding last_sequence new_pending
fill_inflight tk kept h =
    elim (tk.list_transactions_pending (last_sequence kept) (h.max_in_flight - length kept)) [
      | none ↦ (record h { inflight = kept }, false)
      | some additional ↦
          (record h { inflight = kept ++ map (new_pending tk.parse_policy_info) additional }, true)
    ]

unfoldable pub update_inflight_set : LoopToolkit → SimpleHandler → SimpleHandler × Bool
unfolding fill_inflight remaining
update_inflight_set tk h =
    let kept = remaining h.inflight in
    if ltb (length kept) h.max_in_flight
    then fill_inflight tk kept h
    else (record h { inflight = kept }, true)

-- policyEngineAPIResponse
pub record Response : Type 0 where
  pub tx : Option ManagedTx
  pub err : Option Error
  pub status : ℕ

-- A cycle under way: the handler, the number of runs so far, the responses that were sent with the
-- request of each, oldest first, and the calls that were made.
pub record Cycle : Type 0 where
  pub handler : SimpleHandler
  pub runs : ℕ
  pub responses : List (Request × Response)
  pub effects : List Effect
