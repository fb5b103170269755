-- ===== src/Handler/Exec.antt =====
-- A run of the policy over one pending transaction: what it reads, changes, calls and returns.
use firefly_transaction_mana.Prelude.{ℕ, String, Bool, Option, none, some, List, [], ◌∷◌, ◌++◌, ℤ}
use firefly_transaction_mana.Tx.{ManagedTx, TxUpdates, TxSubStatus, TxAction}
use firefly_transaction_mana.Handler.{
  ErrorReason, Error, Receipt, Confirmation, PendingState, ActionInfo, HistoryUpdate, PolicyInfo,
  RunContext, EventType,
}

-- The answer of `TransactionSend`.
pub data SendAnswer : Type 0 where
  sent : String → ErrorReason → SendAnswer
  not_sent : ErrorReason → Error → SendAnswer

-- The answer of a gas price query: the price, which may be a nil pointer, or an error.
pub data PriceAnswer : Type 0 where
  price : Option String → PriceAnswer
  no_price : Error → PriceAnswer

-- What the toolkit and the clock answer during one run; `none` is a nil error. A run makes each
-- of these calls at most once, but for `add_sub_status_action`, which is told the entry, and
-- `handle_event`, which is told the event. The clock is read as one time for the whole run.
pub record Toolkit : Type 0 where
  pub now : ℕ
  pub set_transaction_receipt : String → Option Receipt → Option Error
  pub add_transaction_confirmations : String → Bool → List Confirmation → Option Error
  pub add_sub_status_action : HistoryUpdate → Option Error
  pub gas_price_api : PriceAnswer
  pub gas_price_estimate : PriceAnswer
  pub transaction_send : ManagedTx → SendAnswer
  pub handle_event : EventType → ManagedTx → Option Error
  pub update_transaction : String → TxUpdates → Option Error
  pub delete_transaction : String → Option Error
  pub error_message : Error → String
  pub big_string : ℤ → String
  pub json_string : String → String
  pub policy_info_json : Option PolicyInfo → String

-- The calls that change something outside the handler, in the order in which they are made. Each
-- is recorded whether it fails or not; `marked_stale` is `markInflightStale`.
pub data Effect : Type 0 where
  set_receipt : String → Option Receipt → Effect
  add_confirmations : String → Bool → List Confirmation → Effect
  add_history : HistoryUpdate → Effect
  send_transaction : ManagedTx → Effect
  send_event : EventType → ManagedTx → Option Receipt → Effect
  update_stored : String → TxUpdates → Effect
  delete_stored : String → Effect
  marked_stale : Effect

pub data GasOracleMode : Type 0 where
  rest_api connector disabled : GasOracleMode

-- The gas price fields of simpleTransactionHandler.
pub record GasOracle : Type 0 where
  pub mode : GasOracleMode
  pub query_interval : ℕ
  pub fixed_gas_price : Option String
  pub query_value : Option String
  pub last_query_time : Option ℕ

pub record Run : Type 0 where
  pub pending : PendingState
  pub ctx : RunContext
  pub oracle : GasOracle
  pub effects : List Effect

-- `panic` is a dereference of a nil pointer.
pub data Outcome (A : Type 0) : Type 0 where
  ok : A → Outcome A
  err : Error → Outcome A
  panic : Outcome A

abbrev pub Exec : Type 0 → Type 0
Exec A = Run → Outcome A × Run

abbrev pub next : {A B : Type 0} → Outcome A × Run → (A → Exec B) → Outcome B × Run
next (ok a, r) f = f a r
next (err e, r) f = (err e, r)
next (panic, r) f = (panic, r)

infixl 5 ◌>>=◌ ◌>>◌
abbrev pub ◌>>=◌ : {A B : Type 0} → Exec A → (A → Exec B) → Exec B
◌>>=◌ m f r = next (m r) f

abbrev pub ◌>>◌ : {B : Type 0} → Exec (Unit {0}) → Exec B → Exec B
◌>>◌ m k r = next (m r) (λ _. k)

abbrev pub pure : {A : Type 0} → A → Exec A
pure a r = (ok a, r)

abbrev pub skip : Exec (Unit {0})
skip r = (ok tt, r)

abbrev pub raise : {A : Type 0} → Error → Exec A
raise e r = (err e, r)

abbrev pub crash : {A : Type 0} → Exec A
crash r = (panic, r)

-- An error that the callee returns, if it is not nil.
abbrev pub check : Option Error → Exec (Unit {0})
check none r = (ok tt, r)
check (some e) r = (err e, r)

abbrev pub emit : Effect → Exec (Unit {0})
emit e r = (ok tt, record r { effects = r.effects ++ e ∷ [] })

abbrev pub modify_ctx : (RunContext → RunContext) → Exec (Unit {0})
modify_ctx f r = (ok tt, record r { ctx = f r.ctx })

abbrev pub modify_pending : (PendingState → PendingState) → Exec (Unit {0})
modify_pending f r = (ok tt, record r { pending = f r.pending })

abbrev pub modify_mtx : (ManagedTx → ManagedTx) → Exec (Unit {0})
modify_mtx f r = (ok tt, record r { pending = record r.pending { mtx = f r.pending.mtx } })

abbrev pub get : Exec Run
get r = (ok r, r)

-- `RunContext.SetSubStatus`
abbrev pub set_sub_status : TxSubStatus → Exec (Unit {0})
set_sub_status s = modify_ctx (λ c. record c { sub_status = s })

-- `RunContext.AddSubStatusAction`: the entry has the sub-status of the context at that time.
unfoldable pub add_sub_status_action : TxAction → ActionInfo → ActionInfo → ℕ → Exec (Unit {0})
add_sub_status_action action info e now r = (
  ok tt,
  record r {
    ctx = record r.ctx {
      history_updates =
          r.ctx.history_updates
          ++ record {
            tx_id = r.pending.mtx.id;
            sub_status = r.ctx.sub_status;
            action = action;
            info = info;
            err = e;
            action_occurred = now;
          }
            ∷ [];
    };
  },
)

-- The intervals of simpleTransactionHandler.
pub record Config : Type 0 where
  pub resubmit_interval : ℕ
  pub policy_loop_interval : ℕ

-- A call whose error is handled by the caller.
abbrev pub attempt_result : Outcome (Unit {0}) × Run → Outcome (Option Error) × Run
attempt_result (ok _, r) = (ok none, r)
attempt_result (err e, r) = (ok (some e), r)
attempt_result (panic, r) = (panic, r)

abbrev pub attempt : Exec (Unit {0}) → Exec (Option Error)
attempt m r = attempt_result (m r)
