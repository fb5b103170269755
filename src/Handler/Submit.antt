-- ===== src/Handler/Submit.antt =====
-- pkg/txhandler/simple/simple_transaction_handler.go: getGasPrice, submitTX, processTransaction.
pub mod Keeps
use firefly_transaction_mana.Prelude.{
  String, ℕ, ◌-◌, Bool, true, false, not, Option, none, some, ltb, str_eq, ◌&&◌, if◌then◌else◌,
  is_some, get_or,
}
use firefly_transaction_mana.Tx.{retrieve_gas_price, submit_transaction, timeout, tracking, stale}
use firefly_transaction_mana.Handler.{
  update, delete, ErrorReason, no_reason, known_transaction, nonce_too_low, Error, PolicyInfo,
  ActionInfo, no_info, reason, error,
}
use firefly_transaction_mana.Handler.Exec.{
  SendAnswer, sent, not_sent, PriceAnswer, price, no_price, Toolkit, send_transaction,
  GasOracleMode, rest_api, connector, disabled, GasOracle, Config, Exec, ◌>>=◌, ◌>>◌, pure, skip,
  raise, crash, emit, modify_ctx, modify_pending, modify_mtx, get, set_sub_status,
  add_sub_status_action, ok,
}

-- The cached price is still good.
unfoldable pub is_fresh : ℕ → GasOracle → Bool
is_fresh now o = elim o.last_query_time [
  | none ↦ false
  | some t ↦ is_some o.query_value && ltb (now - t) o.query_interval
]

-- A queried price is cached; an error leaves the cache as it was.
unfoldable pub queried : ℕ → PriceAnswer → GasOracle → PriceAnswer × GasOracle
queried now (price p) o = (price p, record o { query_value = p; last_query_time = some now })
queried now (no_price e) o = (no_price e, o)

unfoldable pub query_price : Toolkit → GasOracleMode → GasOracle → PriceAnswer × GasOracle
unfolding queried
query_price tk rest_api o = queried tk.now tk.gas_price_api o
query_price tk connector o = queried tk.now tk.gas_price_estimate o
query_price tk disabled o = (price o.fixed_gas_price, o)

unfoldable pub get_gas_price : Toolkit → GasOracle → PriceAnswer × GasOracle
unfolding is_fresh query_price
get_gas_price tk o = if is_fresh tk.now o then (price o.query_value, o) else query_price tk o.mode o

unfoldable pub fetch_price : Toolkit → Exec PriceAnswer
unfolding get_gas_price
fetch_price tk r = let (p, o) = get_gas_price tk r.oracle in (ok p, record r { oracle = o })

-- The two results of `submitTX`.
pub data SubmitResult : Type 0 where
  submitted : SubmitResult
  refused : ErrorReason → Error → SubmitResult

-- The connector says that it has seen the transaction, or one in its place.
abbrev pub is_known : ErrorReason → Bool
is_known known_transaction = true
is_known nonce_too_low = true
is_known _ = false

unfoldable pub handle_answer : Toolkit → SendAnswer → Exec SubmitResult
unfolding add_sub_status_action
handle_answer tk (sent hash why) = do
  add_sub_status_action submit_transaction (reason why) no_info tk.now
  modify_mtx (λ m. record m { transaction_hash = hash; last_submit = some tk.now })
  r ← get
  modify_ctx (λ c. record c {
    update_type = update;
    tx_updates = record c.tx_updates {
      transaction_hash = some hash;
      last_submit = some tk.now;
      gas_price = r.pending.mtx.gas_price;
    };
  })
  set_sub_status tracking
  pure submitted
handle_answer tk (not_sent why e) = do
  add_sub_status_action submit_transaction (reason why) (error e) tk.now
  r ← get
  pure (
      if is_known why && not (str_eq r.pending.mtx.transaction_hash "")
      then submitted
      else refused why e)

unfoldable pub send_priced : Toolkit → Exec SubmitResult
send_priced tk = do
  r ← get
  emit (send_transaction r.pending.mtx)
  handle_answer tk (tk.transaction_send r.pending.mtx)

unfoldable pub note_price : Toolkit → String → Exec (Unit {0})
unfolding add_sub_status_action
note_price tk p = do
  modify_mtx (λ m. record m { gas_price = some p })
  add_sub_status_action retrieve_gas_price (ActionInfo.gas_price p) no_info tk.now

unfoldable pub submit_at_price : Toolkit → PriceAnswer → Exec SubmitResult
unfolding add_sub_status_action
submit_at_price tk (no_price e) = do
  modify_mtx (λ m. record m { gas_price = none })
  add_sub_status_action retrieve_gas_price no_info (error e) tk.now
  pure (refused no_reason e)
submit_at_price tk (price none) = crash
submit_at_price tk (price (some p)) = do note_price tk p; send_priced tk

unfoldable pub submit_tx : Toolkit → Exec SubmitResult
submit_tx tk = do p ← fetch_price tk; submit_at_price tk p

unfoldable pub after_first_submit : SubmitResult → Exec (Unit {0})
after_first_submit (refused why e) = raise e
after_first_submit submitted = do
  modify_mtx (λ m. record m { first_submit = m.last_submit })
  r ← get
  modify_ctx (λ c. record c {
    tx_updates = record c.tx_updates { first_submit = r.pending.mtx.first_submit };
  })

unfoldable pub after_resubmit : SubmitResult → Exec (Unit {0})
after_resubmit submitted = skip
after_resubmit (refused known_transaction e) = skip
after_resubmit (refused _ e) = raise e

unfoldable pub note_timeout : Toolkit → Exec (Unit {0})
unfolding add_sub_status_action
note_timeout tk = do
  modify_ctx (λ c. record c { update_type = update; updated_info = true })
  modify_pending (λ p. record p { info = some (record { last_warn_time = some tk.now }) })
  add_sub_status_action timeout no_info no_info tk.now
  set_sub_status stale

unfoldable pub try_again : Toolkit → Exec (Unit {0})
try_again tk = do note_timeout tk; res ← submit_tx tk; after_resubmit res

-- There is a first submission and no receipt: submit again once the interval has passed.
unfoldable pub resubmit : Toolkit → Config → ℕ → Option PolicyInfo → Exec (Unit {0})
resubmit tk cfg first none = crash
resubmit tk cfg first (some info) =
    if ltb cfg.resubmit_interval (tk.now - get_or info.last_warn_time first)
    then try_again tk
    else skip

-- What is left to do for a transaction that is not to be deleted, by its first submission and
-- its receipt.
unfoldable pub drive : Toolkit → Config → Option ℕ → Bool → Exec (Unit {0})
drive tk cfg none has_receipt = do res ← submit_tx tk; after_first_submit res
drive tk cfg (some first) true = skip
drive tk cfg (some first) false = do r ← get; resubmit tk cfg first r.pending.info

unfoldable pub process_transaction : Toolkit → Config → Exec (Unit {0})
process_transaction tk cfg = do
  r ← get
  if is_some r.pending.mtx.delete_requested
      then modify_ctx (λ c. record c { update_type = delete })
      else drive tk cfg r.pending.mtx.first_submit (is_some r.ctx.receipt)
