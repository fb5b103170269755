-- ===== src/Handler/Submit/Keeps.antt =====
-- What `submitTX` and `processTransaction` leave alone.
use firefly_transaction_mana.Prelude.{
  ℕ, ◌≡◌, Bool, true, false, Option, none, some, String, is_some, arith,
}
use firefly_transaction_mana.Tx.{ManagedTx}
use firefly_transaction_mana.Handler.{PolicyInfo}
use firefly_transaction_mana.Handler.Exec.{
  Toolkit, Config, Effect, send_transaction, Run, SendAnswer, sent, not_sent, PriceAnswer, price,
  no_price, add_sub_status_action,
}
use firefly_transaction_mana.Handler.Relations.{
  Keeps, emit-Keeps, Keeps-refl, Keeps-trans, bind-rel,
}
use firefly_transaction_mana.Handler.Submit.{
  SubmitResult, submitted, refused, fetch_price, handle_answer, note_price, note_timeout,
  send_priced, submit_at_price, submit_tx, after_first_submit, after_resubmit, try_again, resubmit,
  drive, process_transaction,
}

module _ (t : Effect → Bool) (t-send : (m : ManagedTx) → t (send_transaction m) ≡ false)
    (tk : Toolkit) where
  handle_answer-Keeps : (a : SendAnswer) (r : Run) → Keeps t r (handle_answer tk a r).1
  unfolding handle_answer add_sub_status_action
  handle_answer-Keeps (sent hash why) r = ground arith
  handle_answer-Keeps (not_sent why e) r = ground arith

  send_priced-Keeps : (r : Run) → Keeps t r (send_priced tk r).1
  unfolding send_priced
  send_priced-Keeps r =
      emit-Keeps t (send_transaction r.pending.mtx) (handle_answer tk _) (t-send _)
        (handle_answer-Keeps _) r

  note_price-Keeps : (p : String) (r : Run) → Keeps t r (note_price tk p r).1
  unfolding note_price add_sub_status_action
  note_price-Keeps p r = Keeps-refl t r

  submit_at_price-Keeps : (p : PriceAnswer) (r : Run) → Keeps t r (submit_at_price tk p r).1
  unfolding submit_at_price add_sub_status_action
  submit_at_price-Keeps (no_price e) r = Keeps-refl t r
  submit_at_price-Keeps (price none) r = Keeps-refl t r
  submit_at_price-Keeps (price (some p)) r =
      bind-rel (Keeps t) (Keeps-trans t) (note_price tk p) _ (note_price-Keeps p)
        (λ _. send_priced-Keeps) r

  fetch_price-Keeps : (r : Run) → Keeps t r (fetch_price tk r).1
  unfolding fetch_price
  fetch_price-Keeps r = Keeps-refl t r

  submit_tx-Keeps : (r : Run) → Keeps t r (submit_tx tk r).1
  unfolding submit_tx
  submit_tx-Keeps =
      bind-rel (Keeps t) (Keeps-trans t) (fetch_price tk) _ fetch_price-Keeps submit_at_price-Keeps

  note_timeout-Keeps : (r : Run) → Keeps t r (note_timeout tk r).1
  unfolding note_timeout add_sub_status_action
  note_timeout-Keeps r = Keeps-refl t r

  after_first_submit-Keeps : (res : SubmitResult) (r : Run) → Keeps t r (after_first_submit res r).1
  unfolding after_first_submit
  after_first_submit-Keeps submitted r = ground arith
  after_first_submit-Keeps (refused why e) r = ground arith

  after_resubmit-Keeps : (res : SubmitResult) (r : Run) → Keeps t r (after_resubmit res r).1
  unfolding after_resubmit
  after_resubmit-Keeps res r = ground arith

  try_again-Keeps : (r : Run) → Keeps t r (try_again tk r).1
  unfolding try_again
  try_again-Keeps = bind-rel (Keeps t) (Keeps-trans t) (note_timeout tk) _ note_timeout-Keeps (λ _.
      bind-rel (Keeps t) (Keeps-trans t) (submit_tx tk) _ submit_tx-Keeps after_resubmit-Keeps)

  resubmit-Keeps :
      (cfg : Config) (first : ℕ) (i : Option PolicyInfo) (r : Run)
      → Keeps t r (resubmit tk cfg first i r).1
  unfolding resubmit
  resubmit-Keeps cfg first none r = Keeps-refl t r
  resubmit-Keeps cfg first (some i) r = ground (arith, try_again-Keeps r)

  drive-Keeps :
      (cfg : Config) (first : Option ℕ) (has_receipt : Bool) (r : Run)
      → Keeps t r (drive tk cfg first has_receipt r).1
  unfolding drive
  drive-Keeps cfg none has_receipt r =
      bind-rel (Keeps t) (Keeps-trans t) (submit_tx tk) _ submit_tx-Keeps after_first_submit-Keeps r
  drive-Keeps cfg (some first) true r = Keeps-refl t r
  drive-Keeps cfg (some first) false r = resubmit-Keeps cfg first r.pending.info r

  -- Driving a transaction keeps its status, and makes none of the calls that `t` tells.
  pub process_transaction-Keeps :
      (cfg : Config) (r : Run) → Keeps t r (process_transaction tk cfg r).1
  unfolding process_transaction
  process_transaction-Keeps cfg r =
      ground (arith, drive-Keeps cfg r.pending.mtx.first_submit (is_some r.ctx.receipt) r)
