-- ===== src/Handler/Examples.antt =====
-- Runs of the handler at concrete states.
use firefly_transaction_mana.Prelude.{
  ℕ, ◌≡◌, refl, true, false, none, some, List, [], ◌∷◌, pos, if◌then◌else◌, ltb,
}
use firefly_transaction_mana.Tx.{ManagedTx, pending, tracking}
use firefly_transaction_mana.Tx.External.{apply_external_tx_updates}
use firefly_transaction_mana.Handler.{
  PendingState, Receipt, Request, callee_error, action_update, action_suspend, no_reason,
}
use firefly_transaction_mana.Handler.Exec.{
  Toolkit, Config, GasOracle, disabled, price, no_price, sent, Effect,
}
use firefly_transaction_mana.Handler.Relations.{is_commit, select}
use firefly_transaction_mana.Handler.Snapshot.{new_run}
use firefly_transaction_mana.Handler.Snapshot.Action.{action_of}
use firefly_transaction_mana.Handler.Policy.{exec_policy}
use firefly_transaction_mana.Handler.Policy.Commits.{Commits}
use firefly_transaction_mana.Handler.Policy.Status.{Move}
use firefly_transaction_mana.Handler.Policy.Laws.{exec_policy-Move, exec_policy-Commits}
use firefly_transaction_mana.Handler.Loop.{LoopToolkit, SimpleHandler, Cycle, stored}
use firefly_transaction_mana.Handler.Loop.Requests.{
  panicked, process_request, process_policy_api_requests, find_pending,
}
use firefly_transaction_mana.Handler.Loop.Responses.{Answered, process_policy_api_requests-Answered}
use firefly_transaction_mana.Handler.Loop.Outside.{update_outside_panics}

abbrev submitted_tx : ManagedTx
submitted_tx = record {
  id = "ns1:a";
  created = some 5;
  updated = some 5;
  status = pending;
  delete_requested = none;
  sequence_id = "s1";
  from = "0xaa";
  to = "0xbb";
  nonce = some (pos 7);
  gas = none;
  value = none;
  gas_price = some "10";
  transaction_data = "data";
  transaction_hash = "0x01";
  policy_info = some "{}";
  first_submit = some 6;
  last_submit = some 6;
  error_message = "";
}

abbrev receipt : Receipt
receipt = record { block_number = 3; block_hash = "0xb3"; success = true; protocol_id = "3/0" }

abbrev confirmed_state : PendingState
confirmed_state = record {
  mtx = submitted_tx;
  tracking_transaction_hash = "0x01";
  last_policy_cycle = 8;
  receipt = some receipt;
  info = some (record { last_warn_time = none });
  confirmed = true;
  confirmations = none;
  receipt_notify = some 9;
  confirm_notify = none;
  remove = false;
  sub_status = tracking;
}

abbrev toolkit : Toolkit
toolkit = record {
  now = 10;
  set_transaction_receipt = λ _ _. none;
  add_transaction_confirmations = λ _ _ _. none;
  add_sub_status_action = λ _. none;
  gas_price_api = no_price (callee_error "down");
  gas_price_estimate = price (some "1");
  transaction_send = λ _. sent "0x01" no_reason;
  handle_event = λ _ _. none;
  update_transaction = λ _ _. none;
  delete_transaction = λ _. none;
  error_message = λ _. "error";
  big_string = λ _. "n";
  json_string = λ s. s;
  policy_info_json = λ _. "{}";
}

abbrev config : Config
config = record { resubmit_interval = 300; policy_loop_interval = 100 }

abbrev oracle : GasOracle
oracle = record {
  mode = disabled;
  query_interval = 60;
  fixed_gas_price = some "10";
  query_value = none;
  last_query_time = none;
}

exec_policy-Move_example :
    Move true
      (action_of none)
      (some receipt)
      pending
      (exec_policy toolkit config none (new_run confirmed_state oracle)).1.pending.mtx.status
exec_policy-Move_example = exec_policy-Move toolkit config none confirmed_state oracle

exec_policy-Commits_example :
    (es : List Effect) × (select is_commit
        (exec_policy toolkit config none (new_run confirmed_state oracle)).1.effects
      ≡ es)
    × Commits toolkit false (exec_policy toolkit config none (new_run confirmed_state oracle)).1 es
exec_policy-Commits_example = exec_policy-Commits toolkit config none confirmed_state oracle

abbrev pending_page : ℕ → List ManagedTx
pending_page n = if ltb 0 n then submitted_tx ∷ [] else []

abbrev loop_toolkit : LoopToolkit
loop_toolkit = record {
  run = λ _. toolkit;
  get_transaction_by_id = λ _ _. stored (some submitted_tx);
  list_transactions_pending = λ _ n. some (pending_page n);
  parse_policy_info = λ _. record { last_warn_time = none };
}

abbrev update_request : Request
update_request = record {
  has_response_channel = true;
  request_type = action_update;
  tx_updates = record {
    to = some "0xcc";
    nonce = none;
    gas = none;
    value = none;
    gas_price = none;
    transaction_data = none;
  };
  tx_id = "ns1:a";
}

abbrev handler : SimpleHandler
handler = record {
  inflight = record confirmed_state { remove = true } ∷ [];
  policy_engine_api_requests = record update_request { request_type = action_suspend } ∷ [];
  max_in_flight = 2;
  inflight_stale = true;
  inflight_update = true;
  oracle = oracle;
  config = config;
}

abbrev cycle : Cycle
cycle = record { handler = handler; runs = 0; responses = []; effects = [] }

abbrev empty_cycle : Cycle
empty_cycle = record cycle { handler = record handler { inflight = [] } }

update_outside_panics_example : process_request loop_toolkit 0 update_request empty_cycle ≡ panicked
unfolding find_pending apply_external_tx_updates
update_outside_panics_example =
    update_outside_panics loop_toolkit 0 update_request empty_cycle submitted_tx 6 refl refl refl
      refl refl refl refl

abbrev empty_store : LoopToolkit
empty_store = record loop_toolkit { get_transaction_by_id = λ _ _. stored none }

process_policy_api_requests-Answered_example :
    Answered handler.policy_engine_api_requests empty_cycle
      (process_policy_api_requests empty_store empty_cycle)
process_policy_api_requests-Answered_example =
    process_policy_api_requests-Answered empty_store empty_cycle
