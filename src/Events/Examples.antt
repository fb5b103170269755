-- ===== src/Events/Examples.antt =====
-- Batches, checkpoints and the life of a small event stream.
use firefly_transaction_mana.Prelude.{
  String, ◌≡◌, ◌↔◌, refl, Bool, true, false, not, Option, none, some, List, [], ◌∷◌, ◌&&◌, ◌||◌,
  or_else, str_eq, arith,
}
use firefly_transaction_mana.Events.{
  Checkpoint, source_event, type_events, type_blocks, EsListener, Batch,
}
use firefly_transaction_mana.Events.Poll.{Poll, arrived, timer, find_listener}
use firefly_transaction_mana.Events.Poll.Gathered.{find_checkpoint}
use firefly_transaction_mana.Events.Deliver.{
  handling_block, round_failed, round_succeeded, AckMessage, ack, ack_error, acknowledged,
  wait_for_ack, is_address_blocked,
}
use firefly_transaction_mana.Events.Deliver.Acks.{AcknowledgedBy, wait_for_ack_iff}
use firefly_transaction_mana.Events.Deliver.Addresses.{
  IsReserved, number_of, is_address_blocked_iff,
}
use firefly_transaction_mana.Events.Checkpoints.{
  hwm, CheckpointToolkit, batch_checkpoints, apply_batch, refresh_listener, is_stale,
  advance_listener, generate_checkpoint,
}
use firefly_transaction_mana.Events.Checkpoints.Advance.{Advanced, advance_listener-Advanced}
use firefly_transaction_mana.Events.BatchLoop.{Turn, LoopState, LoopConfig}
use firefly_transaction_mana.Events.Config.{EsDefaults, EsSpec, no_spec, no_webhook, merged}
use firefly_transaction_mana.Events.Config.Merge.{
  merge_with_id, name_or_error, merge_named, merge_settings, merge_type, merge_validate_ws_config,
  distribution_mode_of, merge_validate_es_config, merge_validate_wh_config,
}
use firefly_transaction_mana.Events.Config.Settled.{remerge_unchanged}
use firefly_transaction_mana.Events.Config.Changed.{
  SameConfig, webhook_change_forgotten, unreported_same,
}
use firefly_transaction_mana.Events.Lifecycle.{
  start_with_checkpoint, start_loops, check_set_status, es_started, es_stopped, Stream,
  StartAnswers, AddRequest, build_add_request, start,
}
use firefly_transaction_mana.Events.Lifecycle.Stop.{
  stop_status_error, stop_panic, request_stop, finish_stop, stop,
}
use firefly_transaction_mana.Events.Managed.{ManagedPoll}
use firefly_transaction_mana.Events.Lifecycle.Listeners.{reset_listener_checkpoint, ApplyAnswers}
use firefly_transaction_mana.Events.Lifecycle.Consistent.{Consistent}
use firefly_transaction_mana.Events.Lifecycle.Calls.{
  call_update, call_poll, call_start, call_stop, call_apply, call_delete, Call, run_calls,
  run_calls-Consistent,
}
use firefly_transaction_mana.Events.Lifecycle.Stops.{noticed, finish_stop_late}
use firefly_transaction_mana.Events.Lifecycle.Resume.{
  build_add_request-generate_checkpoint, reset_forgets_one,
}

abbrev listener_a : EsListener
listener_a = record {
  id = "a";
  listener_type = some type_events;
  name = "transfers";
  signature = some "Transfer";
  from_block = "0";
  checkpoint = some "10";
  checkpoint_source = source_event;
  last_checkpoint = some 100;
  started = true;
}

abbrev listener_b : EsListener
listener_b = record listener_a { id = "b"; name = "approvals"; checkpoint = none }

-- The position "10" stands before "11" and "12".
abbrev before : Checkpoint → Option Checkpoint → Bool
before c none = false
before c (some d) = str_eq c "10" && not (str_eq d "10") || str_eq c "11" && str_eq d "12"

abbrev event_at : String → Checkpoint → Poll
event_at id c = arrived (listener_a ∷ listener_b ∷ []) (record {
  checkpoint = some c;
  event = some (record { listener_id = some id; data_text = c });
  block_event = none;
  removed = false;
})

-- The event at "10" was delivered before.
abbrev arrivals : List Poll
arrivals =
    event_at "a" "10" ∷ event_at "a" "11" ∷ event_at "b" "11" ∷ event_at "a" "12" ∷ timer ∷ []

abbrev acks : List AckMessage
acks = ack 4 ∷ ack 5 ∷ ack_error ∷ []

wait_for_ack_iff_example : (wait_for_ack 5 acks ≡ acknowledged) ↔ AcknowledgedBy 5 acks
wait_for_ack_iff_example = wait_for_ack_iff 5 acks

is_address_blocked_iff_example :
    (is_address_blocked false 172 16 ≡ true) ↔ IsReserved (number_of 172 16 0 1)
is_address_blocked_iff_example =
    is_address_blocked_iff 172 16 0 1 (omega arith) (omega arith) (omega arith) (omega arith)

abbrev tools : CheckpointToolkit
tools = record {
  now = 200;
  later = 201;
  interval = 50;
  less_than = before;
  answer = λ id. hwm (record { checkpoint = some "20"; last_detected = none });
  in_flight = λ id. str_eq id "a";
}

abbrev batch_of_a : Batch
batch_of_a = record { number = 1; events = []; checkpoints = ("a", "11") ∷ [] }

advance_listener-Advanced_example :
    Advanced tools "b"
      (or_else (find_checkpoint "b" (batch_checkpoints (some batch_of_a))) none)
      (advance_listener tools (some batch_of_a) listener_b)
advance_listener-Advanced_example = advance_listener-Advanced tools (some batch_of_a) listener_b

abbrev state : LoopState
state = record { number = 0; listeners = listener_a ∷ listener_b ∷ []; stored = none }

abbrev turn : Turn
turn = record {
  polls = arrivals;
  rounds = round_failed ∷ round_succeeded ∷ [];
  toolkit = tools;
  written = true;
}

abbrev config : LoopConfig
config = record { handling = handling_block; batch_size = 3 }

build_add_request-generate_checkpoint_example :
    (build_add_request
      (λ _. true)
      (some (generate_checkpoint tools (some batch_of_a) (listener_a ∷ listener_b ∷ [])).1)
      listener_a).checkpoint
    ≡ some "11"
unfolding find_listener advance_listener apply_batch refresh_listener is_stale find_checkpoint
build_add_request-generate_checkpoint_example =
    build_add_request-generate_checkpoint tools (some batch_of_a) (listener_a ∷ listener_b ∷ [])
      (λ _. true) listener_a "11" ((refl, tt), (tt, tt)) found_a advanced_a refl refl
  where
    found_a : find_listener "a" (listener_a ∷ listener_b ∷ []) ≡ some listener_a
    found_a = refl

    advanced_a : (advance_listener tools (some batch_of_a) listener_a).1 ≡ some "11"
    advanced_a = refl

abbrev defaults : EsDefaults
defaults = record {
  batch_size = 50;
  batch_timeout = 500000000;
  error_handling = "block";
  retry_timeout = 30000000000;
  blocked_retry_delay = 60000000000;
  webhook_request_timeout = 30000000000;
  websocket_distribution_mode = "load_balance";
}

abbrev asked : EsSpec
asked = record no_spec { id = some "es1"; name = some "sales"; batch_size = some 20 }

-- The configuration that the stream gets, with all defaults filled in.
abbrev settled : EsSpec
settled = record {
  id = some "es1";
  created = some 7;
  updated = some 7;
  name = some "sales";
  suspended = some false;
  type = some "websocket";
  error_handling = some "block";
  batch_size = some 20;
  batch_timeout = some 500000000;
  retry_timeout = some 30000000000;
  blocked_retry_delay = some 60000000000;
  eth_compat_batch_timeout_ms = none;
  eth_compat_retry_timeout_sec = none;
  eth_compat_blocked_retry_delay_sec = none;
  webhook = none;
  web_socket = some (record { distribution_mode = some "load_balance" });
}

merged_asked : merge_validate_es_config false defaults 7 none asked ≡ merged settled true
unfolding merge_validate_es_config merge_with_id name_or_error merge_named merge_settings merge_type
    merge_validate_ws_config distribution_mode_of
merged_asked = refl

remerge_unchanged_example :
    merge_validate_es_config false defaults 9 (some settled) no_spec
    ≡ merged (record settled { updated = some 9 }) false
remerge_unchanged_example =
    remerge_unchanged false defaults 7 9 none asked settled true merged_asked

merged_again :
    merge_validate_es_config false defaults 9 (some settled) no_spec
    ≡ merged (record settled { updated = some 9 }) false
merged_again = remerge_unchanged false defaults 7 9 none asked settled true merged_asked

unreported_same_example : SameConfig settled (record settled { updated = some 9 })
unreported_same_example =
    unreported_same defaults 9 settled no_spec (record settled { updated = some 9 }) merged_again
      refl

webhook_change_forgotten_example :
    merge_validate_wh_config defaults true
      (some (record {
        url = some "https://old";
        headers = some "{}";
        tls_skip_host_verify = some false;
        request_timeout = some 30;
        eth_compat_request_timeout_sec = none;
      }))
      (some (record no_webhook { url = some "https://new" }))
    ≡ merged
        (record {
          url = some "https://new";
          headers = some "{}";
          tls_skip_host_verify = some false;
          request_timeout = some 30;
          eth_compat_request_timeout_sec = none;
        })
        false
webhook_change_forgotten_example =
    webhook_change_forgotten defaults true "https://old" "https://new" (some "{}") false 30 refl

abbrev answers : StartAnswers
answers = record {
  action_ok = true;
  checkpoint_read = true;
  stream_start_ok = true;
  block_listener_ok = λ _. true;
  parses = λ _. true;
}

-- A stream with a listener for events and one for blocks.
abbrev stream : Stream
stream = record {
  status = es_stopped;
  api_managed = false;
  current = none;
  listeners =
      record listener_a { started = false }
      ∷ record listener_b { started = false; listener_type = some type_blocks }
      ∷ [];
  confirmations_started = false;
  stored = some (record { time = 150; listeners = ("a", "10") ∷ [] });
}

abbrev request_a : AddRequest
request_a = record {
  listener_id = "a";
  name = "transfers";
  from_block = "0";
  checkpoint = some "10";
}

-- Two calls request a stop; one of them finishes, the stream is started again, and then the other
-- one finishes.
abbrev restarted_stream : Stream
restarted_stream =
    let asked_twice = (request_stop (request_stop (start answers none stream).0).0).0 in
    (start answers none (finish_stop asked_twice).0).0

restarted_is_started : restarted_stream.status ≡ es_started
unfolding start start_with_checkpoint start_loops request_stop finish_stop check_set_status
restarted_is_started = refl

finish_stop_late_example :
    ((finish_stop restarted_stream).1 ≡ stop_status_error)
    × ((finish_stop restarted_stream).0.status ≡ es_started)
    × ((stop (noticed false false) (finish_stop restarted_stream).0).1 ≡ stop_panic)
finish_stop_late_example =
    finish_stop_late (noticed false false) restarted_stream restarted_is_started

abbrev apply_answers : ApplyAnswers
apply_answers = record {
  stops = noticed false false;
  reset = record { read = true; written = true };
  start = answers;
  add_ok = true;
}

abbrev managed_poll : ManagedPoll
managed_poll = record {
  stops = noticed false false;
  answers = answers;
  polls = arrivals;
  toolkit = tools;
}

abbrev calls : List Call
calls =
    call_start answers
    ∷ call_apply apply_answers listener_a true
    ∷ call_update defaults 400 (noticed false false) answers settled asked
    ∷ call_poll 10 managed_poll none 3 none
    ∷ call_stop (record (noticed false false) { notified = false })
    ∷ call_stop (noticed false true)
    ∷ call_stop (noticed false false)
    ∷ call_delete (noticed false false) true
    ∷ []

run_calls-Consistent_example : Consistent (run_calls calls stream)
run_calls-Consistent_example =
    run_calls-Consistent calls stream (record { agrees = (refl, (refl, tt)) })

reset_forgets_one_example :
    ((build_add_request
        (λ _. true)
        (reset_listener_checkpoint apply_answers.reset "a" stream).0.stored
        listener_a).checkpoint
      ≡ none)
    × ((build_add_request
          (λ _. true)
          (reset_listener_checkpoint apply_answers.reset "a" stream).0.stored
          listener_b).checkpoint
        ≡ (build_add_request (λ _. true) stream.stored listener_b).checkpoint)
reset_forgets_one_example =
    reset_forgets_one apply_answers.reset stream (λ _. true) listener_a listener_b refl refl refl
      refl
