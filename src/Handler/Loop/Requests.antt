-- ===== src/Handler/Loop/Requests.antt =====
-- pkg/txhandler/simple/policyloop.go: the API requests, a cycle of the policy loop, and the
-- notifications.
use firefly_transaction_mana.Prelude.{
  ℕ, suc, String, Bool, true, false, Option, none, some, List, [], ◌∷◌, ◌++◌, if◌then◌else◌, str_eq,
  ◌||◌,
}
use firefly_transaction_mana.Tx.{ManagedTx, received}
use firefly_transaction_mana.Handler.{
  ActionType, action_none, action_resume, action_update, Error, transaction_not_found,
  request_invalid, PendingState, Receipt, ConfirmationsNotification, Request,
}
use firefly_transaction_mana.Handler.Exec.{Effect, marked_stale, Run, Outcome, ok, err, panic}
use firefly_transaction_mana.Handler.Snapshot.{new_run}
use firefly_transaction_mana.Handler.Policy.{exec_policy}
use firefly_transaction_mana.Handler.Loop.{
  StoredAnswer, LoopToolkit, SimpleHandler, mark_inflight_update, mark_inflight_stale,
  update_inflight_set, Response, Cycle, stored, not_read,
}

abbrev pub has_mark : List Effect → Bool
has_mark [] = false
has_mark (marked_stale ∷ es) = true
has_mark (_ ∷ es) = has_mark es

-- One run of the policy over a pending state.
unfoldable pub run_one :
    LoopToolkit → PendingState → Option Request → Cycle → Outcome (Unit {0}) × Run
run_one tk p request c =
    exec_policy (tk.run c.runs) c.handler.config request (new_run p c.handler.oracle)

-- The cycle after a run that did not change the in-flight set.
unfoldable pub after_run : Run → Cycle → Cycle
unfolding mark_inflight_stale
after_run r c = record {
  handler =
      let h = record (c.handler) { oracle = r.oracle } in
      if has_mark r.effects then mark_inflight_stale h else h;
  runs = suc c.runs;
  responses = c.responses;
  effects = c.effects ++ r.effects;
}

-- How a part of a cycle ends: a panic ends the process, and a send on a channel that is not made
-- yet, a nil channel, blocks for ever.
pub data Stepped (A : Type 0) : Type 0 where
  went_on : A → Stepped A
  panicked blocked : Stepped A

abbrev pub respond : Request → Response → Cycle → Stepped Cycle
respond q s c =
    if q.has_response_channel
    then went_on (record c { responses = c.responses ++ (q, s) ∷ [] })
    else blocked

unfoldable pub find_pending : String → List PendingState → Option PendingState
find_pending id [] = none
find_pending id (p ∷ ps) = if str_eq p.mtx.id id then some p else find_pending id ps

-- What was done to the first pending state with this transaction ID, which is shared.
unfoldable pub put_pending : String → PendingState → List PendingState → List PendingState
put_pending id q [] = []
put_pending id q (p ∷ ps) =
    let rest = put_pending id q ps in if str_eq p.mtx.id id then q ∷ ps else p ∷ rest

abbrev pub is_sync : ActionType → Bool
is_sync action_resume = true
is_sync action_update = true
is_sync _ = false

-- http.StatusOK, http.StatusAccepted and http.StatusInternalServerError
abbrev pub status_of : PendingState → Request → ℕ
status_of p q = if p.remove || is_sync q.request_type then 200 else 202

-- The response to a request that was run.
abbrev pub response_of : Outcome (Unit {0}) → PendingState → Request → Option Response
response_of (ok _) p q = some (record { tx = some p.mtx; err = none; status = status_of p q })
response_of (err e) p q = some (record { tx = none; err = some e; status = 500 })
response_of panic p q = none

abbrev pub is_policy_action : ActionType → Bool
is_policy_action action_none = false
is_policy_action _ = true

-- `p` is the pending state that the request is run on, and `keep` puts it back where it came from.
unfoldable pub run_request :
    LoopToolkit
    → Request
    → PendingState
    → (PendingState → SimpleHandler → SimpleHandler)
    → Cycle
    → Stepped Cycle
unfolding run_one after_run
run_request tk q p keep c =
    if is_policy_action q.request_type
    then (let (o, r) = run_one tk p (some q) c in
        let c' = after_run r c in
        elim (response_of o r.pending q) [
          | none ↦ panicked
          | some s ↦ respond q s (record c' { handler = keep r.pending c'.handler })
        ])
    else respond q (record { tx = none; err = some (request_invalid q.request_type); status = 0 }) c

-- A transaction outside the in-flight set, without the policy info that is read for the others.
unfoldable pub outside_pending : ManagedTx → PendingState
outside_pending mtx = record {
  mtx = mtx;
  tracking_transaction_hash = "";
  last_policy_cycle = 0;
  receipt = none;
  info = none;
  confirmed = false;
  confirmations = none;
  receipt_notify = none;
  confirm_notify = none;
  remove = false;
  sub_status = received;
}

unfoldable pub outside_request : LoopToolkit → Request → StoredAnswer → Cycle → Stepped Cycle
unfolding run_request outside_pending
outside_request tk q (not_read e) c = respond q (record { tx = none; err = some e; status = 500 }) c
outside_request tk q (stored none) c =
    respond q (record { tx = none; err = some (transaction_not_found q.tx_id); status = 500 }) c
outside_request tk q (stored (some mtx)) c = run_request tk q (outside_pending mtx) (λ _ h. h) c

unfoldable pub process_request : LoopToolkit → ℕ → Request → Cycle → Stepped Cycle
unfolding find_pending put_pending run_request outside_request
process_request tk n q c = elim (find_pending q.tx_id c.handler.inflight) [
  | some p ↦
      run_request tk q p (λ p' h. record h { inflight = put_pending q.tx_id p' h.inflight }) c
  | none ↦ outside_request tk q (tk.get_transaction_by_id n q.tx_id) c
]

-- What follows if the process is still there.
abbrev pub and_then : {A B : Type 0} → Stepped A → (A → Stepped B) → Stepped B
and_then panicked f = panicked
and_then blocked f = blocked
and_then (went_on a) f = f a

unfoldable pub process_requests : LoopToolkit → ℕ → List Request → Cycle → Stepped Cycle
process_requests tk n [] c = went_on c
process_requests tk n (q ∷ qs) c =
    and_then (process_request tk n q c) (process_requests tk (suc n) qs)

unfoldable pub process_policy_api_requests : LoopToolkit → Cycle → Stepped Cycle
unfolding process_requests
process_policy_api_requests tk c =
    process_requests tk 0 c.handler.policy_engine_api_requests
      (record c { handler = record (c.handler) { policy_engine_api_requests = [] } })

-- An error of a run is logged, and the next one is run.
unfoldable pub run_pending : LoopToolkit → PendingState → Cycle → Stepped (PendingState × Cycle)
unfolding run_one after_run
run_pending tk p c =
    let (o, r) = run_one tk p none c in
    elim o [ panic ↦ panicked | _ ↦ went_on (r.pending, after_run r c) ]

unfoldable pub run_inflight :
    LoopToolkit → List PendingState → Cycle → Stepped (List PendingState × Cycle)
run_inflight tk [] c = went_on ([], c)
run_inflight tk (p ∷ ps) c =
    and_then (run_pending tk p c)
      (λ (p', c'). and_then (run_inflight tk ps c') (λ (ps', d). went_on (p' ∷ ps', d)))

unfoldable pub run_all : LoopToolkit → Cycle → Stepped Cycle
run_all tk c =
    and_then (run_inflight tk c.handler.inflight c)
      (λ (ps, d). went_on (record d { handler = record (d.handler) { inflight = ps } }))

abbrev pub refresh : LoopToolkit → Bool → Cycle → Cycle × Bool
refresh tk false c = (c, true)
refresh tk true c =
    let (h, done) = update_inflight_set tk c.handler in (record c { handler = h }, done)

unfoldable pub policy_loop_cycle : LoopToolkit → Bool → Cycle → Stepped Cycle
policy_loop_cycle tk stale c =
    and_then (process_policy_api_requests tk c)
      (λ c1. let (c2, done) = refresh tk stale c1 in if done then run_all tk c2 else went_on c2)

-- One round of `policyLoop` that was woken by an update or by the ticker: the two channels are
-- drained before the cycle.
unfoldable pub policy_loop_round : LoopToolkit → SimpleHandler → Stepped Cycle
policy_loop_round tk h = policy_loop_cycle tk h.inflight_stale (record {
  handler = record h { inflight_stale = false; inflight_update = false };
  runs = 0;
  responses = [];
  effects = [];
})

abbrev pub notify_pending :
    String → (PendingState → PendingState) → SimpleHandler → SimpleHandler × Option Error
notify_pending id f h = elim (find_pending id h.inflight) [
  | none ↦ (h, some (transaction_not_found id))
  | some p ↦ (mark_inflight_update (record h { inflight = put_pending id (f p) h.inflight }), none)
]

unfoldable pub handle_transaction_confirmations :
    ℕ → String → ConfirmationsNotification → SimpleHandler → SimpleHandler × Option Error
unfolding find_pending put_pending mark_inflight_update
handle_transaction_confirmations now id n h =
    notify_pending id
      (λ p. record p { confirmed = n.confirmed; confirm_notify = some now; confirmations = some n })
      h

unfoldable pub handle_transaction_receipt_received :
    ℕ → String → Option Receipt → SimpleHandler → SimpleHandler × Option Error
unfolding find_pending put_pending mark_inflight_update
handle_transaction_receipt_received now id receipt h =
    notify_pending id (λ p. record p { receipt_notify = some now; receipt = receipt }) h

-- `policyEngineAPIRequest`, up to the wait for the response.
unfoldable pub policy_engine_api_request : Request → SimpleHandler → SimpleHandler
unfolding mark_inflight_update
policy_engine_api_request q h =
    mark_inflight_update
      (record h { policy_engine_api_requests = h.policy_engine_api_requests ++ q ∷ [] })
