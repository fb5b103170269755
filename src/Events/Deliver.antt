-- ===== src/Events/Deliver.antt =====
-- internal/events: performActionsWithRetry of eventstream.go, the acknowledgement of
-- websockets.go, and the addresses that webhooks.go blocks.
pub mod Acks
pub mod Addresses
use firefly_transaction_mana.Prelude.{
  ℕ, Bool, true, false, not, Option, none, some, List, [], ◌∷◌, ◌&&◌, ◌||◌, leb, ltb, ◌==◌,
  if◌then◌else◌,
}
use firefly_transaction_mana.Events.{EventWithContext, Batch}

pub data ErrorHandling : Type 0 where
  handling_block handling_skip : ErrorHandling

-- How one round of short retries ends, which are the retry library's: with success, or with an
-- error, after which the context is done before the next round or not.
pub data Round : Type 0 where
  round_succeeded round_failed round_failed_at_end : Round

-- `still_blocked` is a loop that waits for another round.
pub data Performed : Type 0 where
  delivered batch_skipped action_cancelled still_blocked : Performed

abbrev pub blocked_or_skip : ErrorHandling → Performed → Performed
blocked_or_skip handling_skip p = batch_skipped
blocked_or_skip handling_block p = p

unfoldable pub perform_rounds : ErrorHandling → List Round → Performed
perform_rounds h [] = still_blocked
perform_rounds h (round_succeeded ∷ rs) = delivered
perform_rounds h (round_failed ∷ rs) = blocked_or_skip h (perform_rounds h rs)
perform_rounds h (round_failed_at_end ∷ rs) = blocked_or_skip h action_cancelled

abbrev pub perform_events : ErrorHandling → List EventWithContext → List Round → Performed
perform_events h [] rs = delivered
perform_events h (e ∷ es) rs = perform_rounds h rs

unfoldable pub perform_actions_with_retry : ErrorHandling → Batch → List Round → Performed
unfolding perform_rounds
perform_actions_with_retry h b rs = perform_events h b.events rs

-- What `waitForAck` receives: an acknowledgement of a batch, an error, or the end of the context.
pub data AckMessage : Type 0 where
  ack : ℕ → AckMessage
  ack_error : AckMessage
  ack_context_done : AckMessage

pub data Acked : Type 0 where
  acknowledged ack_failed interrupted still_waiting : Acked

unfoldable pub wait_for_ack : ℕ → List AckMessage → Acked
wait_for_ack n [] = still_waiting
wait_for_ack n (ack m ∷ ms) =
    let rest = wait_for_ack n ms in if not (m == n) then rest else acknowledged
wait_for_ack n (ack_error ∷ ms) = ack_failed
wait_for_ack n (ack_context_done ∷ ms) = interrupted

pub data DistributionMode : Type 0 where
  load_balance broadcast other_mode : DistributionMode

pub data Attempt : Type 0 where
  attempt_ok attempt_failed attempt_waits : Attempt

abbrev pub attempt_of : Acked → Attempt
attempt_of acknowledged = attempt_ok
attempt_of still_waiting = attempt_waits
attempt_of _ = attempt_failed

-- `webSocketAction.attemptBatch`: `sent` says whether the batch was taken before the context was
-- done. A broadcast is not acknowledged.
unfoldable pub attempt_web_socket : DistributionMode → Bool → ℕ → List AckMessage → Attempt
unfolding wait_for_ack
attempt_web_socket other_mode sent n ms = attempt_failed
attempt_web_socket broadcast sent n ms = if sent then attempt_ok else attempt_failed
attempt_web_socket load_balance sent n ms =
    if sent then attempt_of (wait_for_ack n ms) else attempt_failed

-- An IPv4 address, by its first two bytes and the rest.
unfoldable pub is_address_blocked : Bool → ℕ → ℕ → Bool
is_address_blocked allow_private a b =
    not allow_private
    && (a == 0
        || leb 224 a
        || a == 127
        || a == 10
        || a == 172 && leb 16 b && ltb b 32
        || a == 192 && b == 168)
