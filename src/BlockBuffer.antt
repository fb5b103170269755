-- ===== src/BlockBuffer.antt =====
-- internal/blocklistener/blocklistener.go: the goroutine of BufferChannel, which takes every block
-- event from the connector, and holds one of them while its receiver is full.
pub mod Accounts
mod Examples
use firefly_transaction_mana.Prelude.{
  ℕ, suc, ◌+◌, Bool, true, false, Option, none, some, List, [], ◌∷◌, ◌++◌, if◌then◌else◌,
}
use firefly_transaction_mana.Confirmations.Rounds.{BlockHashEvent}

pub record Buffer : Type 0 where
  pub blocked_update : Option BlockHashEvent
  pub blocked_discard_count : ℕ
  pub sent : List BlockHashEvent

-- What happens to the goroutine: it receives an event, and the receiver has room for it or not; or
-- the receiver gets room; or the context ends.
pub data Happening : Type 0 where
  received : BlockHashEvent → Bool → Happening
  unblocked : Happening

unfoldable pub mark_gap : BlockHashEvent → BlockHashEvent
mark_gap e = record e { gap_potential = true }

-- `has_target` is false where there is no receiver: then an event is dropped.
abbrev pub receive : Bool → BlockHashEvent → Bool → Option BlockHashEvent → Buffer → Buffer
receive has_target e room (some held) s = record s {
  blocked_update = some (mark_gap held);
  blocked_discard_count = s.blocked_discard_count + 1;
}
receive true e true none s = record s { sent = s.sent ++ e ∷ [] }
receive true e false none s = record s { blocked_update = some e }
receive false e room none s = s

abbrev pub unblock : Option BlockHashEvent → Buffer → Buffer
unblock none s = s
unblock (some held) s = record {
  blocked_update = none;
  blocked_discard_count = 0;
  sent = s.sent ++ held ∷ [];
}

unfoldable pub buffer_step : Bool → Happening → Buffer → Buffer
unfolding mark_gap
buffer_step has_target (received e room) s = receive has_target e room s.blocked_update s
buffer_step has_target unblocked s = unblock s.blocked_update s

unfoldable pub buffer_channel : Bool → List Happening → Buffer → Buffer
unfolding buffer_step
buffer_channel has_target [] s = s
buffer_channel has_target (h ∷ hs) s = buffer_channel has_target hs (buffer_step has_target h s)

abbrev pub empty_buffer : Buffer
empty_buffer = record { blocked_update = none; blocked_discard_count = 0; sent = [] }
